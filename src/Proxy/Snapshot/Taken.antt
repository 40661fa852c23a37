-- ===== src/Proxy/Snapshot/Taken.antt =====
-- What `take_snapshot` of src/proxy.rs lists.
use trakt.Base.{
  Option-cases, ℕ, ◌≡◌, refl, ap, ◌∙◌, inl, inr, true, false, List, ◌∷◌, Option, none, some,
}
use trakt.Config.{Text, RootConfig}
use trakt.Raknet.Datatypes.{SocketAddr}
use trakt.Proxy.Client.{is_connected}
use trakt.Proxy.Clients.{RaknetProxy}
use trakt.Proxy.Snapshot.{
  snapshot_of, RaknetProxySnapshot, RaknetClientSnapshot, snapshot_loop, take_snapshot,
}

module _ (to_string : SocketAddr → Text) (local_addr : ℕ → Option SocketAddr) where
  abbrev pub loop : RaknetProxy → List (SocketAddr × ℕ) → Option (List RaknetClientSnapshot)
  loop s clients = snapshot_loop to_string local_addr s clients

  abbrev pub entry : RaknetProxy → ℕ → SocketAddr → RaknetClientSnapshot
  entry s i own = snapshot_of to_string local_addr s i own

  pub loop_skip :
      (s : RaknetProxy) (k : SocketAddr) (i : ℕ) (clients : List (SocketAddr × ℕ))
      → is_connected (s.at i).stage ≡ false
      → loop s ((k, i) ∷ clients) ≡ loop s clients
  unfolding snapshot_loop
  loop_skip s k i clients away = rw away refl

  -- A connected client is in the snapshot, if there is one.
  pub loop_take :
      (s : RaknetProxy) (k : SocketAddr) (i : ℕ) (clients : List (SocketAddr × ℕ))
      (list : List RaknetClientSnapshot)
      → is_connected (s.at i).stage ≡ true
      → loop s ((k, i) ∷ clients) ≡ some list
      → (own : SocketAddr) × (later : List RaknetClientSnapshot) × (local_addr i ≡ some own)
        × (loop s clients ≡ some later)
        × (list ≡ entry s i own ∷ later)
  unfolding snapshot_loop
  loop_take s k i clients list there e = elim (Option-cases (local_addr i)) [
    | inl lost ↦
        absurd
          (let gone : loop s ((k, i) ∷ clients) ≡ none = rw there (rw lost refl) in cc (gone, e))
    | inr (own, found) ↦ elim (Option-cases (loop s clients)) [
      | inl lost ↦ absurd (
          let gone : loop s ((k, i) ∷ clients) ≡ none = rw there (rw found (rw lost refl)) in
          cc (gone, e))
      | inr (later, all) ↦
          let given : loop s ((k, i) ∷ clients) ≡ some (entry s i own ∷ later) =
            rw there (rw found (rw all refl)) in
          (own, later, found, all, cc (given, e))
    ]
  ]

  -- What the snapshot lists.
  pub listed :
      (now : ℕ) (config : RootConfig) (in_addr : Option SocketAddr) (s : RaknetProxy)
      (snapshot : RaknetProxySnapshot)
      → take_snapshot to_string local_addr now config in_addr s ≡ some snapshot
      → loop s s.clients ≡ some snapshot.clients
  unfolding take_snapshot
  listed now config none s snapshot e = absurd (cc e)
  listed now config (some in_addr) s snapshot e = elim (Option-cases (loop s s.clients)) [
    | inl lost ↦ absurd (
        let gone : take_snapshot to_string local_addr now config (some in_addr) s ≡ none =
          rw (take_snapshot, lost) refl in
        cc (gone, e))
    | inr (list, all) ↦
        let taken : RaknetProxySnapshot = record {
          taken_at = now;
          config = config;
          player_proxy_bind = to_string in_addr;
          clients = list;
        } in
        let given : take_snapshot to_string local_addr now config (some in_addr) s ≡ some taken =
          rw (take_snapshot, all) refl in
        let same : taken ≡ snapshot = cc (given, e) in all ∙ ap (λ sn. some sn.clients) same
  ]
