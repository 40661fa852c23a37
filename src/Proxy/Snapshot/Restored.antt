-- ===== src/Proxy/Snapshot/Restored.antt =====
-- A snapshot that `take_snapshot` of src/proxy.rs takes, and the recovery from it.
use mathlib.Core.Path.{subst}
use trakt.Base.{
  ℕ, ◌≡◌, refl, sym, ap, ◌∙◌, inl, inr, Bool, Bool-cases, List, [], ◌∷◌, Option, none, some, All,
}
use trakt.Config.{Text, RootConfig}
use trakt.Raknet.Bytes.{BytesCrate}
use trakt.Raknet.Datatypes.{SocketAddr}
use trakt.Proxy.Client.{is_connected}
use trakt.Proxy.Clients.{Socket, usable, RaknetProxy, get_client, Reaches}
use trakt.Proxy.Clients.Map.{IsMap}
use trakt.Proxy.Clients.Reach.{IsStart, start-IsMap, start-IsLoaded, reach-IsMap}
use trakt.Proxy.Clients.Distinct.{Distinct, Found, reach-Distinct, All-Found}
use trakt.Proxy.Snapshot.{
  snapshot_of, RaknetProxySnapshot, RaknetClientSnapshot, snapshot_loop, take_snapshot, meet,
  recover_loop, recover_from_snapshot,
}
use trakt.Proxy.Snapshot.Views.{view_of, view_in, view}
use trakt.Proxy.Snapshot.Joined.{IsRecovering, Joined, joined_state, join}
use trakt.Proxy.Snapshot.Lookups.{
  register_all-view, unseen, or_else, or_else-none, absent-cons, view_in-skip, view_in-take,
}
use trakt.Proxy.Snapshot.Taken.{loop, entry, loop_skip, loop_take, listed}

module _ ⦃crate : BytesCrate⦄ (to_string : SocketAddr → Text) (local_addr : ℕ → Option SocketAddr)
    (from_str : Text → Option SocketAddr) (bound : Text → Socket) (announced : Text → Bool) where
  -- The addresses of a client survive their text form, and its socket can be bound again.
  abbrev pub BoundAgain : Option SocketAddr → Type 0
  BoundAgain none = Unit
  BoundAgain (some own) = bound (to_string own) ≡ usable

  abbrev pub Restorable : RaknetProxy → SocketAddr × ℕ → Type 0
  Restorable s (a, i) =
      (from_str (to_string a) ≡ some a)
      × (from_str (to_string (s.store.at (s.at i).server).addr)
          ≡ some (s.store.at (s.at i).server).addr)
      × BoundAgain (local_addr i)

  -- The entries are those of the clients' own addresses.
  abbrev Owned : RaknetProxy → SocketAddr × ℕ → Type 0
  Owned s (a, i) = (s.at i).addr ≡ a

  abbrev Free : RaknetProxy → SocketAddr × ℕ → Type 0
  Free t (a, i) = get_client a t.clients ≡ none

  still-Free :
      (t u : RaknetProxy) (k b : SocketAddr) (met : List (SocketAddr × ℕ))
      (clients : List (SocketAddr × ℕ))
      → Joined t k b u met
      → get_client k clients ≡ none
      → All (Free t) clients
      → All (Free u) clients
  unfolding get_client
  still-Free t u k b met [] j absent free = tt
  still-Free t u k b met ((a, i) ∷ clients) j absent free =
      let apart = absent-cons k a i clients absent in
      (j.listed a free.0 apart.0, still-Free t u k b met clients j apart.1 free.1)

  recover_loop-join :
      (s : RaknetProxy) (k own : SocketAddr) (i : ℕ) (clients : List RaknetClientSnapshot)
      (t : RaknetProxy) (met : List (SocketAddr × ℕ))
      → Owned s (k, i)
      → Restorable s (k, i)
      → local_addr i ≡ some own
      → let b = (s.store.at (s.at i).server).addr in
        recover_loop from_str bound announced (entry to_string local_addr s i own ∷ clients) t met
        ≡ recover_loop from_str bound announced clients
            (joined_state from_str t met k b (announced (to_string own)))
            (meet b t met).1.1
  unfolding recover_loop snapshot_of
  recover_loop-join s k own i clients t met at_k (e, e', again) known =
      let open_again : bound (to_string own) ≡ usable = subst BoundAgain known again in
      rw (at_k, e, e', recover_loop) (rw open_again refl)

  recover_loop-view :
      (s : RaknetProxy) (clients : List (SocketAddr × ℕ)) (list : List RaknetClientSnapshot)
      (t : RaknetProxy) (met : List (SocketAddr × ℕ)) (a : SocketAddr)
      → loop to_string local_addr s clients ≡ some list
      → Distinct clients
      → All (Owned s) clients
      → All (Restorable s) clients
      → All (Free t) clients
      → IsRecovering t met
      → view (recover_loop from_str bound announced list t met).0 a
        ≡ or_else (view t a) (view_in s clients a)
  recover_loop-view s [] list t met a e d o r f h =
      let empty : [] ≡ list = unfold snapshot_loop in cc e in
      rw (sym empty) (unfold recover_loop get_client in or_else-none (view t a))
  recover_loop-view s ((k, i) ∷ clients) list t met a e d o r f h =
      elim (Bool-cases (is_connected (s.at i).stage)) [
        | inl there ↦
            let (own, later, known, all, same) =
              loop_take to_string local_addr s k i clients list there e in
            let b = (s.store.at (s.at i).server).addr in
            let j = join from_str t met k b (announced (to_string own)) h f.0 in
            let u = joined_state from_str t met k b (announced (to_string own)) in
            let met' = (meet b t met).1.1 in
            rw (same, recover_loop-join s k own i later t met o.0 r.0 known)
              (recover_loop-view s clients later u met' a all d.1 o.1 r.1
                  (still-Free t u k b met' clients j d.0 f.1) j.recovering
                ∙ ap (λ v. or_else v (view_in s clients a)) (j.seen a)
                ∙ view_in-take s k a i clients (view t a) there d.0
                    (λ e. ap (view_of t) (ap (λ x. get_client x t.clients) (sym e) ∙ f.0)))
        | inr away ↦
            recover_loop-view s clients list t met a
              (sym (loop_skip to_string local_addr s k i clients away) ∙ e) d.1 o.1 r.1 f.1 h
            ∙ ap (or_else (view t a)) (view_in-skip s k a i clients away d.0)
      ]

  All-Owned :
      (s : RaknetProxy) (clients : List (SocketAddr × ℕ))
      → IsMap s
      → All (Found s.clients) clients
      → All (Owned s) clients
  All-Owned s [] inv h = tt
  All-Owned s ((k, i) ∷ clients) inv h = ((inv.present k i h.0).2, All-Owned s clients inv h.1)

  All-Free :
      (t : RaknetProxy) (clients : List (SocketAddr × ℕ)) → t.clients ≡ [] → All (Free t) clients
  unfolding get_client
  All-Free t [] e = tt
  All-Free t ((k, i) ∷ clients) e = (rw e refl, All-Free t clients e)

  -- Take a snapshot of the proxy in any state that it comes to from a start with no clients and no
  -- load, and recover from it, if there is one, in a proxy that has just started, whatever servers
  -- its balancer has. Then every player who was connected is connected to a server of the same
  -- address, and nobody else is there as connected, if the addresses of the clients and their servers
  -- survive their text form and the clients' sockets can be bound again.
  pub recover-take_snapshot :
      (start s restarted : RaknetProxy)
      → IsStart start
      → Reaches from_str start s
      → IsStart restarted
      → All (Restorable s) s.clients
      → (now : ℕ) (config : RootConfig) (in_addr : Option SocketAddr)
        (snapshot : RaknetProxySnapshot) (a : SocketAddr)
      → take_snapshot to_string local_addr now config in_addr s ≡ some snapshot
      → view (recover_from_snapshot from_str bound announced snapshot restarted) a ≡ view s a
  unfolding recover_from_snapshot
  recover-take_snapshot start s restarted begun reached fresh restorable now config in_addr snapshot
        a taken =
      let distinct = reach-Distinct from_str start s reached (rw begun.empty tt) in
      let inv = reach-IsMap from_str start s reached (start-IsMap start begun) in
      let looped = recover_loop from_str bound announced snapshot.clients restarted [] in
      register_all-view looped.1 looped.0 a
      ∙ recover_loop-view s s.clients snapshot.clients restarted [] a
          (listed to_string local_addr now config in_addr s snapshot taken) distinct
          (All-Owned s s.clients inv (All-Found s.clients distinct)) restorable
          (All-Free restarted s.clients fresh.empty)
          (record {
            mapped = start-IsMap restarted fresh;
            loaded = start-IsLoaded restarted fresh;
            met_addr = tt;
          })
      ∙ ap (λ v. or_else v (view s a)) (unseen restarted a fresh.empty)
