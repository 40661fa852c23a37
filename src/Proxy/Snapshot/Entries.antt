-- ===== src/Proxy/Snapshot/Entries.antt =====
-- How one entry of a snapshot changes the proxy that `recover_from_snapshot` of src/proxy.rs fills.
use trakt.Base.{
  ℕ, ◌≡◌, refl, sym, ap, ◌∙◌, inl, inr, Bool, true, false, ◌&&◌, Bool-cases, List, Option, none,
  some, Option-cases, if◌then◌else◌,
}
use trakt.Config.{Text}
use trakt.Raknet.Bytes.{BytesCrate}
use trakt.Raknet.Datatypes.{SocketAddr}
use trakt.Server.{addr_eq, addr_eq→eq}
use trakt.Proxy.Client.{connected}
use trakt.Proxy.Clients.{Socket, refused, unnamed, usable, RaknetProxy, get_client, new_client}
use trakt.Proxy.Clients.Opening.{taken, unnamed_taken, unnamed_asked}
use trakt.Proxy.Clients.Reach.{reach-IsMap, reach-IsLoaded}
use trakt.Proxy.Snapshot.{meet}
use trakt.Proxy.Snapshot.Recovery.{meet-Meets}
use trakt.Proxy.Snapshot.Views.{meet-Met, Same-view, view}
use trakt.Proxy.Snapshot.Joined.{IsRecovering, Joined, MetAddr-IsMet, joined_state, join}
use trakt.Proxy.Snapshot.Lookups.{or_else, or_else-none}

abbrev pub is_usable : Socket → Bool
is_usable usable = true
is_usable _ = false

-- Every client that is there is connected.
abbrev pub AllSeen : RaknetProxy → Type 0
AllSeen t = (a : SocketAddr) → view t a ≡ none → get_client a t.clients ≡ none

-- Without a usable socket nothing happens.
kept :
    (bound : Socket) (announced : Bool) (k : SocketAddr) (id : ℕ) (t : RaknetProxy)
    → is_usable bound ≡ false
    → (new_client bound announced k connected (some id) t).1 ≡ t
kept refused announced k id t e = unfold new_client in refl
kept usable announced k id t e = absurd (cc e)
kept unnamed announced k id t e = elim (Option-cases (get_client k t.clients)) [
  | inl free ↦ ap (λ r. r.1) (unnamed_asked announced k connected t free id)
  | inr (i, there) ↦
      ap (λ r. r.1) (unnamed_taken announced k connected t (some id) {there = i} there)
]

-- How one entry of the list changes the proxy.
pub record Next (t : RaknetProxy) (k b : SocketAddr) (good : Bool) (u : RaknetProxy)
    (met : List (SocketAddr × ℕ)) : Type 0 where
  pub recovering : IsRecovering u met
  pub all_seen : AllSeen u
  pub seen :
      (a : SocketAddr)
      → view u a ≡ or_else (view t a) (if good && addr_eq k a then some b else none)

module _ ⦃crate : BytesCrate⦄ (from_str : Text → Option SocketAddr) where
  module _ (t : RaknetProxy) (met : List (SocketAddr × ℕ)) (k b : SocketAddr)
      (h : IsRecovering t met) (all : AllSeen t) where
    unfoldable pub met_state : RaknetProxy
    met_state = (meet b t met).1.0

    met-IsRecovering : IsRecovering met_state (meet b t met).1.1
    unfolding met_state
    met-IsRecovering =
        let reached = meet-Meets from_str b t met h.loaded (MetAddr-IsMet t met h.met_addr) in
        record {
          mapped = reach-IsMap from_str t (meet b t met).1.0 reached.0 h.mapped;
          loaded = reach-IsLoaded from_str t (meet b t met).1.0 reached.0 h.loaded;
          met_addr = (meet-Met b t met h.loaded h.met_addr).3;
        }

    met_view : (a : SocketAddr) → view met_state a ≡ view t a
    unfolding met_state
    met_view a =
        Same-view t (meet b t met).1.0 a (meet-Met b t met h.loaded h.met_addr).0 h.mapped h.loaded

    met_listed : (a : SocketAddr) → get_client a met_state.clients ≡ get_client a t.clients
    unfolding met_state
    met_listed a = ap (get_client a) (meet-Met b t met h.loaded h.met_addr).0.clients_same

    met_AllSeen : AllSeen met_state
    met_AllSeen a e = met_listed a ∙ all a (sym (met_view a) ∙ e)

    unfoldable pub joined_with : Socket → Bool → RaknetProxy
    joined_with bnd announced =
        (new_client bnd announced k connected (some (meet b t met).0) met_state).1

    -- The entry changes nothing that shows.
    next-idle :
        (good : Bool) (u : RaknetProxy)
        → u ≡ met_state
        → ((a : SocketAddr)
            → view t a ≡ or_else (view t a) (if good && addr_eq k a then some b else none))
        → Next t k b good u (meet b t met).1.1
    next-idle good u same shown = rw same (record {
      recovering = met-IsRecovering;
      all_seen = met_AllSeen;
      seen = λ a. met_view a ∙ shown a;
    })

    next-lost :
        (bnd : Socket) (announced : Bool)
        → is_usable bnd ≡ false
        → Next t k b (is_usable bnd) (joined_with bnd announced) (meet b t met).1.1
    unfolding joined_with
    next-lost bnd announced e =
        next-idle (is_usable bnd) _ (kept bnd announced k (meet b t met).0 met_state e)
          (λ a. rw e (or_else-none (view t a)))

    -- The address is taken: who is there is seen, and stays.
    next-taken :
        (announced : Bool) (i : ℕ)
        → get_client k t.clients ≡ some i
        → Next t k b true (joined_with usable announced) (meet b t met).1.1
    unfolding joined_with
    next-taken announced i there =
        next-idle true _
          (ap (λ r. r.1)
            (taken announced k connected (some (meet b t met).0) met_state {there = i}
              (met_listed k ∙ there)))
          (λ a. stays a)
      where
        stays :
            (a : SocketAddr) → view t a ≡ or_else (view t a) (if addr_eq k a then some b else none)
        stays a = elim (Option-cases (view t a)) [
          | inr (x, e) ↦ rw e refl
          | inl e ↦ elim (Bool-cases (addr_eq k a)) [
            | inl same ↦ absurd (
                let at_a : k ≡ a = addr_eq→eq k a same in
                cc (all a e, there, ap (λ x. get_client x t.clients) at_a))
            | inr other ↦ rw (e, other) refl
          ]
        ]

    -- The address is free: the player is back.
    next-free :
        (announced : Bool)
        → get_client k t.clients ≡ none
        → Next t k b true (joined_with usable announced) (meet b t met).1.1
    unfolding joined_with met_state
    next-free announced free =
        let j = join from_str t met k b announced h free in
        record {
          recovering = j.recovering;
          all_seen = λ a. unseen_free j a;
          seen = λ a. j.seen a ∙ shown a;
        }
      where
        shown :
            (a : SocketAddr)
            → (if addr_eq k a then some b else view t a)
              ≡ or_else (view t a) (if addr_eq k a then some b else none)
        shown a = elim (Bool-cases (addr_eq k a)) [
          | inl same ↦
              let at_a : k ≡ a = addr_eq→eq k a same in
              let nobody : get_client a t.clients ≡ none =
                ap (λ x. get_client x t.clients) (sym at_a) ∙ free in
              rw (same, nobody) refl
          | inr other ↦ rw other (or_else-none (view t a))
        ]

        unseen_free :
            Joined t k b (joined_state from_str t met k b announced) (meet b t met).1.1
            → AllSeen (joined_state from_str t met k b announced)
        unseen_free j a e = elim (Bool-cases (addr_eq k a)) [
          | inl same ↦ absurd (
              let here : (if addr_eq k a then some b else view t a) ≡ some b = rw same refl in
              cc (j.seen a, here, e))
          | inr other ↦
              let there : (if addr_eq k a then some b else view t a) ≡ view t a = rw other refl in
              j.listed a (all a (sym there ∙ sym (j.seen a) ∙ e)) other
        ]

    pub next :
        (bnd : Socket) (announced : Bool)
        → Next t k b (is_usable bnd) (joined_with bnd announced) (meet b t met).1.1
    next refused announced = next-lost refused announced refl
    next unnamed announced = next-lost unnamed announced refl
    next usable announced = elim (Option-cases (get_client k t.clients)) [
      | inl free ↦ next-free announced free
      | inr (i, there) ↦ next-taken announced i there
    ]
