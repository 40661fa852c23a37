-- ===== src/Proxy/Snapshot/Joined.antt =====
-- One client that `recover_from_snapshot` of src/proxy.rs brings back.
use trakt.Base.{
  ℕ, ◌≡◌, refl, ap, ◌∙◌, Bool, false, List, [], ◌∷◌, Option, none, some, if◌then◌else◌,
}
use trakt.Config.{Text}
use trakt.Raknet.Bytes.{BytesCrate}
use trakt.Raknet.Datatypes.{SocketAddr}
use trakt.Server.{addr_eq}
use trakt.Proxy.Client.{connected}
use trakt.Proxy.Clients.{
  usable, RaknetProxy, get_client, insert_client, new_client, Reaches, after, recover,
}
use trakt.Proxy.Clients.Opening.{asked_for}
use trakt.Proxy.Clients.Map.{IsMap}
use trakt.Proxy.Clients.Loads.{IsLoaded}
use trakt.Proxy.Clients.Reach.{reach-IsMap, reach-IsLoaded}
use trakt.Proxy.Snapshot.{meet}
use trakt.Proxy.Snapshot.Recovery.{IsMet, Meets, meet-Meets}
use trakt.Proxy.Snapshot.Views.{MetAddr, Met, meet-Met, view, Same-view, insert-view}

-- What the loop over the snapshot keeps.
pub record IsRecovering (t : RaknetProxy) (met : List (SocketAddr × ℕ)) : Type 0 where
  pub mapped : IsMap t
  pub loaded : IsLoaded t
  pub met_addr : MetAddr t met

pub MetAddr-IsMet : (t : RaknetProxy) (met : List (SocketAddr × ℕ)) → MetAddr t met → IsMet t met
MetAddr-IsMet t [] h = tt
MetAddr-IsMet t ((k, id) ∷ met) h = (h.0.0, MetAddr-IsMet t met h.1)

insert-MetAddr :
    (t : RaknetProxy) (k : SocketAddr) (id : ℕ) (met : List (SocketAddr × ℕ))
    → MetAddr t met
    → MetAddr (insert_client k connected id t) met
unfolding insert_client
insert-MetAddr t k id [] h = tt
insert-MetAddr t k id (m ∷ met) h = (h.0, insert-MetAddr t k id met h.1)

insert-listed :
    (t : RaknetProxy) (k a : SocketAddr) (id : ℕ)
    → addr_eq k a ≡ false
    → get_client a (insert_client k connected id t).clients ≡ get_client a t.clients
unfolding insert_client get_client
insert-listed t k a id other = rw other refl

-- The client of `k` is there, on a server of address `b`, and nothing else has changed.
pub record Joined (t : RaknetProxy) (k b : SocketAddr) (u : RaknetProxy)
    (met : List (SocketAddr × ℕ)) : Type 0 where
  pub recovering : IsRecovering u met
  pub listed :
      (a : SocketAddr)
      → get_client a t.clients ≡ none
      → addr_eq k a ≡ false
      → get_client a u.clients ≡ none
  pub seen : (a : SocketAddr) → view u a ≡ (if addr_eq k a then some b else view t a)

module _ ⦃crate : BytesCrate⦄ (from_str : Text → Option SocketAddr) where
  -- Over the result of `meet`.
  join_met :
      (t : RaknetProxy) (k b : SocketAddr) (announced : Bool) (id : ℕ) (t1 : RaknetProxy)
      (met : List (SocketAddr × ℕ))
      → IsMap t
      → IsLoaded t
      → get_client k t.clients ≡ none
      → Meets from_str t (id, (t1, met))
      → Met b t (id, (t1, met))
      → Joined t k b (new_client usable announced k connected (some id) t1).1 met
  join_met t k b announced id t1 met mapped loaded free reached found =
      let free' : get_client k t1.clients ≡ none = ap (get_client k) found.0.clients_same ∙ free in
      let opened = ap (λ r. r.1) (asked_for announced k connected t1 free' id) in
      let r : Reaches from_str t (new_client usable announced k connected (some id) t1).1 =
        after reached.0 (recover usable announced k connected id reached.1) in
      let mapped1 = reach-IsMap from_str t t1 reached.0 mapped in
      record {
        recovering = record {
          mapped = reach-IsMap from_str t _ r mapped;
          loaded = reach-IsLoaded from_str t _ r loaded;
          met_addr = rw opened (insert-MetAddr t1 k id met found.3);
        };
        listed = λ a empty other.
            rw opened
              (insert-listed t1 k a id other ∙ ap (get_client a) found.0.clients_same ∙ empty);
        seen = λ a. rw opened (
            insert-view t1 k id a mapped1
            ∙ ap (λ v. if addr_eq k a then some v else view t1 a) found.2
            ∙ ap (λ w. if addr_eq k a then some b else w) (Same-view t t1 a found.0 mapped loaded));
      }

  -- `new_client` for a client of the snapshot, on the server that `meet` finds for it.
  abbrev pub joined_state :
      RaknetProxy → List (SocketAddr × ℕ) → SocketAddr → SocketAddr → Bool → RaknetProxy
  joined_state t met k b announced =
      let (id, (t1, met1)) = meet b t met in
      (new_client usable announced k connected (some id) t1).1

  pub join :
      (t : RaknetProxy) (met : List (SocketAddr × ℕ)) (k b : SocketAddr) (announced : Bool)
      → IsRecovering t met
      → get_client k t.clients ≡ none
      → Joined t k b (joined_state t met k b announced) (meet b t met).1.1
  join t met k b announced h free =
      let (id, (t1, met1)) = meet b t met in
      join_met t k b announced id t1 met1 h.mapped h.loaded free
        (meet-Meets from_str b t met h.loaded (MetAddr-IsMet t met h.met_addr))
        (meet-Met b t met h.loaded h.met_addr)
