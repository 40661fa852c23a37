-- ===== src/Proxy/Clients/Reach.antt =====
-- The states of the proxy that steps lead to from one with no clients and no load.
use trakt.Base.{
  Option-cases, inl, inr, ℕ, ◌<◌, ◌≡◌, refl, sym, ap, ◌∙◌, ◌↔◌, true, [], Option, none, some, arith,
}
use trakt.Config.{Text}
use trakt.Raknet.Bytes.{BytesCrate}
use trakt.Raknet.Datatypes.{SocketAddr}
use trakt.Balancer.Reload.Search.{Allocated}
use trakt.Proxy.Client.{finished, notified, is_present}
use trakt.Proxy.Clients.{RaknetProxy, get_client, Reaches, stay, after}
use trakt.Proxy.Clients.Counts.{count_upto, count_upto-none, count_upto-pos}
use trakt.Proxy.Clients.Map.{IsMap, step-IsMap}
use trakt.Proxy.Clients.Loads.{IsLoaded, works_on, step-IsLoaded}

-- Before the first datagram: no client was made, and the servers of the balancer carry no load.
pub record IsStart (s : RaknetProxy) : Type 0 where
  pub unmade : s.made ≡ 0
  pub empty : s.clients ≡ []
  pub given_out : Allocated s.store s.balancer.servers
  pub unloaded : (id : ℕ) → id < s.store.fresh → (s.store.at id).load ≡ 0

pub start-IsMap : (s : RaknetProxy) → IsStart s → IsMap s
start-IsMap s h = record {
  listed = λ i lt p. absurd (omega (arith, h.unmade));
  present = λ a i e. absurd (unfold get_client in cc (ap (get_client a) (sym h.empty) ∙ e));
}

pub start-IsLoaded : (s : RaknetProxy) → IsStart s → IsLoaded s
start-IsLoaded s h = record {
  allocated = h.given_out;
  assigned = λ j lt. absurd (omega (arith, h.unmade));
  loads = λ id lt.
      h.unloaded id lt
      ∙ sym (count_upto-none (works_on s id) s.made (λ j lt'. absurd (omega (arith, h.unmade))));
}

module _ ⦃crate : BytesCrate⦄ (from_str : Text → Option SocketAddr) where
  pub Reaches-trans :
      (s t u : RaknetProxy) → Reaches from_str s t → Reaches from_str t u → Reaches from_str s u
  Reaches-trans s t u r stay = r
  Reaches-trans s t u r (after {t = v} r' step) = after (Reaches-trans s t v r r') step

  pub reach-IsMap : (s t : RaknetProxy) → Reaches from_str s t → IsMap s → IsMap t
  reach-IsMap s t stay h = h
  reach-IsMap s t (after {t = u} r step) h = step-IsMap from_str u t step (reach-IsMap s u r h)

  pub reach-IsLoaded : (s t : RaknetProxy) → Reaches from_str s t → IsLoaded s → IsLoaded t
  reach-IsLoaded s t stay h = h
  reach-IsLoaded s t (after {t = u} r step) h =
      step-IsLoaded from_str u t step (reach-IsLoaded s u r h)

  -- In every state that the proxy comes to from a start with no clients and no load, the map finds
  -- a client for an address exactly if it is a client of that address whose task has not yet taken
  -- it out.
  pub get_client_iff :
      (s t : RaknetProxy)
      → IsStart s
      → Reaches from_str s t
      → (a : SocketAddr) (i : ℕ)
      → (get_client a t.clients ≡ some i)
        ↔ ((i < t.made) × (is_present (t.at i).phase ≡ true) × ((t.at i).addr ≡ a))
  get_client_iff s t start r a i =
      let inv = reach-IsMap s t r (start-IsMap s start) in
      (inv.present a i, λ (lt, p, e). ap (λ x. get_client x t.clients) (sym e) ∙ inv.listed i lt p)

  -- In every state that the proxy comes to from a start with no clients and no load, by steps of
  -- its tasks in any order, the load of every server is the number of client tasks on it that have
  -- raised it and not yet lowered it.
  pub load_counts :
      (s t : RaknetProxy)
      → IsStart s
      → Reaches from_str s t
      → (id : ℕ) → id < t.store.fresh
      → (t.store.at id).load ≡ count_upto (works_on t id) t.made
  load_counts s t start r id lt = (reach-IsLoaded s t r (start-IsLoaded s start)).loads id lt

  -- In every state that the proxy comes to from a start with no clients and no load, a client task
  -- that is about to call `fetch_sub` finds a load of at least one, so that the counter does not
  -- wrap around.
  fetch_sub_positive :
      (s t : RaknetProxy)
      → IsStart s
      → Reaches from_str s t
      → (i : ℕ) → i < t.made
      → (t.at i).phase ≡ notified
      → 0 < (t.store.at (t.at i).server).load
  fetch_sub_positive s t start r i lt e =
      let inv = reach-IsLoaded s t r (start-IsLoaded s start) in
      let counted = count_upto-pos (works_on t (t.at i).server) i t.made lt (ground arith) in
      omega (arith, inv.loads (t.at i).server (inv.assigned i lt))

  -- If every client task has ended, in a state that the proxy comes to from a start with no
  -- clients and no load, then all loads are back at zero and the map is empty.
  all_finished :
      (s t : RaknetProxy)
      → IsStart s
      → Reaches from_str s t
      → ((i : ℕ) → i < t.made → (t.at i).phase ≡ finished)
      → (id : ℕ) → id < t.store.fresh
      → (a : SocketAddr) → ((t.store.at id).load ≡ 0) × (get_client a t.clients ≡ none)
  all_finished s t start r h id lt a = (
    load_counts s t start r id lt
        ∙ count_upto-none (works_on t id) t.made (λ j lt'. rw (h j lt') refl),
    elim (Option-cases (get_client a t.clients)) [
      | inl e ↦ e
      | inr (i, e) ↦
          let (lt', p, at_a) = (get_client_iff s t start r a i).0 e in
          absurd (ground (arith, h i lt'))
    ],
  )
