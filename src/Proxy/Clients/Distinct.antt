-- ===== src/Proxy/Clients/Distinct.antt =====
-- The map of clients of src/proxy.rs has one entry for an address, under every step.
use trakt.Base.{
  ℕ, ◌≡◌, refl, inl, inr, Bool, Bool-cases, List, [], ◌∷◌, Option, none, some, arith, All,
}
use trakt.Config.{Text}
use trakt.Raknet.Bytes.{BytesCrate}
use trakt.Raknet.Datatypes.{SocketAddr}
use trakt.Server.{addr_eq, addr_eq→eq, addr_eq_self}
use trakt.Proxy.Client.{ConnectionStage}
use trakt.Proxy.Clients.{
  Socket, RaknetProxy, get_client, remove_client, insert_client, new_client, begin_task,
  remove_task, close_task, finish_task, reload_config, Step, connect, recover, stale, begin,
  datagram, send, notify, recv, timeout, remove, close, finish, register, check, reload, Reaches,
  stay, after,
}
use trakt.Proxy.Clients.Opening.{new_client-Opens}
use trakt.Proxy.Clients.Map.{get_client-remove}

abbrev pub Distinct : List (SocketAddr × ℕ) → Type 0
Distinct [] = Unit
Distinct ((a, i) ∷ clients) = (get_client a clients ≡ none) × Distinct clients

remove-Distinct :
    (b : SocketAddr) (clients : List (SocketAddr × ℕ))
    → Distinct clients
    → Distinct (remove_client b clients)
unfolding remove_client
remove-Distinct b [] h = tt
remove-Distinct b ((a, i) ∷ clients) h = elim (Bool-cases (addr_eq a b)) [
  | inl same ↦ rw same (remove-Distinct b clients h.1)
  | inr other ↦
      rw other (ground (arith, get_client-remove a b clients, h.0), remove-Distinct b clients h.1)
]

new_client-Distinct :
    (bound : Socket) (announced : Bool) (addr : SocketAddr) (stage : ConnectionStage)
    (server : Option ℕ) (s : RaknetProxy)
    → Distinct s.clients
    → Distinct (new_client bound announced addr stage server s).1.clients
unfolding insert_client
new_client-Distinct bound announced addr stage server s h =
    let (b, same, out) = new_client-Opens bound announced addr stage server s in
    elim out [ inl e ↦ rw e h | inr (id, free, given, e) ↦ rw e (free, h) ]

module _ ⦃crate : BytesCrate⦄ (from_str : Text → Option SocketAddr) where
  step-Distinct : (s t : RaknetProxy) → Step from_str s t → Distinct s.clients → Distinct t.clients
  unfolding begin_task remove_task close_task finish_task reload_config
  step-Distinct s t (connect bound announced addr stage) h =
      new_client-Distinct bound announced addr stage none s h
  step-Distinct s t (recover bound announced addr stage id old) h =
      new_client-Distinct bound announced addr stage (some id) s h
  step-Distinct s t (remove i lt e) h = remove-Distinct (s.at i).addr s.clients h
  step-Distinct s t (stale addr) h = h
  step-Distinct s t (begin i lt e) h = h
  step-Distinct s t (datagram i received lt e) h = h
  step-Distinct s t (send i lt e empty) h = h
  step-Distinct s t (notify i cause lt alive empty) h = h
  step-Distinct s t (recv i cause causes lt e full) h = h
  step-Distinct s t (timeout i lt e) h = h
  step-Distinct s t (close i lt e) h = h
  step-Distinct s t (finish i lt e) h = h
  step-Distinct s t (register id) h = h
  step-Distinct s t (check success id) h = h
  step-Distinct s t (reload config) h = h

  pub reach-Distinct :
      (s t : RaknetProxy) → Reaches from_str s t → Distinct s.clients → Distinct t.clients
  reach-Distinct s t stay h = h
  reach-Distinct s t (after {t = u} r step) h = step-Distinct u t step (reach-Distinct s u r h)

-- An entry of the list is what the map finds.
abbrev pub Found : List (SocketAddr × ℕ) → SocketAddr × ℕ → Type 0
Found clients e = get_client e.0 clients ≡ some e.1

behind-Found :
    (a : SocketAddr) (i : ℕ) (clients entries : List (SocketAddr × ℕ))
    → get_client a clients ≡ none
    → All (Found clients) entries
    → All (Found ((a, i) ∷ clients)) entries
unfolding get_client
behind-Found a i clients [] free h = tt
behind-Found a i clients ((b, j) ∷ entries) free h =
    (ground (arith, h.0, free, addr_eq→eq a b), behind-Found a i clients entries free h.1)

pub All-Found : (clients : List (SocketAddr × ℕ)) → Distinct clients → All (Found clients) clients
unfolding get_client
All-Found [] h = tt
All-Found ((a, i) ∷ clients) h =
    (rw (addr_eq_self a) refl, behind-Found a i clients clients h.0 (All-Found clients h.1))
