-- ===== src/Proxy/Clients/Map.antt =====
-- The map of clients of src/proxy.rs under every step.
use trakt.Base.{
  inl, inr, Bool-cases, ℕ, ◌<◌, ◌≡◌, refl, sym, ap, ◌∙◌, Bool, true, false, List, [], ◌∷◌, Option,
  none, some, arith, if◌then◌else◌,
}
use trakt.Config.{Text}
use trakt.Raknet.Bytes.{BytesCrate}
use trakt.Raknet.Datatypes.{SocketAddr}
use trakt.Server.{addr_eq, addr_eq→eq, addr_eq_self}
use trakt.Proxy.Client.{ConnectionStage, left}
use trakt.Proxy.Client.{is_present}
use trakt.Proxy.Client.Handled.{handled_present, handled_addr}
use trakt.Proxy.Clients.{
  Socket, RaknetProxy, get_client, remove_client, insert_client, new_client, begin_task,
  remove_task, close_task, finish_task, reload_config, Step, connect, recover, stale, begin,
  datagram, send, notify, recv, timeout, remove, close, finish, register, check, reload,
}
use trakt.Proxy.Clients.Opening.{new_client-Opens}
use native.Mathlib.Decide.{dec_lt}

pub record IsMap (s : RaknetProxy) : Type 0 where
  pub listed :
      (i : ℕ)
      → i < s.made
      → is_present (s.at i).phase ≡ true
      → get_client (s.at i).addr s.clients ≡ some i
  pub present :
      (a : SocketAddr) (i : ℕ)
      → get_client a s.clients ≡ some i
      → (i < s.made) × (is_present (s.at i).phase ≡ true) × ((s.at i).addr ≡ a)

pub get_client-remove :
    (a b : SocketAddr) (clients : List (SocketAddr × ℕ))
    → get_client a (remove_client b clients) ≡ (if addr_eq b a then none else get_client a clients)
unfolding get_client remove_client
get_client-remove a b [] = ground arith
get_client-remove a b ((k, i) ∷ clients) = ground (
  arith,
  addr_eq→eq k b,
  addr_eq→eq k a,
  addr_eq→eq b a,
  addr_eq_self k,
  get_client-remove a b clients,
)

-- A step of one task that neither inserts nor removes.
keep :
    (s t : RaknetProxy)
    → t.clients ≡ s.clients
    → t.made ≡ s.made
    → ((j : ℕ) → (t.at j).addr ≡ (s.at j).addr)
    → ((j : ℕ) → is_present (t.at j).phase ≡ is_present (s.at j).phase)
    → IsMap s
    → IsMap t
keep s t c m a p inv = record {
  listed = λ i lt h. rw (a i, c) (inv.listed i (rw (sym m) lt) (sym (p i) ∙ h));
  present = λ k i e. rw (p i, a i, m) (inv.present k i (ap (get_client k) (sym c) ∙ e));
}

-- No listed client has an address that the map does not have.
other_addr :
    (s : RaknetProxy) (addr : SocketAddr) (i : ℕ)
    → IsMap s
    → get_client addr s.clients ≡ none
    → i < s.made
    → is_present (s.at i).phase ≡ true
    → addr_eq addr (s.at i).addr ≡ false
other_addr s addr i inv e lt h = elim (Bool-cases (addr_eq addr (s.at i).addr)) [
  | inl same ↦ absurd (cc (inv.listed i lt h, addr_eq→eq addr (s.at i).addr same, e))
  | inr differ ↦ differ
]

insert-IsMap :
    (s : RaknetProxy) (addr : SocketAddr) (stage : ConnectionStage) (id : ℕ)
    → get_client addr s.clients ≡ none
    → IsMap s
    → IsMap (insert_client addr stage id s)
unfolding insert_client get_client
insert-IsMap s addr stage id e inv = record {
  listed = λ i lt h. elim (dec_lt i s.made) [
    | yes old ↦ ground (arith, inv.listed i old, other_addr s addr i inv e old)
    | no new ↦ ground (arith, addr_eq_self addr)
  ];
  present = λ k i h. ground (arith, inv.present k i, addr_eq→eq addr k);
}

-- Two listed clients have different addresses.
one_each :
    (s : RaknetProxy) (i j : ℕ)
    → IsMap s
    → i < s.made
    → j < s.made
    → is_present (s.at i).phase ≡ true
    → is_present (s.at j).phase ≡ true
    → (s.at i).addr ≡ (s.at j).addr
    → i ≡ j
one_each s i j inv lti ltj pi pj e = cc (inv.listed i lti pi, inv.listed j ltj pj, e)

remove-IsMap :
    (s : RaknetProxy) (i : ℕ)
    → i < s.made
    → (s.at i).phase ≡ left
    → IsMap s
    → IsMap (remove_task i s)
unfolding remove_task
remove-IsMap s i lt e inv = record {
  listed = λ j lt' h. ground (
    arith,
    get_client-remove (s.at j).addr (s.at i).addr s.clients,
    inv.listed j lt',
    addr_eq→eq (s.at i).addr (s.at j).addr,
    one_each s i j inv lt lt' (rw e refl),
  );
  present = λ k j e'.
      ground (arith, get_client-remove k (s.at i).addr s.clients, inv.present k j, addr_eq_self k);
}

new_client-IsMap :
    (bound : Socket) (announced : Bool) (addr : SocketAddr) (stage : ConnectionStage)
    (server : Option ℕ) (s : RaknetProxy)
    → IsMap s
    → IsMap (new_client bound announced addr stage server s).1
new_client-IsMap bound announced addr stage server s inv =
    let (b, same, out) = new_client-Opens bound announced addr stage server s in
    elim out [
      | inl e ↦ rw e (keep s _ refl refl (λ j. refl) (λ j. refl) inv)
      | inr (id, free, given, e) ↦
          let u : RaknetProxy = record s { balancer = b } in
          rw e (insert-IsMap u addr stage id free (keep s u refl refl (λ j. refl) (λ j. refl) inv))
    ]

module _ ⦃crate : BytesCrate⦄ (from_str : Text → Option SocketAddr) where
  pub step-IsMap : (s t : RaknetProxy) → Step from_str s t → IsMap s → IsMap t
  step-IsMap s t (connect bound announced addr stage) inv =
      new_client-IsMap bound announced addr stage none s inv
  step-IsMap s t (recover bound announced addr stage id old) inv =
      new_client-IsMap bound announced addr stage (some id) s inv
  step-IsMap s t (stale addr) inv = keep s _ refl refl (λ j. refl) (λ j. refl) inv
  step-IsMap s t (begin i lt e) inv =
      unfold begin_task in keep s _ refl refl (λ j. ground arith) (λ j. ground arith) inv
  step-IsMap s t (datagram i received lt e) inv =
      keep s _ refl refl (λ j. ground (arith, handled_addr received (s.at i)))
        (λ j. ground (arith, handled_present received (s.at i) e)) inv
  step-IsMap s t (send i lt e empty) inv =
      keep s _ refl refl (λ j. ground arith) (λ j. ground arith) inv
  step-IsMap s t (notify i cause lt alive empty) inv =
      keep s _ refl refl (λ j. ground arith) (λ j. ground arith) inv
  step-IsMap s t (recv i cause causes lt e full) inv =
      keep s _ refl refl (λ j. ground arith) (λ j. ground arith) inv
  step-IsMap s t (timeout i lt e) inv =
      keep s _ refl refl (λ j. ground arith) (λ j. ground arith) inv
  step-IsMap s t (remove i lt e) inv = remove-IsMap s i lt e inv
  step-IsMap s t (close i lt e) inv =
      unfold close_task in keep s _ refl refl (λ j. ground arith) (λ j. ground arith) inv
  step-IsMap s t (finish i lt e) inv =
      unfold finish_task in keep s _ refl refl (λ j. ground arith) (λ j. ground arith) inv
  step-IsMap s t (register id) inv = keep s _ refl refl (λ j. refl) (λ j. refl) inv
  step-IsMap s t (check success id) inv = keep s _ refl refl (λ j. refl) (λ j. refl) inv
  step-IsMap s t (reload config) inv =
      unfold reload_config in keep s _ refl refl (λ j. refl) (λ j. refl) inv
