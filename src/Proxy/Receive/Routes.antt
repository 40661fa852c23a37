-- ===== src/Proxy/Receive/Routes.antt =====
-- Which datagrams make `handle_recv` call `new_client`.
use mathlib.Core.Path.{subst}
use trakt.Base.{
  is_some, not, ◌&&◌, ℕ, ◌+◌, ◌≡◌, refl, inl, inr, Bool, true, false, ◌∷◌, Option, none, some,
  Option-cases, arith, if◌then◌else◌,
}
use trakt.Raknet.Bytes.{Bytes}
use trakt.Raknet.Datatypes.{SocketAddr}
use trakt.Raknet.Message.{RaknetMessage, from_u8}
use trakt.Balancer.{next}
use trakt.Proxy.Client.{handshake, is_connected}
use trakt.Proxy.Clients.{
  Socket, refused, unnamed, usable, RaknetProxy, get_client, insert_client, new_client,
}
use trakt.Proxy.Clients.Opening.{
  taken, nothing_found, one_found, unnamed_taken, unnamed_nothing, unnamed_found,
}
use trakt.Proxy.Receive.{
  Handling, dropped, establish, answer, incoming, replace, relay, dispatch, handle_recv, is_ping,
  is_request1, call_new_client,
}

-- The handling calls `new_client`, at once or when the old client is gone.
abbrev pub makes_client : Handling → Bool
makes_client establish = true
makes_client (replace i) = true
makes_client _ = false

-- The sender may get a new client: it has none, or it starts again before it was connected.
abbrev pub may_start : RaknetProxy → Option ℕ → RaknetMessage → Bool
may_start s none message = true
may_start s (some i) message = not (is_connected (s.at i).stage) && is_request1 message

abbrev pub starts : RaknetProxy → Option ℕ → Option RaknetMessage → Bool
starts s client none = false
starts s client (some message) = not (is_ping message) && may_start s client message

dispatch_lem :
    (message : Option RaknetMessage) (s : RaknetProxy) (client : Option ℕ) (rest : Bytes)
    → makes_client (dispatch message s client rest) ≡ starts s client message
unfolding dispatch
dispatch_lem none s none rest = refl
dispatch_lem none s (some i) rest = ground arith
dispatch_lem (some m) s none rest = ground arith
dispatch_lem (some m) s (some i) rest = ground arith

-- A client can be opened for the address: the map is free there, a socket of a known address is
-- bound, and the balancer finds a server.
abbrev pub can_open : Socket → SocketAddr → RaknetProxy → Bool
can_open usable addr s =
    not (is_some (get_client addr s.clients)) && is_some (next s.store s.balancer).0
can_open _ addr s = false

-- What a call of `new_client` does to the clients.
abbrev pub Makes : SocketAddr → Bool → RaknetProxy → RaknetProxy → Type 0
Makes addr made s t =
    (t.made ≡ (if made then s.made + 1 else s.made))
    × (t.clients ≡ (if made then (addr, s.made) ∷ s.clients else s.clients))

new_client-Makes :
    (bound : Socket) (announced : Bool) (addr : SocketAddr) (s : RaknetProxy)
    → Makes addr (can_open bound addr s) s (new_client bound announced addr handshake none s).1
new_client-Makes refused announced addr s = unfold new_client in (refl, refl)
new_client-Makes unnamed announced addr s = elim (Option-cases (get_client addr s.clients)) [
  | inr (i, e) ↦ rw (unnamed_taken announced addr handshake s none {there = i} e) (refl, refl)
  | inl free ↦ elim (Option-cases (next s.store s.balancer).0) [
    | inl e ↦ rw (unnamed_nothing announced addr handshake s free e) (refl, refl)
    | inr (id, e) ↦ rw (unnamed_found announced addr handshake s free id e) (refl, refl)
  ]
]
new_client-Makes usable announced addr s = elim (Option-cases (get_client addr s.clients)) [
  | inr (i, e) ↦ rw (taken announced addr handshake none s {there = i} e) (rw e (refl, refl))
  | inl free ↦ elim (Option-cases (next s.store s.balancer).0) [
    | inl e ↦ rw (nothing_found announced addr handshake s free e) (rw (free, e) (refl, refl))
    | inr (id, e) ↦
        rw (one_found announced addr handshake s free id e)
          (rw (free, e) (unfold insert_client in (refl, refl)))
  ]
]

called-Makes :
    (bound : Socket) (announced : Bool) (addr : SocketAddr) (h : Handling) (s : RaknetProxy)
    → Makes addr
        (makes_client h && can_open bound addr s)
        s
        (call_new_client bound announced addr h s)
unfolding call_new_client
called-Makes bound announced addr establish s = new_client-Makes bound announced addr s
called-Makes bound announced addr (replace i) s = new_client-Makes bound announced addr s
called-Makes bound announced addr dropped s = (refl, refl)
called-Makes bound announced addr (answer rest) s = (refl, refl)
called-Makes bound announced addr (incoming i) s = (refl, refl)
called-Makes bound announced addr (relay i) s = (refl, refl)

-- Take a datagram that is not empty, which `handle_recv` looks at in the state `s`; `t` is the state
-- in which it comes to call `new_client`, if it does. A client is made, and put into the map, exactly
-- if the id is that of a known message, but no ping, and in `s` the sender has no client, or one that
-- is not connected and begins again; and if in `t` the map is free at its address, a socket of a known
-- address is bound, and the balancer finds a server.
pub handle_recv_lem :
    (bound : Socket) (announced : Bool) (s t : RaknetProxy) (addr : SocketAddr) (b : ℕ) (bs : Bytes)
    → Makes addr
        (starts s (get_client addr s.clients) (from_u8 b) && can_open bound addr t)
        t
        (call_new_client bound announced addr (handle_recv s addr (b ∷ bs)) t)
handle_recv_lem bound announced s t addr b bs =
    let h = handle_recv s addr (b ∷ bs) in
    let route : makes_client h ≡ starts s (get_client addr s.clients) (from_u8 b) =
      unfold handle_recv in dispatch_lem (from_u8 b) s (get_client addr s.clients) bs in
    subst
      (λ c. Makes addr (c && can_open bound addr t) t (call_new_client bound announced addr h t))
      route (called-Makes bound announced addr h t)
