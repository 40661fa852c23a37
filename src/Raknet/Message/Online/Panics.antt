-- ===== src/Raknet/Message/Online/Panics.antt =====
-- The readers of src/raknet/message/online.rs on any buffer.
use native.Mathlib.Decide.{dec_lt}
use trakt.Base.{ℕ, ◌<◌, ◌≤◌, ◌≡◌, refl, ◌↔◌, length, arith}
use trakt.Raknet.Bytes.{Bytes, BytesCrate}
use trakt.Raknet.Buf.{Buf, Outcome, done, fail, panic, bind, ◌>>=◌, return, map_err, or_panic}
use trakt.Raknet.Datatypes.{SocketAddr, BufError, read_bool, read_i64, read_address}
use trakt.Raknet.Datatypes.Guards.{Takes, bind-Takes}
use trakt.Raknet.Datatypes.Safety.{
  read_bool-Takes, read_i64-Takes, read_address-Takes, advance_length,
}
use trakt.Raknet.Message.{MessageError, buf_error, up, up-Takes}
use trakt.Raknet.Message.Online.{
  MessageConnectionRequestAccepted, skip_all, deserialize_connected_ping,
  deserialize_connected_pong, deserialize_connection_request,
  deserialize_connection_request_accepted, deserialize_new_incoming_connection,
}
use trakt.Raknet.Message.Online.Skip.{skip_all_loop}

Takes-ne-panic : {E A : Type 0} (n : ℕ) (s : Bytes) (o : Outcome E A) → Takes n s o → ¬ (o ≡ panic)
Takes-ne-panic n s (done a t) h e = cc
Takes-ne-panic n s (fail x) h e = cc
Takes-ne-panic n s panic h e = h

module _ ⦃crate : BytesCrate⦄ where
  connected_ping-Takes : (s : Bytes) → Takes 8 s (deserialize_connected_ping s)
  unfolding deserialize_connected_ping
  connected_ping-Takes s =
      up-Takes 8 0 8 s read_i64 _ (omega arith) (read_i64-Takes s) λ _ t. omega arith

  connected_pong-Takes : (s : Bytes) → Takes 16 s (deserialize_connected_pong s)
  unfolding deserialize_connected_pong
  connected_pong-Takes s =
      up-Takes 8 8 16 s read_i64 _ (omega arith) (read_i64-Takes s)
        λ _ t. up-Takes 8 0 8 t read_i64 _ (omega arith) (read_i64-Takes t) λ _ u. omega arith

  connection_request-Takes : (s : Bytes) → Takes 17 s (deserialize_connection_request s)
  unfolding deserialize_connection_request
  connection_request-Takes s = up-Takes 8 9 17 s read_i64 _ (omega arith) (read_i64-Takes s) λ _ t.
      up-Takes 8 1 9 t read_i64 _ (omega arith) (read_i64-Takes t)
        λ _ u. up-Takes 1 0 1 u read_bool _ (omega arith) (read_bool-Takes u) λ _ v. omega arith

  -- What both long messages end with.
  times-Takes :
      {A : Type 0} (make : ℕ → ℕ → A) (s : Bytes)
      → Takes 23 s (
          bind
            (skip_all s)
            λ _. do request ← up read_i64; accept ← up read_i64; return (make request accept))
  times-Takes make s = bind-Takes 7 16 23 s (skip_all s) _ (omega arith) (skip_all_loop s).0 λ _ t.
      up-Takes 8 8 16 t read_i64 _ (omega arith) (read_i64-Takes t)
        λ _ u. up-Takes 8 0 8 u read_i64 _ (omega arith) (read_i64-Takes u) λ _ v. omega arith

  new_incoming_connection-Takes : (s : Bytes) → Takes 30 s (deserialize_new_incoming_connection s)
  unfolding deserialize_new_incoming_connection
  new_incoming_connection-Takes s =
      up-Takes 7 23 30 s read_address _ (omega arith) (read_address-Takes s) λ a t.
        times-Takes
          (λ q r. record { server_address = a; request_timestamp = q; accept_timestamp = r }) t

  -- An address is there, and less than the system index behind it.
  abbrev pub CutBehind : Bytes → Type 0
  CutBehind s = (a : SocketAddr) × (t : Bytes) × (read_address s ≡ done a t) × (length t < 2)

  open crate use {advance, advance_short}

  accepted : SocketAddr → ℕ → ℕ → MessageConnectionRequestAccepted
  accepted a request accept = record {
    client_address = a;
    request_timestamp = request;
    accept_timestamp = accept;
  }

  -- Behind the address.
  behind : SocketAddr → Buf MessageError MessageConnectionRequestAccepted
  behind a t = bind (or_panic (advance 2 t)) λ _ u.
      bind (skip_all u)
        λ _. do request ← up read_i64; accept ← up read_i64; return (accepted a request accept)

  behind_short : (a : SocketAddr) (t : Bytes) → length t < 2 → behind a t ≡ panic
  unfolding behind
  behind_short a t short = rw (advance_short 2 t short) refl

  behind_enough : (a : SocketAddr) (t : Bytes) → 2 ≤ length t → ¬ (behind a t ≡ panic)
  unfolding behind
  behind_enough a t enough =
      let (u, e, l) = advance_length 2 t enough in
      rw e (Takes-ne-panic 23 u _ (times-Takes (accepted a) u))

  behind_iff :
      (o : Outcome BufError SocketAddr)
      → ¬ (o ≡ panic)
      → (bind (map_err buf_error o) behind ≡ panic)
        ↔ ((a : SocketAddr) × (t : Bytes) × (o ≡ done a t) × (length t < 2))
  behind_iff (done a t) h = elim (dec_lt (length t) 2) [
    | yes short ↦ (λ e. (a, t, refl, short), λ found. behind_short a t short)
    | no enough ↦ (
      λ e. absurd (behind_enough a t (omega arith) e),
      λ (b, u, e, short). absurd (let same : t ≡ u = cc e in enough (rw same short)),
    )
  ]
  behind_iff (fail x) h = (λ e. absurd (cc e), λ (b, u, e, short). absurd (cc e))
  behind_iff panic h = absurd (h refl)

  accepted_iff : (s : Bytes) → (deserialize_connection_request_accepted s ≡ panic) ↔ CutBehind s
  unfolding deserialize_connection_request_accepted
  accepted_iff s =
      unfold behind accepted in
      behind_iff (read_address s) (Takes-ne-panic 7 s _ (read_address-Takes s))

  -- Whatever bytes arrive, the readers of four of the online messages do not panic, and one that
  -- succeeds has taken at least the bytes that every such message has. That of
  -- `ConnectionRequestAccepted` panics exactly if the message has an address and then fewer than two
  -- bytes.
  pub online_panics :
      (s : Bytes)
      → Takes 8 s (deserialize_connected_ping s)
        × Takes 16 s (deserialize_connected_pong s)
        × Takes 17 s (deserialize_connection_request s)
        × Takes 30 s (deserialize_new_incoming_connection s)
        × ((deserialize_connection_request_accepted s ≡ panic) ↔ CutBehind s)
  online_panics s = (
    connected_ping-Takes s,
    connected_pong-Takes s,
    connection_request-Takes s,
    new_incoming_connection-Takes s,
    accepted_iff s,
  )
