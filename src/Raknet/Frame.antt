-- ===== src/Raknet/Frame.antt =====
-- src/raknet/frame.rs: the frames of a connected datagram.
pub mod RoundTrip
pub mod Panics
pub mod Exact
pub mod Cut
use Prim.Native.Nat.{bit_and, bit_or}
use trakt.Base.{
  is_some, ℕ, ◌*◌, ◌/◌, ◌%◌, ◌^◌, Bool, true, false, not, Option, none, some, length, ◌==◌,
  if◌then◌else◌,
}
use trakt.Raknet.Bytes.{Bytes, BytesCrate}
use trakt.Raknet.Buf.{Buf, done, fail, bind, or_panic, ◌>>=◌, ◌>>◌, return, ensure}
use trakt.Raknet.Datatypes.{
  read_u8, read_u16, read_u24, read_u32, read_bytes, write_u8, write_u16, write_u24, write_u32,
}
use trakt.Raknet.Message.{Message, MessageError, zero_size, unknown_realibility, up}

abbrev flag_fragmented : ℕ
flag_fragmented = 0x10

pub data Reliability : Type 0 where
  unreliable unreliable_sequenced reliable reliable_ordered reliable_sequenced : Reliability

unfoldable pub is_reliable : Reliability → Bool
is_reliable reliable = true
is_reliable reliable_ordered = true
is_reliable reliable_sequenced = true
is_reliable _ = false

unfoldable pub is_ordered : Reliability → Bool
is_ordered unreliable_sequenced = true
is_ordered reliable_ordered = true
is_ordered reliable_sequenced = true
is_ordered _ = false

unfoldable pub is_sequenced : Reliability → Bool
is_sequenced unreliable_sequenced = true
is_sequenced reliable_sequenced = true
is_sequenced _ = false

unfoldable pub from_u8 : ℕ → Option Reliability
from_u8 value =
    if value == 0x00
    then some unreliable
    else if value == 0x01
    then some unreliable_sequenced
    else if value == 0x02
    then some reliable
    else if value == 0x03
    then some reliable_ordered
    else if value == 0x04
    then some reliable_sequenced
    else none

unfoldable pub to_u8 : Reliability → ℕ
to_u8 unreliable = 0x00
to_u8 unreliable_sequenced = 0x01
to_u8 reliable = 0x02
to_u8 reliable_ordered = 0x03
to_u8 reliable_sequenced = 0x04

pub record FrameFragment : Type 0 where
  pub count : ℕ
  pub index : ℕ
  pub id : ℕ

pub record Frame : Type 0 where
  pub reliability : Reliability
  pub frame_idx : ℕ
  pub seq : ℕ
  pub order_idx : ℕ
  pub fragment : Option FrameFragment
  pub body : Bytes

-- `reliability.to_u8() << 5`, a byte, with the flag or'ed in.
unfoldable pub header_of : Reliability → Bool → ℕ
unfolding to_u8
header_of r fragmented =
    let header = to_u8 r * 2 ^ 5 % 256 in
    if fragmented then bit_or header flag_fragmented else header

-- `.ok_or(e)?`
abbrev pub ok_or : {E A : Type 0} → Option A → E → Buf E A
ok_or none e s = fail e
ok_or (some a) e s = done a s

module _ ⦃crate : BytesCrate⦄ where
  open crate use {extend_from_slice, advance}

  unfoldable pub write_fragment : Option FrameFragment → Buf MessageError (Unit {0})
  write_fragment none = return tt
  write_fragment (some fragment) = do
    up (write_u32 fragment.count)
    up (write_u16 fragment.id)
    up (write_u32 fragment.index)

  -- `(self.body.len() << 3) as u16` keeps the low 16 bits.
  unfoldable pub serialize_frame : Frame → Buf MessageError (Unit {0})
  unfolding header_of is_reliable is_sequenced is_ordered write_fragment
  serialize_frame f = do
    up (write_u8 (header_of f.reliability (is_some f.fragment)))
    up (write_u16 (length f.body * 2 ^ 3 % 2 ^ 16))
    if is_reliable f.reliability then up (write_u24 f.frame_idx) else return tt
    if is_sequenced f.reliability then up (write_u24 f.seq) else return tt
    if is_ordered f.reliability then (up (write_u24 f.order_idx) >> up (write_u8 0)) else return tt
    write_fragment f.fragment
    λ s. done tt (extend_from_slice s f.body)

  -- The order channel is skipped by `advance`, with no guard.
  unfoldable pub read_order : Buf MessageError ℕ
  read_order = do order_idx ← up read_u24; λ s. or_panic (advance 1 s); return order_idx

  unfoldable pub read_fragment : Buf MessageError (Option FrameFragment)
  read_fragment = do
    count ← up read_u32
    id ← up read_u16
    index ← up read_u32
    return (some (record { count = count; index = index; id = id }))

  -- What follows the header and the length: the indices that are there, the fragment, the body.
  unfoldable pub read_fields : Reliability → Bool → ℕ → Buf MessageError Frame
  unfolding is_reliable is_sequenced is_ordered read_order read_fragment
  read_fields reliability fragmented body_len = do
    frame_idx ← (if is_reliable reliability then up read_u24 else return 0)
    seq ← (if is_sequenced reliability then up read_u24 else return 0)
    order_idx ← (if is_ordered reliability then read_order else return 0)
    fragment ← (if fragmented then read_fragment else return none)
    body ← up (read_bytes body_len)
    return (record {
      reliability = reliability;
      frame_idx = frame_idx;
      seq = seq;
      order_idx = order_idx;
      fragment = fragment;
      body = body;
    })

  unfoldable pub deserialize_frame : Buf MessageError Frame
  unfolding from_u8 read_fields
  deserialize_frame = do
    header ← up read_u8
    let fragmented = not (bit_and header flag_fragmented == 0)
    let reliability_id = bit_and header 224 / 2 ^ 5
    reliability ← ok_or (from_u8 reliability_id) (unknown_realibility reliability_id)
    len ← up read_u16
    let body_len = len / 2 ^ 3
    ensure (not (body_len == 0)) zero_size
    read_fields reliability fragmented body_len

  instance abbrev pub frame_message : Message Frame
  frame_message = record { serialize = serialize_frame; deserialize = deserialize_frame }
