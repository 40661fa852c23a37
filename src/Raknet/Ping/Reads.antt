-- ===== src/Raknet/Ping/Reads.antt =====
-- The MOTD that `ping` of src/raknet/ping.rs returns.
use trakt.Base.{◌≡◌, refl, Bool, true, false, Option, none, some, if◌then◌else◌, take}
use trakt.Raknet.Bytes.{Bytes, BytesCrate}
use trakt.Raknet.Utf8.{valid}
use trakt.Raknet.Buf.{
  Buf, throw, Returns, bind-Returns, map_err-Returns, after-Returns, done-Returns, map_err,
}
use trakt.Raknet.Datatypes.Strings.{IsString, read_str-Returns}
use trakt.Raknet.Message.{up, from_u8}
use trakt.Raknet.Datatypes.{read_u8, read_i64, read_magic, read_str}
use trakt.Raknet.Message
use trakt.Raknet.Message.Offline.{MessageUnconnectedPong, deserialize_unconnected_pong}
use trakt.Raknet.Motd.{Motd, decode_payload}
use trakt.Raknet.Motd.Valid.{HasStrings}
use trakt.Raknet.Motd.RoundTrip.{IsMotd}
use trakt.Raknet.Motd.Decoded.{decode_payload-IsMotd}
use trakt.Raknet.Motd.Texts.{decode_payload-HasStrings}
use trakt.Raknet.Ping.{
  PingError, buf_error, message_error, is_pong, read_pong, or_empty_payload, read_answer,
  other_reply,
}

-- A MOTD that survives its own payload and is made of strings.
abbrev pub IsSound : Motd → Type 0
IsSound m = IsMotd m × HasStrings m

payload-Returns :
    (payload s : Bytes) (o : Option Motd)
    → valid payload ≡ true
    → decode_payload payload ≡ o
    → Returns IsSound (or_empty_payload o s)
unfolding Returns
payload-Returns payload s none h e = tt
payload-Returns payload s (some m) h e =
    (decode_payload-IsMotd payload m e, decode_payload-HasStrings payload m h e)

module _ ⦃crate : BytesCrate⦄ where
  abbrev HasText : MessageUnconnectedPong → Type 0
  HasText m = valid m.motd ≡ true

  pong-Returns : (s : Bytes) → Returns HasText (deserialize_unconnected_pong s)
  unfolding deserialize_unconnected_pong
  pong-Returns s = after-Returns HasText (up read_i64 s) _ λ timestamp t.
      after-Returns HasText (up read_i64 t) _ λ server_uuid u.
        after-Returns HasText (up read_magic u) _ λ _ v.
          bind-Returns IsString HasText (up read_str v) _
            (map_err-Returns IsString Message.buf_error (read_str v) (read_str-Returns v))
            λ motd w text. done-Returns _ HasText _ w text

  answer-Returns :
      (b : Bool) (s : Bytes)
      → Returns IsSound (if◌then◌else◌ {A = Buf PingError Motd} b read_pong (throw other_reply) s)
  unfolding read_pong Returns
  answer-Returns true s =
      bind-Returns HasText IsSound (map_err message_error (deserialize_unconnected_pong s)) _
        (map_err-Returns HasText message_error (deserialize_unconnected_pong s) (pong-Returns s))
        λ m t text. payload-Returns m.motd t (decode_payload m.motd) text refl
  answer-Returns false s = tt

  -- Whatever datagram the server sends, the MOTD that `ping` returns, if it does, survives its own
  -- payload and is made of strings.
  pub read_answer-Returns : (datagram : Bytes) → Returns IsSound (read_answer datagram)
  unfolding read_answer
  read_answer-Returns datagram =
      after-Returns IsSound (map_err buf_error (read_u8 (take 1492 datagram))) _
        λ packet_type t. answer-Returns (is_pong (from_u8 packet_type)) t
