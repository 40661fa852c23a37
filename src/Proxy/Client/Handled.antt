-- ===== src/Proxy/Client/Handled.antt =====
-- What `handle_incoming_server` leaves of a client as it is.
use trakt.Base.{◌≡◌, refl, true, ◌∷◌, []}
use trakt.Raknet.Bytes.{Bytes, BytesCrate}
use trakt.Proxy.Spy.{Spied, spied, refused, panicked, stuck, ignore, disconnect, spy_datagram}
use trakt.Proxy.Client.{
  selecting, RaknetClient, handle_incoming_server, after_spying, is_present, is_counted,
}

spied_present : (r : Spied) → is_present (after_spying r) ≡ true
spied_present (spied disconnect) = refl
spied_present (spied ignore) = refl
spied_present (refused e) = refl
spied_present panicked = refl
spied_present stuck = refl

pub handled_present :
    ⦃crate : BytesCrate⦄ (received : Bytes) (c : RaknetClient)
    → c.phase ≡ selecting
    → is_present (handle_incoming_server received c).0.phase ≡ is_present c.phase
unfolding handle_incoming_server
handled_present [] c e = refl
handled_present (b ∷ bs) c e = rw e (spied_present (spy_datagram (b ∷ bs)))

pub handled_addr :
    ⦃crate : BytesCrate⦄ (received : Bytes) (c : RaknetClient)
    → (handle_incoming_server received c).0.addr ≡ c.addr
unfolding handle_incoming_server
handled_addr [] c = refl
handled_addr (b ∷ bs) c = refl

spied_counted : (r : Spied) → is_counted (after_spying r) ≡ true
spied_counted (spied disconnect) = refl
spied_counted (spied ignore) = refl
spied_counted (refused e) = refl
spied_counted panicked = refl
spied_counted stuck = refl

pub handled_counted :
    ⦃crate : BytesCrate⦄ (received : Bytes) (c : RaknetClient)
    → c.phase ≡ selecting
    → is_counted (handle_incoming_server received c).0.phase ≡ is_counted c.phase
unfolding handle_incoming_server
handled_counted [] c e = refl
handled_counted (b ∷ bs) c e = rw e (spied_counted (spy_datagram (b ∷ bs)))

pub handled_server :
    ⦃crate : BytesCrate⦄ (received : Bytes) (c : RaknetClient)
    → (handle_incoming_server received c).0.server ≡ c.server
unfolding handle_incoming_server
handled_server [] c = refl
handled_server (b ∷ bs) c = refl
