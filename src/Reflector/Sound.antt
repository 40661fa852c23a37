-- ===== src/Reflector/Sound.antt =====
-- The MOTD that src/motd.rs keeps, out of the datagrams that the servers send.
use trakt.Base.{ℕ, ◌+◌, Option, none, some, List, [], ◌∷◌}
use trakt.Config.{Text, RootConfig}
use trakt.Raknet.Bytes.{Bytes, BytesCrate}
use trakt.Raknet.Buf.{Outcome, done, fail, panic, Returns}
use trakt.Raknet.Motd.{Motd}
use trakt.Raknet.Ping.{PingError, read_answer}
use trakt.Raknet.Ping.Reads.{IsSound, read_answer-Returns}
use trakt.Reflector.{MotdReflector, keep, sources, fetch_all, fetch_round}

abbrev ok_of : Outcome PingError Motd → Option Motd
ok_of (done motd rest) = some motd
ok_of (fail e) = none
ok_of panic = none

-- A MOTD, if there is one, survives its own payload and is made of strings.
abbrev pub AllSound : Option Motd → Type 0
AllSound none = Unit
AllSound (some motd) = IsSound motd

ok_of-AllSound : (o : Outcome PingError Motd) → Returns IsSound o → AllSound (ok_of o)
unfolding Returns
ok_of-AllSound (done motd rest) h = h
ok_of-AllSound (fail e) h = tt
ok_of-AllSound panic h = tt

keep-AllSound :
    (o : Option Motd) (r : MotdReflector)
    → AllSound o
    → AllSound r.last_motd
    → AllSound (keep o r).last_motd
keep-AllSound none r ho hr = hr
keep-AllSound (some motd) r ho hr = ho

fetch_all-AllSound :
    (ping : ℕ → Text → Option Motd) (k : ℕ) (later : List Text) (r : MotdReflector)
    → ((j : ℕ) (source : Text) → AllSound (ping j source))
    → AllSound r.last_motd
    → AllSound (fetch_all ping k later r).last_motd
unfolding fetch_all
fetch_all-AllSound ping k [] r h hr = hr
fetch_all-AllSound ping k (source ∷ later) r h hr =
    fetch_all-AllSound ping (k + 1) later (keep (ping k source) r) h
      (keep-AllSound (ping k source) r (h k source) hr)

module _ ⦃crate : BytesCrate⦄ where
  -- What `ping` makes of a datagram, none for a timeout or an error of the socket.
  abbrev pub answer_of : Option Bytes → Option Motd
  answer_of none = none
  answer_of (some datagram) = ok_of (read_answer datagram)

  answer_of-AllSound : (datagram : Option Bytes) → AllSound (answer_of datagram)
  answer_of-AllSound none = tt
  answer_of-AllSound (some datagram) =
      ok_of-AllSound (read_answer datagram) (read_answer-Returns datagram)

  -- Whatever datagrams the servers send in a round, or send not, the MOTD that the reflector holds
  -- goes on being one that survives its own payload and is made of strings.
  pub fetch_round-AllSound :
      (datagrams : ℕ → Text → Option Bytes) (config : RootConfig) (r : MotdReflector)
      → AllSound r.last_motd
      → AllSound (fetch_round (λ k _ source _. answer_of (datagrams k source)) config r).last_motd
  unfolding fetch_round
  fetch_round-AllSound datagrams config r h =
      fetch_all-AllSound _ 0 (sources config) r
        (λ k source. answer_of-AllSound (datagrams k source)) h
