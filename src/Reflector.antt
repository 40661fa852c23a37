-- ===== src/Reflector.antt =====
-- src/motd.rs: the MOTD of the backend, fetched again and again.
pub mod Latest
pub mod Sound
use trakt.Base.{ℕ, ◌+◌, Bool, true, Option, none, some, List, [], ◌∷◌, map}
use trakt.Config.{Text, RootConfig, unwrap_or}
use trakt.Raknet.Motd.{Motd}

-- The last successful answer. The configuration that the source keeps a pointer to is an argument of
-- `execute`, here `fetch_round`, and the permit, held all through it, makes its calls follow one another.
pub record MotdReflector : Type 0 where
  pub last_motd : Option Motd

-- `new`
abbrev pub new_reflector : MotdReflector
new_reflector = record { last_motd = none }

unfoldable pub sources : RootConfig → List Text
sources config = elim config.backend.motd_source [
  | some source ↦ source ∷ []
  | none ↦ map (λ server. server.address) config.backend.servers
]

-- The arms of the `match` on an answer; an error is only logged.
abbrev pub keep : Option Motd → MotdReflector → MotdReflector
keep none r = r
keep (some motd) r = record r { last_motd = some motd }

-- `ping k` is what `ping` returns for the source at place `k`, none for an error.
unfoldable pub fetch_all : (ℕ → Text → Option Motd) → ℕ → List Text → MotdReflector → MotdReflector
fetch_all ping k [] r = r
fetch_all ping k (source ∷ later) r = fetch_all ping (k + 1) later (keep (ping k source) r)

-- The arguments of `ping` are the place, the local address, the source and the proxy protocol.
unfoldable pub fetch_round :
    (ℕ → Text → Text → Bool → Option Motd) → RootConfig → MotdReflector → MotdReflector
unfolding fetch_all sources
fetch_round ping config r =
    let proxy_protocol = unwrap_or config.proxy_protocol true in
    fetch_all (λ k source. ping k config.proxy_bind source proxy_protocol) 0 (sources config) r
