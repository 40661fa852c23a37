-- ===== src/Entry/Shutdown.antt =====
-- The requests for a shutdown, in src/main.rs.
use trakt.Base.{ℕ, zero, suc, ◌≤◌, ◌≡◌}
use trakt.Entry.{Loop, saving, exited}

-- The number of requests that fits where the loop is: a request from which the loop came back had a
-- snapshot that could not be written, and the third request exits at once.
abbrev pub Fits : Loop → ℕ → Type 0
Fits saving n = (1 ≤ n) × (n ≤ 2)
Fits (exited zero) n = (1 ≤ n) × (n ≤ 2)
Fits (exited (suc zero)) n = n ≡ 3
Fits (exited (suc (suc code))) n = ⊥
Fits _ n = n ≤ 2
