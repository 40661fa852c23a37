-- ===== src/Health.antt =====
-- src/health.rs: the health checks of the backend servers.
pub mod Check
pub mod Rounds
use trakt.Base.{ℕ, ◌+◌, Bool, true, false, ◌&&◌, List, [], ◌∷◌, ◌++◌, ltb, if◌then◌else◌}
use trakt.Server.{ServerHealth, Store, write}

-- What `check_health` makes of the answer to its ping.
unfoldable pub update_health : Bool → ServerHealth → ServerHealth
update_health success health =
    if success
    then record health { failed_attempts = 0; alive = true; ever_alive = true }
    else (let failed_attempts = health.failed_attempts + 1 in
        record health {
          failed_attempts = failed_attempts;
          alive = health.ever_alive && ltb failed_attempts 3;
        })

-- The message that `check_health` logs, if any.
pub data HealthLog : Type 0 where
  now_alive seems_unreachable unchanged : HealthLog

unfoldable pub health_log : Bool → Bool → HealthLog
health_log true true = unchanged
health_log false false = unchanged
health_log false true = now_alive
health_log true false = seems_unreachable

-- The server is numbered `id`, and `success` is whether it answered the ping in time.
unfoldable pub check_health : Bool → ℕ → Store → Store × HealthLog
unfolding update_health health_log
check_health success id store =
    let server = store.at id in
    let health = update_health success server.health in
    (
      write store id (record server { health = health }),
      health_log server.health.alive health.alive,
    )

-- `register_server`: the list of the controller holds weak references.
unfoldable pub register_server : ℕ → List ℕ → List ℕ
register_server id servers = servers ++ (id ∷ [])

-- The checks that `execute` spawns, for the servers of a list: each has its own ping, and they end in
-- any order. `rounds` is the order in which they end, each with its answer, and the store is what it
-- is when all of them have been joined.
pub data JoinAll : List ℕ → List (ℕ × Bool) → Store → Store → Type 0 where
  all_joined : {s : Store} → JoinAll [] [] s s
  join_next :
      {s t : Store} {rounds : List (ℕ × Bool)} (before after : List ℕ) (id : ℕ) (success : Bool)
      → JoinAll (before ++ after) rounds (check_health success id s).0 t
      → JoinAll (before ++ (id ∷ after)) ((id, success) ∷ rounds) s t

-- `upgrade` succeeds on a server that someone still holds. The stale servers leave the list, and each
-- one that is left is pinged.
module _ (held : ℕ → Bool) where
  unfoldable pub retain_held : List ℕ → List ℕ
  retain_held [] = []
  retain_held (id ∷ ids) = if held id then id ∷ retain_held ids else retain_held ids

  -- From the list of the controller and the store to both behind the round.
  pub data Execute (servers : List ℕ) (s : Store) : List (ℕ × Bool) → List ℕ → Store → Type 0 where
    executed :
        {rounds : List (ℕ × Bool)} {t : Store}
        → JoinAll (retain_held servers) rounds s t
        → Execute servers s rounds (retain_held servers) t
