-- ===== src/Recovery/Lease.antt =====
-- `ExecutionLeaderLease` and `ValidatedExecutionLeaderLease`: the PostgreSQL session that holds the
-- advisory lock of the one execution owner. What the database answers is given by the environment.
use astra_froge.Common.{
  ℕ, String, Bool, true, false, not, ◌||◌, Option, none, some, if◌then◌else◌, Result, ok, err,
  leader_lost, storage_error, ◌≡◌,
}
use astra_froge.Recovery.Gate.{Gate, fail}

-- A call into the driver: it answers, or raises.
pub data Answer : Type 0 where
  answered : Bool → Answer
  raised : Answer

-- A dedicated session: `closed or invalidated`, and what the query of `pg_locks` answers on it.
pub record Connection : Type 0 where
  pub closed : Bool
  pub invalidated : Bool
  pub owns_lock : Answer

-- What `acquire` meets: the persistence and its dialect, the session that it opens, and what
-- `pg_try_advisory_lock` answers there.
pub record AcquireContext : Type 0 where
  pub has_persistence : Bool
  pub is_postgresql : Bool
  pub session : Connection
  pub try_lock : Answer

-- The lease's one field, `_connection`.
abbrev pub Lease : Type 0
Lease = Option Connection

-- `_discard_lost_connection`; closing the session never raises here.
unfoldable pub discard_lost_connection : Lease → Lease
discard_lost_connection lease = none

-- `require_valid`: the error that it raises, if any, and the lease after it.
unfoldable pub require_valid : Lease → Result (Unit {0}) × Lease
unfolding discard_lost_connection
require_valid none = (err (leader_lost "Execution leader is not acquired"), none)
require_valid (some c) =
    if c.closed || c.invalidated
    then (
      err (leader_lost "Execution leader database session is unavailable"),
      discard_lost_connection (some c),
    )
    else elim c.owns_lock [
      | raised ↦ (
        err (leader_lost "Execution leader database session validation failed"),
        discard_lost_connection (some c),
      )
      | answered owned ↦
          if not owned
          then (
            err (leader_lost "Execution advisory-lock ownership was lost"),
            discard_lost_connection (some c),
          )
          else (ok tt, some c)
    ]

-- `ExecutionLeaderLease.acquire`; on a failure the session that was opened is closed again.
unfoldable pub acquire_lock : AcquireContext → Lease → Result Bool × Lease
acquire_lock ctx (some c) = (ok true, some c)
acquire_lock ctx none =
    if not ctx.has_persistence
    then (ok false, none)
    else if not ctx.is_postgresql
    then (ok false, none)
    else elim ctx.try_lock [
      | raised ↦ (err storage_error, none)
      | answered acquired ↦ if not acquired then (ok false, none) else (ok true, some ctx.session)
    ]

abbrev acquire_from : AcquireContext → Result (Unit {0}) × Lease → Result Bool × Lease
acquire_from ctx (ok _, lease) = (ok true, lease)
acquire_from ctx (err _, lease) = acquire_lock ctx lease

-- `ValidatedExecutionLeaderLease.acquire`
unfoldable pub acquire : AcquireContext → Lease → Result Bool × Lease
unfolding acquire_lock require_valid
acquire ctx none = acquire_lock ctx none
acquire ctx (some c) = acquire_from ctx (require_valid (some c))

-- `held`
unfoldable pub held : Lease → Bool × Lease
unfolding require_valid
held lease =
    let (r, lease') = require_valid lease in (elim r [ ok _ ↦ true | err _ ↦ false ], lease')

-- `release`; the unlock of a session that is gone may raise, and the lease is dropped all the same.
unfoldable pub release : Answer → Lease → Result (Unit {0}) × Lease
release unlock none = (ok tt, none)
release raised (some c) = (err storage_error, none)
release (answered _) (some c) = (ok tt, none)

abbrev pub validated :
    (String → String) → ℕ → Gate → Result (Unit {0}) × Lease → Bool × Gate × Lease
validated strip now g (ok _, lease) = (true, g, lease)
validated strip now g (err _, lease) = (false, fail strip now "EXECUTION_LEADER_LOST" g, lease)

-- `validate_leader_or_fail_closed`
unfoldable pub validate_leader_or_fail_closed :
    (String → String) → ℕ → Gate → Lease → Bool × Gate × Lease
unfolding fail require_valid
validate_leader_or_fail_closed strip now g lease =
    if not g.automation_ready
    then (false, g, lease)
    else validated strip now g (require_valid lease)

-- The session lives and holds the advisory lock.
abbrev pub IsLeader : Lease → Type 0
IsLeader none = ⊥
IsLeader (some c) = (c.closed ≡ false) × (c.invalidated ≡ false) × (c.owns_lock ≡ answered true)
