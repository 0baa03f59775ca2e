-- ===== src/Worker/Actions.antt =====
-- The worker's state, its environment in one cycle, and calls that change the state and may raise.
use astra_froge.Common.{
  ℕ, String, Bool, Option, none, some, List, if◌then◌else◌, Result, ok, err, storage_error,
  app_error,
}
use astra_froge.Schemas.{ExecutionCommandState, ExecutionCommand}
use astra_froge.Queue.Tables.{Tables}
use astra_froge.Queue.Rows.{Update}
use astra_froge.Queue.Repository.{Dialect, transition}
use astra_froge.Recovery.Gate.{Gate, fail}
use astra_froge.Recovery.Lease.{Connection, Lease, require_valid}
use astra_froge.Commands.Facts.{Facts}
use astra_froge.Schemas.Execution.{DemoTradeRecord}

-- The gate, the lease and the tables that the worker shares with others, the exchange as the order
-- backend sees it, and the worker's own fields. No tables stand for a service without persistence.
pub record Worker (N W : Type 0) : Type 0 where
  pub gate : Gate
  pub lease : Lease
  pub repository : Option (Tables N)
  pub exchange : W
  pub last_cycle_at : Option ℕ
  pub last_command_id : Option String
  pub last_result : Option String

-- What one cycle meets.
pub record Environment (N W : Type 0) : Type 0 where
  pub execution_enabled : Bool
  pub worker_id : String
  pub now : ℕ
  pub dialect : Dialect
  -- the rows that other transactions hold
  pub locked : String → Bool
  -- what `revalidate` reads
  pub facts : Facts N
  -- what happens to the leader's session before it is proved for the second time
  pub drift : Connection → Connection
  -- whether the database raises at the claim, and when the command is moved to a state
  pub claim_fault : Bool
  pub fault : ExecutionCommandState → Bool
  -- `DemoExecutionService.activate`, the order backend
  pub activate : String → W → Result (DemoTradeRecord N) × W
  -- Python's `str.strip`, and the digests of the repository
  pub strip : String → String
  pub event_digest : String → ℕ → String
  pub token_digest : String → String → ℕ → String

abbrev pub Action : Type 0 → Type 0 → Type 0 → Type 0
Action N W A = Worker N W → Result A × Worker N W

module _ {N W A : Type 0} where
  abbrev pub pure : A → Action N W A
  pure a s = (ok a, s)

  abbrev pub lift : Result A → Action N W A
  lift r s = (r, s)

  -- `self._last_result = result; return a`
  abbrev pub finish : String → A → Action N W A
  finish result a s = (ok a, record s { last_result = some result })

module _ {N W A B : Type 0} where
  abbrev pub continue : Result A → (A → Action N W B) → Action N W B
  continue (ok a) f s = f a s
  continue (err e) f s = (err e, s)

  infixl 5 ◌>>=◌ ◌>>◌
  -- What was changed before a raise stays changed.
  abbrev pub ◌>>=◌ : Action N W A → (A → Action N W B) → Action N W B
  ◌>>=◌ m f s = continue (m s).0 f (m s).1

  abbrev pub ◌>>◌ : Action N W A → Action N W B → Action N W B
  m >> k = m >>= λ _. k

module _ {N W : Type 0} where
  -- `self._gate.fail(error)`
  unfoldable pub fail_gate : Environment N W → String → Worker N W → Worker N W
  unfolding fail
  fail_gate env error s = record s { gate = fail env.strip env.now error s.gate }

  abbrev pub stored :
      Worker N W → Result (ExecutionCommand N × Tables N) → Result (Unit {0}) × Worker N W
  stored s (ok (_, db)) = (ok tt, record s { repository = some db })
  stored s (err e) = (err e, s)

  abbrev pub store_in :
      Environment N W
      → String
      → ExecutionCommandState
      → String
      → List (Update N)
      → Option (Tables N)
      → Action N W (Unit {0})
  store_in env id to_state reason updates none s =
      (err (app_error 503 "EXECUTION_COMMAND_PERSISTENCE_REQUIRED"), s)
  store_in env id to_state reason updates (some db) s =
      if env.fault to_state
      then (err storage_error, s)
      else stored s (transition env.event_digest id to_state reason env.now updates db)

  -- `self._commands.transition(...)`
  unfoldable pub store :
      Environment N W
      → String
      → ExecutionCommandState
      → String
      → List (Update N)
      → Action N W (Unit {0})
  store env id to_state reason updates s = store_in env id to_state reason updates s.repository s

  abbrev proved : Worker N W → Result (Unit {0}) × Lease → Result (Unit {0}) × Worker N W
  proved s (r, lease) = (r, record s { lease = lease })

  -- `self._lease.require_valid()`
  unfoldable pub prove_lease : Action N W (Unit {0})
  unfolding require_valid
  prove_lease s = proved s (require_valid s.lease)
