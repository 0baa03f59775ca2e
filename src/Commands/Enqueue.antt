-- ===== src/Commands/Enqueue.antt =====
-- `enqueue` and `enqueue_all_ready`.
use Prim.Native.String.{◌++◌ as text_append}
use astra_froge.Common.{
  ℕ, zero, suc, ◌+◌, String, Option, none, some, List, [], ◌∷◌, leb, if◌then◌else◌, Result, ok, err,
  ◌>>=◌, ◌>>◌, raise_if, or_raise, app_error, contains,
}
use astra_froge.Schemas.{pending, ExecutionCommand}
use astra_froge.Queue.Tables.{Tables}
use astra_froge.Queue.Repository.{Dialect, create}
use astra_froge.Schemas.Decimals.{Decimals}
use astra_froge.Schemas.Risk.{RiskAssessment}
use astra_froge.Commands.Facts.{Facts}
use astra_froge.Commands.Approval.{blocked, expiry, is_approved, current_approval}
use astra_froge.Commands.Command.{
  required_text, required_grade, required_decimal, leverage_of, take_profit,
  validate_plan_consistency, validate_command,
}

-- `text[:n]`
unfoldable pub first_chars : ℕ → String → String
first_chars zero text = String.[]
first_chars (suc n) String.[] = String.[]
first_chars (suc n) (String.◌∷◌ c text) = String.◌∷◌ c (first_chars n text)

-- `client_order_ids`: of the entry, the stop and the take-profit order
unfoldable pub entry_order_id : String → String
entry_order_id signal_id = text_append "af-e-" (first_chars 20 signal_id)

unfoldable pub stop_order_id : String → String
stop_order_id signal_id = text_append "af-s-" (first_chars 20 signal_id)

unfoldable pub take_order_id : String → String
take_order_id signal_id = text_append "af-t-" (first_chars 20 signal_id)

-- `_required_repository`; no tables stand for a service without a repository.
abbrev pub required_repository : {N : Type 0} → Option (Tables N) → Result (Tables N)
required_repository repository =
    or_raise repository (app_error 503 "EXECUTION_COMMAND_PERSISTENCE_REQUIRED")

-- The SHA-256 digests of the payloads that identify a command and a risk decision.
pub record Digests (N : Type 0) : Type 0 where
  pub identity : String → Option String → Option String → String
  pub risk_decision : RiskAssessment N → String → String
  pub event : String → ℕ → String

module _ {N : Type 0} (d : Decimals N) (digests : Digests N) (multiple : N) where
  -- The command that `enqueue` builds, before it is stored.
  unfoldable pub build_command : Facts N → String → Result (ExecutionCommand N)
  unfolding current_approval required_text required_grade required_decimal leverage_of take_profit
      validate_plan_consistency validate_command
  build_command facts signal_id = do
    (signal, assessment, snapshot) ← current_approval facts signal_id
    let created_at = facts.now
    let expires_at = expiry signal
    raise_if (leb expires_at created_at) (blocked "EXECUTION_DECISION_EXPIRED")
    quantity ← required_decimal d assessment.recommended_quantity "RISK_QUANTITY_UNAVAILABLE"
    notional ← required_decimal d assessment.position_notional_usdt "RISK_NOTIONAL_UNAVAILABLE"
    margin ← required_decimal d assessment.required_margin_usdt "RISK_MARGIN_UNAVAILABLE"
    stop ← required_decimal d assessment.stop_loss_price "RISK_STOP_UNAVAILABLE"
    grade ← required_grade signal.grade
    leverage ← leverage_of snapshot.positions signal.symbol
    validate_plan_consistency d signal assessment quantity notional margin leverage stop
    target ← take_profit d multiple signal.direction assessment.entry_trigger_price stop
    let identity =
        digests.identity signal.signal_id signal.decision_key signal.source_snapshot_version
    decision_key ← required_text signal.decision_key "MISSING_DECISION_KEY"
    source ← required_text signal.source_snapshot_version "MISSING_SOURCE_PROVENANCE"
    validate_command d (record {
      command_id = identity;
      idempotency_key = identity;
      deterministic_execution_identity = identity;
      signal_id = signal.signal_id;
      decision_key = decision_key;
      risk_decision_id = digests.risk_decision assessment snapshot.snapshot_id;
      symbol = signal.symbol;
      direction = signal.direction;
      setup = signal.setup;
      grade = grade;
      source_snapshot_version = source;
      entry_trigger_price = assessment.entry_trigger_price;
      stop_loss_price = stop;
      take_profit_price = target;
      take_profit_r_multiple = multiple;
      approved_quantity = quantity;
      approved_notional = notional;
      approved_margin = margin;
      leverage = leverage;
      account_snapshot_id = snapshot.snapshot_id;
      state = pending;
      created_at = created_at;
      updated_at = created_at;
      expires_at = expires_at;
      entry_client_order_id = entry_order_id signal.signal_id;
      stop_client_order_id = stop_order_id signal.signal_id;
      take_profit_client_order_id = take_order_id signal.signal_id;
      entry_exchange_order_id = none;
      stop_exchange_order_id = none;
      take_profit_exchange_order_id = none;
      executed_quantity = none;
      average_entry_price = none;
      claim_token = none;
      worker_id = none;
      claimed_at = none;
      failure_reason = none;
      audit_codes = "READY_RISK_APPROVED" ∷ "COMMAND_PERSISTED_BEFORE_SUBMISSION" ∷ [];
    })

  -- `enqueue`. `seen` is what the repository's first query reads (see `create`).
  unfoldable pub enqueue :
      Dialect
      → Facts N
      → String
      → Tables N
      → Option (Tables N)
      → Result (ExecutionCommand N × Tables N)
  unfolding build_command create
  enqueue dialect facts signal_id seen repository = do
    db ← required_repository repository
    command ← build_command facts signal_id
    create digests.event dialect command seen db

  -- What one assessment adds in `enqueue_all_ready`: `before` holds the ids known so far.
  abbrev tally :
      List String
      → ℕ
      → Tables N
      → Result (ExecutionCommand N × Tables N)
      → Result (List String × ℕ × Tables N)
  tally before created db (ok (command, db')) =
      if contains before command.command_id
      then ok (before, created, db')
      else ok (command.command_id ∷ before, created + 1, db')
  tally before created db (err (app_error status code)) = ok (before, created, db)
  tally before created db (err e) = err e

  -- The loop over the assessments; each `enqueue` reads the facts of its own moment.
  unfoldable pub enqueue_loop :
      Dialect
      → (String → Facts N)
      → List (RiskAssessment N)
      → List String
      → ℕ
      → Tables N
      → Result (List String × ℕ × Tables N)
  unfolding enqueue
  enqueue_loop dialect facts [] before created db = ok (before, created, db)
  enqueue_loop dialect facts (assessment ∷ rest) before created db =
      (if is_approved assessment.decision
        then tally before created db
            (enqueue dialect (facts assessment.signal_id) assessment.signal_id db (some db))
        else ok (before, created, db))
      >>= λ next. enqueue_loop dialect facts rest next.0 next.1 next.2

  -- `enqueue_all_ready`: how many commands were created. `listed` are the ids of `self.list()`.
  unfoldable pub enqueue_all_ready :
      Dialect
      → (String → Facts N)
      → List (RiskAssessment N)
      → List String
      → Option (Tables N)
      → Result (ℕ × Tables N)
  unfolding enqueue_loop
  enqueue_all_ready dialect facts assessments listed repository = do
    db ← required_repository repository
    (before, created, db') ← enqueue_loop dialect facts assessments listed 0 db
    ok (created, db')
