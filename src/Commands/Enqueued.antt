-- ===== src/Commands/Enqueued.antt =====
-- What `enqueue` stores.
use astra_froge.Common.{
  String, ◌≡◌, refl, sym, ◌∙◌, ap, some, Result, ok, ◌>>=◌, >>=-eq-ok, raise_if, leb, arith,
}
use astra_froge.Schemas.{pending, ExecutionCommand}
use astra_froge.Queue.Tables.{Tables}
use astra_froge.Queue.Repository.{Dialect}
use astra_froge.Queue.Invariant.{IsValid, create-IsValid}
use astra_froge.Schemas.Decimals.{Decimals}
use astra_froge.Commands.Facts.{Facts}
use astra_froge.Commands.Approval.{blocked, expiry, current_approval}
use astra_froge.Commands.Command.{
  required_text, required_grade, required_decimal, leverage_of, take_profit,
  validate_plan_consistency, validate_command,
}
use astra_froge.Commands.Enqueue.{Digests, build_command, enqueue}

module _ {N : Type 0} (d : Decimals N) (digests : Digests N) (multiple : N) where
  IsPending : Result (ExecutionCommand N) → Type 0
  IsPending r = (c : ExecutionCommand N) → r ≡ ok c → c.state ≡ pending

  bind-IsPending :
      {A : Type 0} (m : Result A) (f : A → Result (ExecutionCommand N))
      → ((a : A) → IsPending (f a))
      → IsPending (m >>= f)
  unfolding IsPending
  bind-IsPending m f h c e = let (a, _, rest) = >>=-eq-ok m f e in h a c rest

  validate_command-IsPending :
      (c : ExecutionCommand N) → c.state ≡ pending → IsPending (validate_command d c)
  unfolding validate_command IsPending
  validate_command-IsPending c h c' e =
      let same : c ≡ c' = ground arith in sym (ap (λ (k : ExecutionCommand N). k.state) same) ∙ h

  build_command-IsPending :
      (facts : Facts N) (id : String) → IsPending (build_command d digests multiple facts id)
  unfolding build_command
  build_command-IsPending facts id = bind-IsPending (current_approval facts id) _ (λ x.
      bind-IsPending (raise_if (leb (expiry x.0) facts.now) (blocked "EXECUTION_DECISION_EXPIRED"))
        _
        (λ _.
          bind-IsPending (required_decimal d x.1.recommended_quantity "RISK_QUANTITY_UNAVAILABLE") _
            (λ quantity.
              bind-IsPending
                (required_decimal d x.1.position_notional_usdt "RISK_NOTIONAL_UNAVAILABLE") _
                (λ notional.
                  bind-IsPending
                    (required_decimal d x.1.required_margin_usdt "RISK_MARGIN_UNAVAILABLE") _
                    (λ margin.
                      bind-IsPending
                        (required_decimal d x.1.stop_loss_price "RISK_STOP_UNAVAILABLE") _
                        (λ stop. bind-IsPending (required_grade x.0.grade) _ (λ grade.
                          bind-IsPending (leverage_of x.2.positions x.0.symbol) _ (λ leverage.
                            bind-IsPending
                              (validate_plan_consistency d x.0 x.1 quantity notional margin leverage
                                stop)
                              _
                              (λ _.
                                bind-IsPending
                                  (take_profit d multiple x.0.direction x.1.entry_trigger_price
                                    stop)
                                  _
                                  (λ target.
                                    bind-IsPending
                                      (required_text x.0.decision_key "MISSING_DECISION_KEY") _
                                      (λ key.
                                        bind-IsPending
                                          (required_text x.0.source_snapshot_version
                                            "MISSING_SOURCE_PROVENANCE")
                                          _ (λ source. validate_command-IsPending _ refl))))))))))))

  pending_of :
      (facts : Facts N) (id : String) (c : ExecutionCommand N)
      → build_command d digests multiple facts id ≡ ok c
      → c.state ≡ pending
  unfolding IsPending
  pending_of facts id = build_command-IsPending facts id

  -- `enqueue` keeps valid tables of its repository valid, whatever its first query read.
  pub enqueue-IsValid :
      (dialect : Dialect) (facts : Facts N) (id : String) (seen db db' : Tables N)
      (c : ExecutionCommand N)
      → IsValid db
      → enqueue d digests multiple dialect facts id seen (some db) ≡ ok (c, db')
      → IsValid db'
  unfolding enqueue
  enqueue-IsValid dialect facts id seen db db' c h e =
      let (command, built, e₁) = >>=-eq-ok (build_command d digests multiple facts id) _ e in
      create-IsValid digests.event dialect command seen db db' c (pending_of facts id command built)
        h e₁
