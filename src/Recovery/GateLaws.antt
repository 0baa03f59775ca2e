-- ===== src/Recovery/GateLaws.antt =====
-- The gate as a state machine: what stands behind a ready gate, in any order of calls.
use astra_froge.Common.{
  ℕ, String, Bool, true, false, ◌&&◌, ◌||◌, List, [], ◌∷◌, or_left, err_ne_ok, ◌≡◌, ◌↔◌, inl, inr,
  Bool-cases, refl, sym, ◌∙◌, Result, ok, err, arith,
}
use astra_froge.Recovery.Gate.{
  Gate, new_gate, begin, mark_exchange_reconciled, mark_signals_revalidated, mark_ready, fail,
  require_ready,
}

left_true : (a b : Bool) → b ≡ false → (a || b) ≡ true → a ≡ true
left_true a b h e = ground arith

middle_true : (a b c : Bool) → a ≡ false → (a || (b && c)) ≡ true → b ≡ true
middle_true a b c h e = ground arith

last_true : (a b c : Bool) → a ≡ false → (a || (b && c)) ≡ true → c ≡ true
last_true a b c h e = ground arith

either_right : (a b : Bool) → b ≡ true → (a || b) ≡ true
either_right a b h = ground arith

both_right : (a b c : Bool) → b ≡ true → c ≡ true → (a || (b && c)) ≡ true
both_right a b c h e = ground arith

-- The calls that change the gate.
pub data Call : Type 0 where
  begin_call reconciled_call revalidated_call : Call
  ready_call : ℕ → Call
  fail_call : ℕ → String → Call

abbrev kept_on_error : Gate → Result Gate → Gate
kept_on_error g (ok g') = g'
kept_on_error g (err e) = g

module _ (strip : String → String) where
  -- The gate after a call; a call that raises changes nothing.
  unfoldable pub run_call : Gate → Call → Gate
  unfolding begin mark_exchange_reconciled mark_signals_revalidated mark_ready fail
  run_call g begin_call = begin g
  run_call g reconciled_call = mark_exchange_reconciled g
  run_call g revalidated_call = kept_on_error g (mark_signals_revalidated g)
  run_call g (ready_call now) = kept_on_error g (mark_ready now g)
  run_call g (fail_call now error) = fail strip now error g

  -- The gate after a history of calls, the latest first.
  unfoldable pub run_history : List Call → Gate
  unfolding run_call new_gate
  run_history [] = new_gate
  run_history (c ∷ h) = run_call (run_history h) c

abbrev pub is_begin : Call → Bool
is_begin begin_call = true
is_begin _ = false

abbrev pub is_fail : Call → Bool
is_fail (fail_call _ _) = true
is_fail _ = false

-- The exchange was reconciled, and no recovery has begun since.
pub data Reconciled : List Call → Type 0 where
  now : {h : List Call} → Reconciled (reconciled_call ∷ h)
  since : {h : List Call} (c : Call) → is_begin c ≡ false → Reconciled h → Reconciled (c ∷ h)

-- The signals were revalidated while the exchange was reconciled, and no recovery has begun since.
pub data Revalidated : List Call → Type 0 where
  now : {h : List Call} → Reconciled h → Revalidated (revalidated_call ∷ h)
  since : {h : List Call} (c : Call) → is_begin c ≡ false → Revalidated h → Revalidated (c ∷ h)

-- The gate was made ready after both, and there was neither a failure nor a new recovery since.
pub data Ready : List Call → Type 0 where
  now : {h : List Call} (t : ℕ) → Reconciled h → Revalidated h → Ready (ready_call t ∷ h)
  since :
      {h : List Call} (c : Call) → is_begin c ≡ false → is_fail c ≡ false → Ready h → Ready (c ∷ h)

-- What the two fallible marks do to the flags.
revalidated_flag :
    (g : Gate)
    → (kept_on_error g (mark_signals_revalidated g)).signals_revalidated
      ≡ (g.signals_revalidated || g.exchange_reconciled)
unfolding mark_signals_revalidated
revalidated_flag g = ground arith

ready_flag :
    (t : ℕ) (g : Gate)
    → (kept_on_error g (mark_ready t g)).automation_ready
      ≡ (g.automation_ready || (g.exchange_reconciled && g.signals_revalidated))
unfolding mark_ready
ready_flag t g = ground arith

mark_revalidated_others :
    (g : Gate)
    → ((kept_on_error g (mark_signals_revalidated g)).exchange_reconciled ≡ g.exchange_reconciled)
      × ((kept_on_error g (mark_signals_revalidated g)).automation_ready ≡ g.automation_ready)
unfolding mark_signals_revalidated
mark_revalidated_others g = ground arith

mark_ready_others :
    (t : ℕ) (g : Gate)
    → ((kept_on_error g (mark_ready t g)).exchange_reconciled ≡ g.exchange_reconciled)
      × ((kept_on_error g (mark_ready t g)).signals_revalidated ≡ g.signals_revalidated)
unfolding mark_ready
mark_ready_others t g = ground arith

gate_opens : (g : Gate) → g.automation_ready ≡ true → require_ready g ≡ ok tt
unfolding require_ready
gate_opens g h = rw h

opened : (g : Gate) → require_ready g ≡ ok tt → g.automation_ready ≡ true
unfolding require_ready
opened g e = elim (Bool-cases g.automation_ready) [
  | inl ready ↦ ready
  | inr closed ↦ absurd (err_ne_ok (rw closed at e))
]

module _ (strip : String → String) where
  -- The three flags, read off the history.
  run_history-Reconciled :
      (h : List Call) → (run_history strip h).exchange_reconciled ≡ true → Reconciled h
  unfolding run_history
  run_history-Reconciled [] e = cc
  run_history-Reconciled (begin_call ∷ h) e = cc
  run_history-Reconciled (reconciled_call ∷ h) e = Reconciled.now
  run_history-Reconciled (revalidated_call ∷ h) e =
      Reconciled.since _ refl
        (run_history-Reconciled h (sym (mark_revalidated_others (run_history strip h)).0 ∙ e))
  run_history-Reconciled (ready_call t ∷ h) e =
      Reconciled.since _ refl
        (run_history-Reconciled h (sym (mark_ready_others t (run_history strip h)).0 ∙ e))
  run_history-Reconciled (fail_call t error ∷ h) e =
      Reconciled.since _ refl (run_history-Reconciled h e)

  run_history-Revalidated :
      (h : List Call) → (run_history strip h).signals_revalidated ≡ true → Revalidated h
  unfolding run_history
  run_history-Revalidated [] e = cc
  run_history-Revalidated (begin_call ∷ h) e = cc
  run_history-Revalidated (reconciled_call ∷ h) e =
      Revalidated.since _ refl (run_history-Revalidated h e)
  run_history-Revalidated (revalidated_call ∷ h) e =
      elim (Bool-cases (run_history strip h).exchange_reconciled) [
        | inl done ↦ Revalidated.now (run_history-Reconciled h done)
        | inr missing ↦ Revalidated.since _ refl (
            run_history-Revalidated h
              (left_true _ _ missing (sym (revalidated_flag (run_history strip h)) ∙ e)))
      ]
  run_history-Revalidated (ready_call t ∷ h) e =
      Revalidated.since _ refl
        (run_history-Revalidated h (sym (mark_ready_others t (run_history strip h)).1 ∙ e))
  run_history-Revalidated (fail_call t error ∷ h) e =
      Revalidated.since _ refl (run_history-Revalidated h e)

  run_history-Ready : (h : List Call) → (run_history strip h).automation_ready ≡ true → Ready h
  unfolding run_history
  run_history-Ready [] e = cc
  run_history-Ready (begin_call ∷ h) e = cc
  run_history-Ready (reconciled_call ∷ h) e = Ready.since _ refl refl (run_history-Ready h e)
  run_history-Ready (revalidated_call ∷ h) e =
      Ready.since _ refl refl
        (run_history-Ready h (sym (mark_revalidated_others (run_history strip h)).1 ∙ e))
  run_history-Ready (ready_call t ∷ h) e =
      elim (Bool-cases (run_history strip h).automation_ready) [
        | inl before ↦ Ready.since _ refl refl (run_history-Ready h before)
        | inr fresh ↦
            let marked = sym (ready_flag t (run_history strip h)) ∙ e in
            Ready.now t (run_history-Reconciled h (middle_true _ _ _ fresh marked))
              (run_history-Revalidated h (last_true _ _ _ fresh marked))
      ]
  run_history-Ready (fail_call t error ∷ h) e = cc

  Reconciled-run_history :
      (h : List Call) → Reconciled h → (run_history strip h).exchange_reconciled ≡ true
  unfolding run_history
  Reconciled-run_history h Reconciled.now = refl
  Reconciled-run_history (c ∷ h) (Reconciled.since begin_call e r) = cc
  Reconciled-run_history (c ∷ h) (Reconciled.since reconciled_call e r) = refl
  Reconciled-run_history (c ∷ h) (Reconciled.since revalidated_call e r) =
      (mark_revalidated_others (run_history strip h)).0 ∙ Reconciled-run_history h r
  Reconciled-run_history (c ∷ h) (Reconciled.since (ready_call t) e r) =
      (mark_ready_others t (run_history strip h)).0 ∙ Reconciled-run_history h r
  Reconciled-run_history (c ∷ h) (Reconciled.since (fail_call t error) e r) =
      Reconciled-run_history h r

  Revalidated-run_history :
      (h : List Call) → Revalidated h → (run_history strip h).signals_revalidated ≡ true
  unfolding run_history
  Revalidated-run_history [] r = elim r [ ]
  Revalidated-run_history (c ∷ h) (Revalidated.now r) =
      revalidated_flag (run_history strip h)
      ∙ either_right (run_history strip h).signals_revalidated _ (Reconciled-run_history h r)
  Revalidated-run_history (c ∷ h) (Revalidated.since begin_call e r) = cc
  Revalidated-run_history (c ∷ h) (Revalidated.since reconciled_call e r) =
      Revalidated-run_history h r
  Revalidated-run_history (c ∷ h) (Revalidated.since revalidated_call e r) =
      revalidated_flag (run_history strip h)
      ∙ or_left _ (run_history strip h).exchange_reconciled (Revalidated-run_history h r)
  Revalidated-run_history (c ∷ h) (Revalidated.since (ready_call t) e r) =
      (mark_ready_others t (run_history strip h)).1 ∙ Revalidated-run_history h r
  Revalidated-run_history (c ∷ h) (Revalidated.since (fail_call t error) e r) =
      Revalidated-run_history h r

  Ready-run_history : (h : List Call) → Ready h → (run_history strip h).automation_ready ≡ true
  unfolding run_history
  Ready-run_history [] r = elim r [ ]
  Ready-run_history (c ∷ h) (Ready.now t done r) =
      ready_flag t (run_history strip h)
      ∙ both_right (run_history strip h).automation_ready _ _ (Reconciled-run_history h done)
          (Revalidated-run_history h r)
  Ready-run_history (c ∷ h) (Ready.since begin_call e f r) = cc
  Ready-run_history (c ∷ h) (Ready.since reconciled_call e f r) = Ready-run_history h r
  Ready-run_history (c ∷ h) (Ready.since revalidated_call e f r) =
      (mark_revalidated_others (run_history strip h)).1 ∙ Ready-run_history h r
  Ready-run_history (c ∷ h) (Ready.since (ready_call t) e f r) =
      ready_flag t (run_history strip h) ∙ or_left _ _ (Ready-run_history h r)
  Ready-run_history (c ∷ h) (Ready.since (fail_call t error) e f r) = cc

  -- `require_ready` passes after a history of calls on a new gate exactly when `mark_ready` was
  -- called on a reconciled exchange, after the signals were revalidated on a reconciled exchange,
  -- without a `begin` since any of these and without a `fail` since `mark_ready`.
  pub require_ready_when : (h : List Call) → (require_ready (run_history strip h) ≡ ok tt) ↔ Ready h
  require_ready_when h = (
    (λ e. run_history-Ready h (opened (run_history strip h) e)),
    (λ r. gate_opens (run_history strip h) (Ready-run_history h r)),
  )
