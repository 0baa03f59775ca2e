-- ===== src/Recovery/Recovered.antt =====
-- The outcomes of a startup recovery.
use astra_froge.Common.{
  ℕ, String, Bool, true, false, none, some, Result, ok, err, ◌>>=◌, ◌≡◌, refl, ap, ◌≢◌, ◌⊎◌, inl,
  inr, arith, Error, recovery_failure,
}
use astra_froge.Schemas.Decimals.{Decimals}
use astra_froge.Recovery.Gate.{
  Gate, begin, mark_exchange_reconciled, mark_signals_revalidated, mark_ready, fail,
}
use astra_froge.Recovery.Lease.{Answer, Lease, release, acquire}
use astra_froge.Recovery.Reconcile.{reconcile_exchange_state}
use astra_froge.Recovery.Coordinator.{
  RecoveryContext, Step, check, change, attempt, attempted, and_then, then_step,
  scan_and_revalidate, check_settings, recovery_steps, fail_closed, finish_recovery, lead, lead_if,
  recover,
}

-- A step that does not raise, in two parts.
and_then-ok :
    (p : Result (Unit {0}) × Gate) (next : Step) (u : Unit {0}) (g : Gate)
    → and_then p next ≡ (ok u, g)
    → (v : Unit {0}) × (h : Gate) × (p ≡ (ok v, h)) × (next h ≡ (ok u, g))
and_then-ok (ok v, h) next u g e = (v, h, refl, e)
and_then-ok (err x, h) next u g e = cc

attempt-ok : (g g' : Gate) (r : Result Gate) (u : Unit {0}) → attempted g r ≡ (ok u, g') → r ≡ ok g'
attempt-ok g g' (ok h) u e = ap ok (ap (λ (p : Result (Unit {0}) × Gate). p.1) e)
attempt-ok g g' (err x) u e = cc

mark_ready_sets : (now : ℕ) (g g' : Gate) → mark_ready now g ≡ ok g' → g'.automation_ready ≡ true
unfolding mark_ready
mark_ready_sets now g g' e = ground arith

release_empties : (unlock : Answer) (lease : Lease) → (release unlock lease).1 ≡ none
unfolding release
release_empties unlock none = refl
release_empties Answer.raised (some c) = refl
release_empties (Answer.answered b) (some c) = refl

release_not_true :
    (r : Result (Unit {0})) → (r >>= (λ _. ok false)) ≢ ◌>>=◌ {A = Unit {0}} (ok tt) (λ _. ok true)
release_not_true (ok u) e = cc
release_not_true (err x) e = cc

module _ {N : Type 0} (d : Decimals N) (ctx : RecoveryContext N) where
  -- A recovery that succeeds: every check passed, and the gate is ready under a held lease.
  pub record IsComplete (g : Gate) (lease : Lease) : Type 0 where
    pub enabled : check_settings d ctx ≡ ok tt
    pub reconciled : reconcile_exchange_state d ctx.client ctx.trades ≡ ok tt
    pub revalidated : scan_and_revalidate d ctx ≡ ok tt
    pub ready : g.automation_ready ≡ true
    pub before : Lease
    pub led : acquire ctx.leader before ≡ (ok true, lease)

  -- A recovery that fails: the gate is locked with a reason, and the lease is given up.
  pub record IsFailedClosed (g : Gate) (lease : Lease) : Type 0 where
    pub locked : g.automation_ready ≡ false
    pub reason : (text : String) × (g.recovery_error ≡ some text)
    pub released : lease ≡ none

  abbrev pub IsRecovery : Result Bool × Gate × Lease → Type 0
  IsRecovery (r, g, lease) =
      ((r ≡ ok true) × IsComplete g lease) ⊎ ((r ≢ ok true) × IsFailedClosed g lease)

  fail_closed-IsFailedClosed :
      (e : Error) (g : Gate) (lease : Lease) → IsRecovery (fail_closed d ctx e g lease)
  unfolding fail
  fail_closed-IsFailedClosed e g lease = inr (
    release_not_true (release ctx.unlock lease).0,
    record { locked = refl; reason = (_, refl); released = release_empties ctx.unlock lease },
  )

  steps_pass :
      (g h : Gate) (u : Unit {0})
      → recovery_steps d ctx g ≡ (ok u, h)
      → (reconcile_exchange_state d ctx.client ctx.trades ≡ ok tt)
        × (scan_and_revalidate d ctx ≡ ok tt)
        × (h.automation_ready ≡ true)
  unfolding recovery_steps
  steps_pass g h u e =
      let (_, g₁, e₁, f₁) =
        and_then-ok (check (reconcile_exchange_state d ctx.client ctx.trades) g)
          (then_step (change mark_exchange_reconciled) (
            then_step (check (scan_and_revalidate d ctx))
              (then_step (attempt mark_signals_revalidated) (attempt (mark_ready ctx.now)))))
          u h e in
      let (_, g₂, e₂, f₂) =
        and_then-ok (change mark_exchange_reconciled g₁)
          (then_step (check (scan_and_revalidate d ctx))
            (then_step (attempt mark_signals_revalidated) (attempt (mark_ready ctx.now))))
          u h f₁ in
      let (_, g₃, e₃, f₃) =
        and_then-ok (check (scan_and_revalidate d ctx) g₂)
          (then_step (attempt mark_signals_revalidated) (attempt (mark_ready ctx.now))) u h f₂ in
      let (_, g₄, e₄, f₄) =
        and_then-ok (attempt mark_signals_revalidated g₃) (attempt (mark_ready ctx.now)) u h f₃ in
      (
        ap (λ (p : Result (Unit {0}) × Gate). p.0) e₁,
        ap (λ (p : Result (Unit {0}) × Gate). p.0) e₃,
        mark_ready_sets ctx.now g₄ h (attempt-ok g₄ h (mark_ready ctx.now g₄) u f₄),
      )

  finish-IsRecovery :
      (g : Gate) (before lease : Lease) (p : Result (Unit {0}) × Gate)
      → check_settings d ctx ≡ ok tt
      → acquire ctx.leader before ≡ (ok true, lease)
      → recovery_steps d ctx g ≡ p
      → IsRecovery (finish_recovery d ctx lease p)
  finish-IsRecovery g before lease (ok u, h) enabled led ran =
      let (reconciled, revalidated, ready) = steps_pass g h u ran in
      inl (
        refl,
        record {
          enabled = enabled;
          reconciled = reconciled;
          revalidated = revalidated;
          ready = ready;
          before = before;
          led = led;
        },
      )
  finish-IsRecovery g before lease (err e, h) enabled led ran = fail_closed-IsFailedClosed e h lease

  lead-IsRecovery :
      (g : Gate) (before : Lease) (p : Result Bool × Lease)
      → check_settings d ctx ≡ ok tt
      → acquire ctx.leader before ≡ p
      → IsRecovery (lead d ctx g p)
  lead-IsRecovery g before (ok true, lease) enabled led =
      finish-IsRecovery g before lease (recovery_steps d ctx g) enabled led refl
  lead-IsRecovery g before (ok false, lease) enabled led =
      fail_closed-IsFailedClosed (recovery_failure "EXECUTION_LEADER_UNAVAILABLE") g lease
  lead-IsRecovery g before (err e, lease) enabled led = fail_closed-IsFailedClosed e g lease

  lead_if-IsRecovery :
      (g : Gate) (lease : Lease) (r : Result (Unit {0}))
      → check_settings d ctx ≡ r
      → IsRecovery (lead_if d ctx g lease r)
  lead_if-IsRecovery g lease (ok u) enabled =
      lead-IsRecovery g lease (acquire ctx.leader lease) enabled refl
  lead_if-IsRecovery g lease (err e) enabled = fail_closed-IsFailedClosed e g lease

  -- A recovery always ends in one of two ways. It returns true, and then its settings allow it, the
  -- exchange was reconciled, the signals were revalidated, the leader lease was acquired and the gate
  -- is ready. Or it does not return true, and then the gate is locked with a reason and the lease is
  -- given up.
  pub recover-IsRecovery : (g : Gate) (lease : Lease) → IsRecovery (recover d ctx g lease)
  unfolding recover
  recover-IsRecovery g lease = lead_if-IsRecovery (begin g) lease (check_settings d ctx) refl
