-- ===== src/Recovery/Cycles.antt =====
-- What a cycle of automatic entries does, entry by entry.
use astra_froge.Common.{
  ℕ, ◌+◌, String, Bool, true, false, not, ◌&&◌, List, [], ◌∷◌, Result, ok, err, ◌≡◌, refl, sym, ap,
  subst, ◌⊎◌, inl, inr, Bool-cases, if◌then◌else◌,
}
use astra_froge.Schemas.Execution.{DemoTradeRecord, DemoExecutionPlan}
use astra_froge.Recovery.Gate.{fail}
use astra_froge.Recovery.Lease.{Lease, require_valid, validated, validate_leader_or_fail_closed}
use astra_froge.Recovery.Guarded.{
  Backend, Guarded, moved_session, is_executable, is_ready_state, ends_cycle, kept, activate,
  revalidate_leader, status_state, guarded_plans, activate_all, run_cycle, auto_execute_pending,
}
use astra_froge.Recovery.Entries.{
  IsPermitted, IsRefusal, require_valid-IsLeader, activate-IsPermitted,
  auto_execute_pending-IsPermitted,
}

module _ {N W : Type 0} (backend : Backend N W) where
  -- The state when an entry asks for the leader.
  abbrev pub asked_at : String → Guarded W → Guarded W
  asked_at signal_id s = record s { lease = moved_session (backend.drift_at signal_id) s.lease }

  -- The steps of a cycle. An entry needs the gate ready and the leader proved when it asks; a refusal
  -- leaves the exchange alone and the gate locked, so that no entry can follow it.
  pub data IsCycle : Guarded W → Guarded W → Type 0 where
    over : (s : Guarded W) → IsCycle s s
    entered :
        (signal_id : String) (s t : Guarded W)
        → IsPermitted backend (asked_at signal_id s)
        → IsCycle
            (record (asked_at signal_id s) {
              exchange = (backend.inner_activate signal_id s.exchange).1;
            })
            t
        → IsCycle s t
    refused :
        (s u t : Guarded W)
        → u.gate.automation_ready ≡ false
        → u.exchange ≡ s.exchange
        → IsCycle u t
        → IsCycle s t

  activate-IsCycle :
      (signal_id : String) (s t : Guarded W)
      → backend.recovery_required ≡ true
      → IsCycle (activate backend signal_id s).1 t
      → IsCycle s t
  activate-IsCycle signal_id s t required k =
      elim (activate-IsPermitted backend signal_id s required) [
        | inl (same, permitted) ↦ entered signal_id s t permitted (
            subst (λ (u : Guarded W). IsCycle u t)
              (ap (λ (p : Result (DemoTradeRecord N) × Guarded W). p.1) same) k)
        | inr r ↦ refused s (activate backend signal_id s).1 t r.locked r.untouched k
      ]

  revalidated-cases :
      (s : Guarded W) (p : Result (Unit {0}) × Lease)
      → require_valid s.lease ≡ p
      → (let u = (kept backend s (validated backend.strip backend.now s.gate p)).1 in
          (u ≡ s) ⊎ ((u.gate.automation_ready ≡ false) × (u.exchange ≡ s.exchange)))
  unfolding fail
  revalidated-cases s (ok v, lease) e = inl (
      ap (λ (l : Lease). record s { lease = l }) (sym (require_valid-IsLeader s.lease lease v e).1))
  revalidated-cases s (err x, lease) e = inr (refl, refl)

  revalidate_leader-IsCycle :
      (s t : Guarded W) → IsCycle (revalidate_leader backend s) t → IsCycle s t
  unfolding revalidate_leader validate_leader_or_fail_closed
  revalidate_leader-IsCycle s t k = asked backend.recovery_required s.gate.automation_ready k
    where
      found : Guarded W
      found =
          (kept backend s (validated backend.strip backend.now s.gate (require_valid s.lease))).1

      looked_at : Bool → Bool → Guarded W
      looked_at required ready =
          if required && ready
          then (kept backend s (
              if not ready
              then (false, s.gate, s.lease)
              else validated backend.strip backend.now s.gate (require_valid s.lease))).1
          else s

      step :
          (found ≡ s) ⊎ ((found.gate.automation_ready ≡ false) × (found.exchange ≡ s.exchange))
          → IsCycle found t
          → IsCycle s t
      step (inl same) k = subst (λ (u : Guarded W). IsCycle u t) same k
      step (inr (locked, untouched)) k = refused s found t locked untouched k

      asked : (required ready : Bool) → IsCycle (looked_at required ready) t → IsCycle s t
      asked false ready k = k
      asked true false k = k
      asked true true k = step (revalidated-cases s (require_valid s.lease) refl) k

  activate_all-IsCycle :
      (plans : List (DemoExecutionPlan N)) (activated : ℕ) (s : Guarded W)
      → backend.recovery_required ≡ true
      → IsCycle s (activate_all backend plans activated s).1
  unfolding activate_all
  activate_all-IsCycle [] activated s required = over s
  activate_all-IsCycle (plan ∷ plans) activated s required =
      turn (λ k u. activate_all-IsCycle plans k u required) (is_executable plan)
    where
      outcome : Result (DemoTradeRecord N) × Guarded W → Result ℕ × Guarded W
      outcome (r, s') = elim r [
        | ok trade ↦ activate_all backend plans (activated + 1) s'
        | err e ↦ if ends_cycle e then (err e, s') else activate_all backend plans activated s'
      ]

      after :
          ((k : ℕ) (u : Guarded W) → IsCycle u (activate_all backend plans k u).1)
          → (p : Result (DemoTradeRecord N) × Guarded W) → IsCycle p.1 (outcome p).1
      after more (ok trade, s') = more (activated + 1) s'
      after more (err e, s') = elim (Bool-cases (ends_cycle e)) [
        | inl ends ↦ rw ends (over s')
        | inr goes_on ↦ rw goes_on (more activated s')
      ]

      turn :
          ((k : ℕ) (u : Guarded W) → IsCycle u (activate_all backend plans k u).1)
          → (executable : Bool)
          → IsCycle s
              (if not executable
                then activate_all backend plans activated s
                else outcome (activate backend plan.signal_id s)).1
      turn more false = more activated s
      turn more true =
          activate-IsCycle plan.signal_id s (outcome (activate backend plan.signal_id s)).1 required
            (after more (activate backend plan.signal_id s))

  run_cycle-IsCycle :
      (s : Guarded W) → backend.recovery_required ≡ true → IsCycle s (run_cycle backend s).1
  run_cycle-IsCycle s required =
      revalidate_leader-IsCycle s (run_cycle backend s).1
        (looked (is_ready_state (status_state backend checked)))
    where
      checked : Guarded W
      checked = revalidate_leader backend s

      planned : Guarded W
      planned = revalidate_leader backend checked

      looked :
          (ready : Bool)
          → IsCycle checked
              (if not ready
                then (ok 0, checked)
                else activate_all backend (guarded_plans backend planned) 0 planned).1
      looked false = over checked
      looked true =
          revalidate_leader-IsCycle checked
            (activate_all backend (guarded_plans backend planned) 0 planned).1
            (activate_all-IsCycle (guarded_plans backend planned) 0 planned required)

  -- Where recovery is required, a cycle of `auto_execute_pending` either raises at its start, with the
  -- gate locked and nothing done on the exchange; or the gate is ready and the leader's session proved
  -- at its start, and all that it does on the exchange are entries, one after the other, each with the
  -- gate ready and the leader's session proved at that moment, none after a refusal.
  pub auto_execute_pending-IsCycle :
      (s : Guarded W)
      → backend.recovery_required ≡ true
      → (let at = record s { lease = moved_session backend.drift s.lease } in
          (IsPermitted backend at × IsCycle at (auto_execute_pending backend s).1)
          ⊎ IsRefusal backend at (auto_execute_pending backend s))
  auto_execute_pending-IsCycle s required =
      elim (auto_execute_pending-IsPermitted backend s required) [
        | inl (same, permitted) ↦
            let at : Guarded W = record s { lease = moved_session backend.drift s.lease } in
            inl (
              permitted,
              subst (IsCycle at) (sym (ap (λ (p : Result ℕ × Guarded W). p.1) same))
                  (run_cycle-IsCycle at required),
            )
        | inr r ↦ inr r
      ]
