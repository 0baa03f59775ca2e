-- ===== src/Recovery/Entries.antt =====
-- Who may enter: what stands behind an entry through the guarded order backend.
use astra_froge.Common.{
  String, Bool, true, false, not, none, some, Result, ok, err, Error, app_error, if◌then◌else◌, ◌≡◌,
  refl, sym, ap, ◌∙◌, subst, ◌⊎◌, inl, inr, Bool-cases, arith, err_ne_ok,
}
use astra_froge.Recovery.Gate.{require_ready, fail}
use astra_froge.Recovery.Lease.{
  Lease, require_valid, validated, validate_leader_or_fail_closed, IsLeader,
}
use astra_froge.Recovery.Guarded.{
  Backend, Guarded, moved_session, kept, permission_of, ready_permission,
  require_new_entry_permission, permitted_entry, activate, permitted_cycle, auto_execute_pending,
}

pub require_valid-IsLeader :
    (lease : Lease) (l : Lease) (u : Unit {0})
    → require_valid lease ≡ (ok u, l)
    → IsLeader lease × (lease ≡ l)
unfolding require_valid
require_valid-IsLeader none l u e = ground arith
require_valid-IsLeader (some c) l u e = ground arith

module _ {N W : Type 0} (backend : Backend N W) where
  -- An entry may be made: the gate is ready and the leader's session is proved.
  pub record IsPermitted (s : Guarded W) : Type 0 where
    pub ready : s.gate.automation_ready ≡ true
    pub leader : IsLeader s.lease

  -- A refusal: an error, with the gate locked and the exchange as it was.
  pub record IsRefusal {A : Type 0} (s : Guarded W) (p : Result A × Guarded W) : Type 0 where
    pub error : Error
    pub raised : p.0 ≡ err error
    pub locked : p.1.gate.automation_ready ≡ false
    pub untouched : p.1.exchange ≡ s.exchange

  validated-cases :
      (s : Guarded W) (p : Result (Unit {0}) × Lease)
      → s.gate.automation_ready ≡ true
      → require_valid s.lease ≡ p
      → ((permission_of backend (kept backend s (validated backend.strip backend.now s.gate p))
            ≡ (ok tt, s))
          × IsPermitted s)
        ⊎ IsRefusal s
            (permission_of backend (kept backend s (validated backend.strip backend.now s.gate p)))
  unfolding fail
  validated-cases s (ok u, lease) ready proved =
      let (leader, same) = require_valid-IsLeader s.lease lease u proved in
      inl (
        ap (λ (l : Lease). (ok tt, record s { lease = l })) (sym same),
        record { ready = ready; leader = leader },
      )
  validated-cases s (err e, lease) ready proved =
      inr (record { error = _; raised = refl; locked = refl; untouched = refl })

  permission-cases :
      (s : Guarded W)
      → backend.recovery_required ≡ true
      → ((require_new_entry_permission backend s ≡ (ok tt, s)) × IsPermitted s)
        ⊎ IsRefusal s (require_new_entry_permission backend s)
  unfolding require_new_entry_permission require_ready validate_leader_or_fail_closed
  permission-cases s required = elim (Bool-cases s.gate.automation_ready) [
    | inl ready ↦
        subst (λ p. ((p ≡ (ok tt, s)) × IsPermitted s) ⊎ IsRefusal s p)
          (sym (
            ap (λ b. gated b s.gate.automation_ready s) required
            ∙ ap (λ b. gated true b s) ready
            ∙ ap (λ b. tested b s) ready))
          (validated-cases s (require_valid s.lease) ready refl)
    | inr locked ↦
        subst (λ p. ((p ≡ (ok tt, s)) × IsPermitted s) ⊎ IsRefusal s p)
          (sym (
            ap (λ b. gated b s.gate.automation_ready s) required ∙ ap (λ b. gated true b s) locked))
          (inr (record { error = _; raised = refl; locked = locked; untouched = refl }))
  ]
    where
      gated : Bool → Bool → Guarded W → Result (Unit {0}) × Guarded W
      gated required ready s =
          if not required
          then (ok tt, s)
          else ready_permission backend
              (if ready then ok tt else err (app_error 409 "RECOVERY_NOT_COMPLETE")) s

      tested : Bool → Guarded W → Result (Unit {0}) × Guarded W
      tested ready s = permission_of backend (
          kept backend s (
            if not ready
            then (false, s.gate, s.lease)
            else validated backend.strip backend.now s.gate (require_valid s.lease)))

  IsPermitted-cases :
      {A : Type 0} (s : Guarded W) (next : Result (Unit {0}) × Guarded W → Result A × Guarded W)
      → ((e : Error) (t : Guarded W) → next (err e, t) ≡ (err e, t))
      → backend.recovery_required ≡ true
      → ((next (require_new_entry_permission backend s) ≡ next (ok tt, s)) × IsPermitted s)
        ⊎ IsRefusal s (next (require_new_entry_permission backend s))
  IsPermitted-cases s next raises required = elim (permission-cases s required) [
    | inl (same, permitted) ↦ inl (ap next same, permitted)
    | inr r ↦ inr (refused (require_new_entry_permission backend s) r)
  ]
    where
      refused : (p : Result (Unit {0}) × Guarded W) → IsRefusal s p → IsRefusal s (next p)
      refused (ok u, t) r = absurd (err_ne_ok (sym r.raised))
      refused (err e, t) r =
          subst (IsRefusal s) (sym (raises e t))
            (record { error = e; raised = refl; locked = r.locked; untouched = r.untouched })

  -- Where recovery is required, `activate` either reaches the order backend, and then the gate is
  -- ready and the leader's session is proved at that moment; or it raises, with the gate locked and
  -- nothing done on the exchange.
  pub activate-IsPermitted :
      (signal_id : String) (s : Guarded W)
      → backend.recovery_required ≡ true
      → (let at = record s { lease = moved_session (backend.drift_at signal_id) s.lease } in
          ((activate backend signal_id s ≡ (
            (backend.inner_activate signal_id at.exchange).0,
            record at { exchange = (backend.inner_activate signal_id at.exchange).1 },
          ))
            × IsPermitted at)
          ⊎ IsRefusal at (activate backend signal_id s))
  unfolding activate
  activate-IsPermitted signal_id s required =
      IsPermitted-cases (record s { lease = moved_session (backend.drift_at signal_id) s.lease })
        (permitted_entry backend signal_id) (λ e t. refl) required

  -- The same of the start of a cycle of `auto_execute_pending`.
  pub auto_execute_pending-IsPermitted :
      (s : Guarded W)
      → backend.recovery_required ≡ true
      → (let at = record s { lease = moved_session backend.drift s.lease } in
          ((auto_execute_pending backend s ≡ permitted_cycle backend (ok tt, at)) × IsPermitted at)
          ⊎ IsRefusal at (auto_execute_pending backend s))
  unfolding auto_execute_pending
  auto_execute_pending-IsPermitted s required =
      IsPermitted-cases (record s { lease = moved_session backend.drift s.lease })
        (permitted_cycle backend) (λ e t. refl) required
