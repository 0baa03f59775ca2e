-- ===== src/Recovery/Revalidate.antt =====
-- `_revalidate_signals` of the startup coordinator: the active signals against the candidates of the
-- scan that the recovery has run.
use astra_froge.Common.{
  ℕ, String, Bool, true, false, not, ◌||◌, Option, none, some, List, [], ◌∷◌, leb, ◌==◌,
  if◌then◌else◌, Result, ok, ◌>>=◌, ◌>>◌, raise_if, or_raise, recovery_failure,
}
use astra_froge.Schemas.{same_direction, same_setup}
use astra_froge.Schemas.Decimals.{Decimals}
use astra_froge.Schemas.Signals.{
  SignalRecord, SignalLifecycle, same_lifecycle, ScannerCandidate, CandidateLifecycle,
  same_candidate_lifecycle,
}

module _ {N : Type 0} where
  -- `{candidate.candidate_id: candidate for candidate in candidates}.get(candidate_id)`: of several
  -- candidates with one id the last stands.
  unfoldable pub candidate_by_id : String → List (ScannerCandidate N) → Option (ScannerCandidate N)
  candidate_by_id id [] = none
  candidate_by_id id (candidate ∷ candidates) = elim (candidate_by_id id candidates) [
    | some later ↦ some later
    | none ↦ if candidate.candidate_id == id then some candidate else none
  ]

  abbrev pub is_qualified : ScannerCandidate N → Bool
  is_qualified candidate = same_candidate_lifecycle candidate.lifecycle CandidateLifecycle.qualified

-- `expiry is None or at >= expiry`
abbrev pub has_expired : Option ℕ → ℕ → Bool
has_expired none at = true
has_expired (some expiry) at = leb expiry at

abbrev pub is_run : Option String → String → Bool
is_run none run_id = false
is_run (some id) run_id = id == run_id

-- `risk_stop_price`, where the scanner has it.
abbrev pub expected_stop : {N : Type 0} → Option (String → Option N) → String → Option N
expected_stop none id = none
expected_stop (some stop_provider) id = stop_provider id

module _ {N : Type 0} (d : Decimals N) where
  -- `a == b`, for optional numbers
  abbrev pub same_price : Option N → Option N → Bool
  same_price none none = true
  same_price none (some b) = false
  same_price (some a) none = false
  same_price (some a) (some b) = d.eqb a b

  -- One active signal against its candidate.
  unfoldable pub revalidate_signal :
      String → ℕ → Option N → SignalRecord N → ScannerCandidate N → Result (Unit {0})
  revalidate_signal recovery_run_id recovery_at stop signal candidate = do
    raise_if (not (is_qualified candidate)) (recovery_failure "ACTIVE_SIGNAL_REVALIDATION_FAILED")
    raise_if (has_expired candidate.qualification_expires_at recovery_at)
        (recovery_failure "ACTIVE_SIGNAL_EXPIRED_DURING_RECOVERY")
    raise_if
        (not (same_direction signal.direction candidate.direction)
          || not (same_setup signal.setup candidate.setup))
        (recovery_failure "ACTIVE_SIGNAL_CONTRACT_MISMATCH")
    raise_if (not (same_candidate_lifecycle signal.scanner_lifecycle candidate.lifecycle))
        (recovery_failure "ACTIVE_SIGNAL_LIFECYCLE_MISMATCH")
    raise_if (not (d.eqb signal.entry_trigger_price candidate.entry_trigger_price))
        (recovery_failure "ACTIVE_SIGNAL_PLAN_VERSION_MISMATCH")
    raise_if (not (is_run signal.source_run_id recovery_run_id))
        (recovery_failure "ACTIVE_SIGNAL_NOT_CURRENT_RUN")
    raise_if (not (same_price signal.stop_loss_price stop))
        (recovery_failure "ACTIVE_SIGNAL_PLAN_VERSION_MISMATCH")

  -- `_revalidate_signals`
  unfoldable pub revalidate_signals :
      String
      → ℕ
      → Option (String → Option N)
      → List (ScannerCandidate N)
      → List (SignalRecord N)
      → Result (Unit {0})
  unfolding revalidate_signal
  revalidate_signals recovery_run_id recovery_at stop_provider candidates [] = ok tt
  revalidate_signals recovery_run_id recovery_at stop_provider candidates (signal ∷ signals) =
      let rest = revalidate_signals recovery_run_id recovery_at stop_provider candidates signals in
      if same_lifecycle signal.lifecycle SignalLifecycle.active
      then (or_raise (candidate_by_id signal.candidate_id candidates)
            (recovery_failure "ACTIVE_SIGNAL_REVALIDATION_FAILED")
          >>= λ candidate.
              revalidate_signal recovery_run_id recovery_at
                (expected_stop stop_provider candidate.candidate_id) signal candidate)
        >> rest
      else rest
