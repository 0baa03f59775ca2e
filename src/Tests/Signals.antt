-- ===== src/Tests/Signals.antt =====
-- The theorems on the store of signals, at one expired signal and the candidate that renews it.
use astra_froge.Common.{length, ◌≤◌, ℕ, String, ◌≡◌, refl, some, [], ◌∷◌, ok, arith}
use astra_froge.Schemas.Signals.{SignalLifecycle, SignalRecord}
use astra_froge.Signals.Records.{create_record, transition}
use astra_froge.Signals.Service.{
  SignalStore, ScannerView, refresh_records, synchronize, mark_risk_blocked,
}
use astra_froge.Signals.Audit.{AllAudited, synchronize-AllAudited}
use astra_froge.Signals.Blocking.{IsRecordOf, IsBlocking, mark_risk_blocked-IsBlocking}
use astra_froge.Signals.Finality.{HasEnded, synchronize-HasEnded}
use astra_froge.Tests.Market.{naturals, signal, candidate}

abbrev signal_id : String → String
signal_id id = "a"

abbrev strip : String → String
strip text = text

-- The candidate is QUALIFIED, but its signal has expired before.
abbrev expired_signal : SignalRecord ℕ
expired_signal = record signal {
  lifecycle = SignalLifecycle.expired;
  terminal_at = some 2;
  lifecycle_history =
      record {
        sequence = 1;
        lifecycle = SignalLifecycle.expired;
        changed_at = 2;
        reason = "SCANNER_EXPIRED";
      }
      ∷ [];
}

abbrev store : SignalStore ℕ
store = record {
  records_by_candidate = ("c", expired_signal) ∷ [];
  candidate_by_signal = ("a", "c") ∷ [];
}

abbrev view : ScannerView ℕ
view = record {
  candidates = candidate ∷ [];
  stop_of = λ id. some 90;
  latest_scanner_run_at = some 3;
}

store-AllAudited : AllAudited store.records_by_candidate
store-AllAudited =
    (record { numbered = (refl, tt); current = refl; versioned = omega arith; ended = refl }, tt)

synchronize-AllAudited_example :
    AllAudited (synchronize naturals signal_id 10 view store).records_by_candidate
synchronize-AllAudited_example =
    synchronize-AllAudited naturals signal_id 10 view store store-AllAudited

few_records : length (refresh_records naturals signal_id view store).records_by_candidate ≤ 10
unfolding refresh_records
few_records = omega arith

synchronize-HasEnded_example :
    HasEnded "c" SignalLifecycle.expired
      (synchronize naturals signal_id 10 view store).records_by_candidate
synchronize-HasEnded_example =
    synchronize-HasEnded naturals signal_id 10 view store "c" SignalLifecycle.expired refl
      (expired_signal, refl, refl) few_records

-- A new signal is blocked.
abbrev empty_store : SignalStore ℕ
empty_store = record { records_by_candidate = []; candidate_by_signal = [] }

abbrev blocked : SignalRecord ℕ
blocked =
    transition (create_record signal_id candidate (some 90) SignalLifecycle.active)
      SignalLifecycle.risk_blocked 9 "RISK"

abbrev blocked_store : SignalStore ℕ
blocked_store = record {
  records_by_candidate = ("c", blocked) ∷ [];
  candidate_by_signal = ("a", "c") ∷ [];
}

blocks :
    mark_risk_blocked naturals signal_id strip 10 view "a" "RISK" (some 9) empty_store
    ≡ (ok (some blocked), blocked_store)
unfolding mark_risk_blocked
blocks = refl

mark_risk_blocked-IsBlocking_example :
    (x : SignalRecord ℕ) × IsRecordOf "RISK"
      (some 9)
      "a"
      (synchronize naturals signal_id 10 view empty_store)
      x
    × IsBlocking "RISK"
        (some 9)
        (synchronize naturals signal_id 10 view empty_store)
        blocked_store
        x
        blocked
mark_risk_blocked-IsBlocking_example =
    mark_risk_blocked-IsBlocking naturals signal_id strip 10 view "a" "RISK" (some 9) empty_store
      blocked_store blocked blocks
