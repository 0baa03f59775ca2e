-- ===== src/Signals/Service.antt =====
-- `SignalService`: the records by candidate, in step with the scanner.
use Prim.Native.Nat.{Ordering}
use Prim.Native.String.{compare}
use astra_froge.Common.{
  ℕ, ◌-◌, String, Bool, true, false, not, ◌&&◌, ◌||◌, Option, none, some, List, [], ◌∷◌, length,
  map, if◌then◌else◌, ◌==◌, contains, ltb, eqb, Dict, lookup, put, remove, Result, ok, err,
  value_error, zero, suc,
}
use astra_froge.Schemas.Decimals.{Decimals}
use astra_froge.Schemas.Signals.{ScannerCandidate, SignalLifecycle, SignalRecord, same_lifecycle}
use astra_froge.Signals.Values.{is_terminal, map_lifecycle}
use astra_froge.Signals.Records.{create_record, update_record, transition}

-- `_records_by_candidate` and `_candidate_by_signal`
pub record SignalStore (N : Type 0) : Type 0 where
  pub records_by_candidate : Dict (SignalRecord N)
  pub candidate_by_signal : Dict String

-- What the scanner says: its candidates, their stops, and when its latest run completed, if it did.
pub record ScannerView (N : Type 0) : Type 0 where
  pub candidates : List (ScannerCandidate N)
  pub stop_of : String → Option N
  pub latest_scanner_run_at : Option ℕ

-- `a or b`
abbrev pub or_time : Option ℕ → ℕ → ℕ
or_time none b = b
or_time (some a) b = a

abbrev pub or_later : Option ℕ → Option ℕ → Option ℕ
or_later none b = b
or_later (some a) b = some a

-- `prune_rank`
abbrev pub prune_rank : SignalLifecycle → ℕ
prune_rank SignalLifecycle.active = 2
prune_rank SignalLifecycle.watch = 1
prune_rank _ = 0

abbrev pub is_before_text : String → String → Bool
is_before_text a b = elim (compare a b) [ Ordering.lt ↦ true | _ ↦ false ]

module _ {N : Type 0} where
  abbrev pub record_time : SignalRecord N → ℕ
  record_time r = or_time r.updated_at r.evaluated_at

  -- The time of `_retention_order`.
  abbrev pub retention_time : SignalRecord N → ℕ
  retention_time r = or_time (or_later r.terminal_at r.updated_at) r.evaluated_at

  -- The order of the keys of `_prune_records`.
  abbrev pub is_pruned_before : SignalRecord N → SignalRecord N → Bool
  is_pruned_before a b =
      ltb (prune_rank a.lifecycle) (prune_rank b.lifecycle)
      || eqb (prune_rank a.lifecycle) (prune_rank b.lifecycle)
        && (ltb (retention_time a) (retention_time b)
            || eqb (retention_time a) (retention_time b) && is_before_text a.signal_id b.signal_id)

  -- `sorted`: stable, so that of equal keys the earlier one stands first.
  unfoldable pub insert_sorted : SignalRecord N → List (SignalRecord N) → List (SignalRecord N)
  insert_sorted r [] = r ∷ []
  insert_sorted r (x ∷ xs) = if is_pruned_before x r then x ∷ insert_sorted r xs else r ∷ x ∷ xs

  unfoldable pub sorted : List (SignalRecord N) → List (SignalRecord N)
  unfolding insert_sorted
  sorted [] = []
  sorted (r ∷ rs) = insert_sorted r (sorted rs)

  -- `records[:n]`
  abbrev pub take : ℕ → List (SignalRecord N) → List (SignalRecord N)
  take _ [] = []
  take zero (_ ∷ _) = []
  take (suc n) (r ∷ rs) = r ∷ take n rs

  abbrev pub remove_records : List (SignalRecord N) → SignalStore N → SignalStore N
  remove_records [] s = s
  remove_records (r ∷ rs) s = remove_records rs (record s {
    records_by_candidate = remove r.candidate_id s.records_by_candidate;
    candidate_by_signal = remove r.signal_id s.candidate_by_signal;
  })

  -- `_prune_records`; the subtraction stops at 0, where nothing is removed.
  unfoldable pub prune_records : ℕ → SignalStore N → SignalStore N
  unfolding sorted
  prune_records record_limit s =
      remove_records
        (take (length s.records_by_candidate - record_limit)
          (sorted (map (λ e. e.1) s.records_by_candidate)))
        s

  -- The records that the latest run has lost sight of.
  unfoldable pub invalidate_missing :
      List String → ℕ → Dict (SignalRecord N) → Dict (SignalRecord N)
  unfolding transition
  invalidate_missing seen at [] = []
  invalidate_missing seen at ((candidate_id, r) ∷ rest) =
      (
        candidate_id,
        if contains seen candidate_id || is_terminal r.lifecycle || ltb at (record_time r)
            then r
            else transition r SignalLifecycle.invalidated at "SOURCE_CANDIDATE_MISSING",
      )
      ∷ invalidate_missing seen at rest

  abbrev pub invalidate_at : List String → Option ℕ → Dict (SignalRecord N) → Dict (SignalRecord N)
  invalidate_at seen none records = records
  invalidate_at seen (some at) records = invalidate_missing seen at records

module _ {N : Type 0} (d : Decimals N) (signal_id : String → String) where
  -- One candidate of the scanner against the record that it has, if any.
  unfoldable pub sync_candidate :
      ScannerCandidate N → Option N → Option (SignalRecord N) → SignalStore N → SignalStore N
  unfolding create_record update_record
  sync_candidate candidate stop none s =
      let created = create_record signal_id candidate stop (map_lifecycle candidate.lifecycle) in
      record {
        records_by_candidate = put candidate.candidate_id created s.records_by_candidate;
        candidate_by_signal = put created.signal_id candidate.candidate_id s.candidate_by_signal;
      }
  sync_candidate candidate stop (some existing) s =
      let lifecycle = map_lifecycle candidate.lifecycle in
      if is_terminal existing.lifecycle && not (same_lifecycle lifecycle existing.lifecycle)
      then s
      else record s {
        records_by_candidate =
            put candidate.candidate_id (update_record d existing candidate stop lifecycle)
              s.records_by_candidate;
      }

  -- The loop over the candidates.
  unfoldable pub sync_candidates :
      (String → Option N) → List (ScannerCandidate N) → SignalStore N → SignalStore N
  unfolding sync_candidate
  sync_candidates stop_of [] s = s
  sync_candidates stop_of (candidate ∷ candidates) s = sync_candidates stop_of candidates (
      sync_candidate candidate (stop_of candidate.candidate_id)
        (lookup candidate.candidate_id s.records_by_candidate) s)

  -- `_synchronize` up to the pruning.
  unfoldable pub refresh_records : ScannerView N → SignalStore N → SignalStore N
  unfolding sync_candidates invalidate_missing
  refresh_records view s =
      let synced = sync_candidates view.stop_of view.candidates s in
      record synced {
        records_by_candidate =
            invalidate_at (map (λ (c : ScannerCandidate N). c.candidate_id) view.candidates)
              view.latest_scanner_run_at synced.records_by_candidate;
      }

  -- `_synchronize`
  unfoldable pub synchronize : ℕ → ScannerView N → SignalStore N → SignalStore N
  unfolding refresh_records prune_records
  synchronize record_limit view s = prune_records record_limit (refresh_records view s)

  -- The record of a signal, without a synchronization.
  abbrev pub record_of : Option String → SignalStore N → Option (SignalRecord N)
  record_of none s = none
  record_of (some candidate_id) s = lookup candidate_id s.records_by_candidate

  -- `get`
  unfoldable pub get :
      ℕ → ScannerView N → String → SignalStore N → Option (SignalRecord N) × SignalStore N
  unfolding synchronize
  get record_limit view id s =
      let synced = synchronize record_limit view s in
      (record_of (lookup id synced.candidate_by_signal) synced, synced)

  -- The record that was found, blocked for its risk.
  unfoldable pub block_record :
      String
      → Option ℕ
      → Option (SignalRecord N) × SignalStore N
      → Option (SignalRecord N) × SignalStore N
  unfolding transition
  block_record reason changed_at (none, s) = (none, s)
  block_record reason changed_at (some existing, s) =
      let updated =
        transition existing SignalLifecycle.risk_blocked (or_time changed_at (record_time existing))
          reason in
      if is_terminal existing.lifecycle then (some existing, s) else (
        some updated,
        record s {
          records_by_candidate = put existing.candidate_id updated s.records_by_candidate;
        },
      )

  -- `mark_risk_blocked`
  unfoldable pub mark_risk_blocked :
      (String → String)
      → ℕ
      → ScannerView N
      → String
      → String
      → Option ℕ
      → SignalStore N
      → Result (Option (SignalRecord N)) × SignalStore N
  unfolding get block_record
  mark_risk_blocked strip record_limit view id reason changed_at s =
      let (found, s') = block_record (strip reason) changed_at (get record_limit view id s) in
      if strip reason == ""
      then (err (value_error "Risk block reason is required"), s)
      else (ok found, s')
