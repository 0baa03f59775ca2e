-- ===== src/Signals/Audit.antt =====
-- The store of signals keeps every history in order.
use astra_froge.Common.{
  ℕ, ◌-◌, length, String, Bool, true, false, not, ◌&&◌, ◌||◌, Option, none, some, List, [], ◌∷◌,
  map, if◌then◌else◌, ◌==◌, contains, ltb, Dict, lookup, put, remove, ◌≡◌, refl, inl, inr,
  Bool-cases, some_inj, subst,
}
use astra_froge.Schemas.Decimals.{Decimals}
use astra_froge.Schemas.Signals.{ScannerCandidate, SignalLifecycle, SignalRecord, same_lifecycle}
use astra_froge.Signals.Values.{is_terminal, map_lifecycle}
use astra_froge.Signals.Records.{update_record, create_record, transition}
use astra_froge.Signals.Histories.{
  IsAudited, create_record-IsAudited, transition-IsAudited, update_record-IsAudited,
}
use astra_froge.Signals.Service.{
  SignalStore, ScannerView, record_time, take, sorted, remove_records, prune_records,
  invalidate_missing, invalidate_at, sync_candidate, sync_candidates, refresh_records, synchronize,
}

module _ {N : Type 0} where
  -- Every record of the dictionary is audited.
  abbrev pub AllAudited : Dict (SignalRecord N) → Type 0
  AllAudited [] = Unit {0}
  AllAudited ((k, r) ∷ rest) = IsAudited r × AllAudited rest

  lookup-IsAudited :
      (key : String) (rs : Dict (SignalRecord N)) (r : SignalRecord N)
      → AllAudited rs
      → lookup key rs ≡ some r
      → IsAudited r
  lookup-IsAudited key [] r h e = cc
  lookup-IsAudited key ((k, x) ∷ rs) r h e = elim (Bool-cases (k == key)) [
    | inl same ↦ subst IsAudited (some_inj (rw same at e)) h.0
    | inr other ↦ lookup-IsAudited key rs r h.1 (rw other at e)
  ]

  put-AllAudited :
      (key : String) (r : SignalRecord N) (rs : Dict (SignalRecord N))
      → IsAudited r
      → AllAudited rs
      → AllAudited (put key r rs)
  put-AllAudited key r [] a h = (a, tt)
  put-AllAudited key r ((k, x) ∷ rs) a h = elim (Bool-cases (k == key)) [
    | inl same ↦ rw same (a, h.1)
    | inr other ↦ rw other (h.0, put-AllAudited key r rs a h.1)
  ]

  remove-AllAudited :
      (key : String) (rs : Dict (SignalRecord N)) → AllAudited rs → AllAudited (remove key rs)
  remove-AllAudited key [] h = tt
  remove-AllAudited key ((k, x) ∷ rs) h = elim (Bool-cases (k == key)) [
    | inl same ↦ rw same h.1
    | inr other ↦ rw other (h.0, remove-AllAudited key rs h.1)
  ]

  remove_records-AllAudited :
      (rs : List (SignalRecord N)) (s : SignalStore N)
      → AllAudited s.records_by_candidate
      → AllAudited (remove_records rs s).records_by_candidate
  remove_records-AllAudited [] s h = h
  remove_records-AllAudited (r ∷ rs) s h =
      remove_records-AllAudited rs _ (remove-AllAudited r.candidate_id s.records_by_candidate h)

  prune_records-AllAudited :
      (record_limit : ℕ) (s : SignalStore N)
      → AllAudited s.records_by_candidate
      → AllAudited (prune_records record_limit s).records_by_candidate
  unfolding prune_records
  prune_records-AllAudited record_limit s h =
      remove_records-AllAudited
        (take (length s.records_by_candidate - record_limit)
          (sorted (map (λ (e : String × SignalRecord N). e.1) s.records_by_candidate)))
        s h

  invalidate_missing-AllAudited :
      (seen : List String) (at : ℕ) (rs : Dict (SignalRecord N))
      → AllAudited rs
      → AllAudited (invalidate_missing seen at rs)
  unfolding invalidate_missing
  invalidate_missing-AllAudited seen at [] h = tt
  invalidate_missing-AllAudited seen at ((k, r) ∷ rs) h = (
    kept (contains seen k || is_terminal r.lifecycle || ltb at (record_time r)),
    invalidate_missing-AllAudited seen at rs h.1,
  )
    where
      kept :
          (b : Bool)
          → IsAudited (
              if b
              then r
              else transition r SignalLifecycle.invalidated at "SOURCE_CANDIDATE_MISSING")
      kept true = h.0
      kept false =
          transition-IsAudited r SignalLifecycle.invalidated at "SOURCE_CANDIDATE_MISSING" h.0

  invalidate_at-AllAudited :
      (seen : List String) (at : Option ℕ) (rs : Dict (SignalRecord N))
      → AllAudited rs
      → AllAudited (invalidate_at seen at rs)
  invalidate_at-AllAudited seen none rs h = h
  invalidate_at-AllAudited seen (some at) rs h = invalidate_missing-AllAudited seen at rs h

module _ {N : Type 0} (d : Decimals N) (signal_id : String → String) where
  sync_candidate-AllAudited :
      (candidate : ScannerCandidate N) (stop : Option N) (found : Option (SignalRecord N))
      (s : SignalStore N)
      → lookup candidate.candidate_id s.records_by_candidate ≡ found
      → AllAudited s.records_by_candidate
      → AllAudited (sync_candidate d signal_id candidate stop found s).records_by_candidate
  unfolding sync_candidate
  sync_candidate-AllAudited candidate stop none s e h =
      put-AllAudited candidate.candidate_id
        (create_record signal_id candidate stop (map_lifecycle candidate.lifecycle))
        s.records_by_candidate
        (create_record-IsAudited signal_id candidate stop (map_lifecycle candidate.lifecycle)) h
  sync_candidate-AllAudited candidate stop (some r) s e h =
      guarded
        (is_terminal r.lifecycle
          && not (same_lifecycle (map_lifecycle candidate.lifecycle) r.lifecycle))
        refl
    where
      next : SignalStore N
      next = record s {
        records_by_candidate =
            put candidate.candidate_id
              (update_record d r candidate stop (map_lifecycle candidate.lifecycle))
              s.records_by_candidate;
      }

      guarded :
          (b : Bool)
          → (is_terminal r.lifecycle
              && not (same_lifecycle (map_lifecycle candidate.lifecycle) r.lifecycle))
            ≡ b
          → AllAudited (if b then s else next).records_by_candidate
      guarded true g = h
      guarded false g =
          put-AllAudited candidate.candidate_id
            (update_record d r candidate stop (map_lifecycle candidate.lifecycle))
            s.records_by_candidate
            (update_record-IsAudited d r candidate stop (map_lifecycle candidate.lifecycle) g
              (lookup-IsAudited candidate.candidate_id s.records_by_candidate r h e))
            h

  sync_candidates-AllAudited :
      (stop_of : String → Option N) (candidates : List (ScannerCandidate N)) (s : SignalStore N)
      → AllAudited s.records_by_candidate
      → AllAudited (sync_candidates d signal_id stop_of candidates s).records_by_candidate
  unfolding sync_candidates
  sync_candidates-AllAudited stop_of [] s h = h
  sync_candidates-AllAudited stop_of (c ∷ cs) s h = sync_candidates-AllAudited stop_of cs _ (
      sync_candidate-AllAudited c (stop_of c.candidate_id)
        (lookup c.candidate_id s.records_by_candidate) s refl h)

  -- A synchronization with the scanner keeps every record audited: its history is numbered from 1
  -- without a gap and ends at its lifecycle, its version is at least the history's length, and it has
  -- a terminal time exactly where its lifecycle is terminal.
  pub synchronize-AllAudited :
      (record_limit : ℕ) (view : ScannerView N) (s : SignalStore N)
      → AllAudited s.records_by_candidate
      → AllAudited (synchronize d signal_id record_limit view s).records_by_candidate
  unfolding synchronize refresh_records
  synchronize-AllAudited record_limit view s h =
      prune_records-AllAudited record_limit (refresh_records d signal_id view s) (
        invalidate_at-AllAudited (map (λ (c : ScannerCandidate N). c.candidate_id) view.candidates)
          view.latest_scanner_run_at
          (sync_candidates d signal_id view.stop_of view.candidates s).records_by_candidate
          (sync_candidates-AllAudited view.stop_of view.candidates s h))
