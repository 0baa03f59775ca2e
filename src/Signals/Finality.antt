-- ===== src/Signals/Finality.antt =====
-- A terminal signal stays terminal under the scanner, as long as its record is not pruned.
use astra_froge.Common.{
  ◌-◌, ◌≤◌, length, ℕ, String, Bool, true, false, not, ◌&&◌, ◌||◌, Option, none, some, List, [],
  ◌∷◌, map, if◌then◌else◌, ◌==◌, contains, ltb, Dict, lookup, put, lookup-put, lookup-put_other,
  ==_iff, ◌≡◌, refl, sym, ap, ◌∙◌, inl, inr, Bool-cases, arith, some_inj, subst,
}
use astra_froge.Schemas.Decimals.{Decimals}
use astra_froge.Schemas.Signals.{ScannerCandidate, SignalLifecycle, SignalRecord, same_lifecycle}
use astra_froge.Signals.Values.{is_terminal, map_lifecycle, same_values}
use astra_froge.Signals.Records.{update_record, changed_record, create_record, transition}
use astra_froge.Signals.Histories.{same_lifecycle_eq}
use astra_froge.Signals.Service.{
  SignalStore, ScannerView, record_time, invalidate_missing, invalidate_at, sync_candidate,
  sync_candidates, refresh_records, take, sorted, remove_records, prune_records, synchronize,
}

module _ {N : Type 0} where
  take_none : (k : ℕ) (rs : List (SignalRecord N)) → k ≡ 0 → take k rs ≡ []
  take_none k [] e = refl
  take_none k (r ∷ rs) e = subst (λ (n : ℕ). take n (r ∷ rs) ≡ []) (sym e) refl

  -- The dictionary has a record of the key, in the lifecycle.
  abbrev pub HasEnded : String → SignalLifecycle → Dict (SignalRecord N) → Type 0
  HasEnded key l rs = (r : SignalRecord N) × (lookup key rs ≡ some r) × (r.lifecycle ≡ l)

  put-HasEnded :
      (key other : String) (l : SignalLifecycle) (x : SignalRecord N) (rs : Dict (SignalRecord N))
      → (other ≡ key → x.lifecycle ≡ l)
      → HasEnded key l rs
      → HasEnded key l (put other x rs)
  put-HasEnded key other l x rs f (r, found, e) = elim (Bool-cases (other == key)) [
    | inl same ↦
        let at = (==_iff other key).0 same in
        (x, subst (λ k. lookup k (put other x rs) ≡ some x) at (lookup-put other x rs), f at)
    | inr apart ↦ (r, lookup-put_other other key x rs apart ∙ found, e)
  ]

  invalidate_missing-HasEnded :
      (seen : List String) (at : ℕ) (key : String) (l : SignalLifecycle)
      (rs : Dict (SignalRecord N))
      → is_terminal l ≡ true
      → HasEnded key l rs
      → HasEnded key l (invalidate_missing seen at rs)
  unfolding invalidate_missing
  invalidate_missing-HasEnded seen at key l [] over (r, found, e) = cc
  invalidate_missing-HasEnded seen at key l ((k, x) ∷ rs) over (r, found, e) =
      elim (Bool-cases (k == key)) [
        | inl same ↦
            let here = some_inj (rw same at found) in
            (
              kept (contains seen k || is_terminal x.lifecycle || ltb at (record_time x)) x,
              rw same,
              stays x (contains seen k) (ltb at (record_time x))
                  (ap (λ (y : SignalRecord N). y.lifecycle) here ∙ e),
            )
        | inr other ↦
            let (r', found', e') =
              invalidate_missing-HasEnded seen at key l rs over (r, rw other at found, e) in
            (r', rw other found', e')
      ]
    where
      kept : Bool → SignalRecord N → SignalRecord N
      kept b x =
          if b then x else transition x SignalLifecycle.invalidated at "SOURCE_CANDIDATE_MISSING"

      any_true : (a t b : Bool) → t ≡ true → (a || t || b) ≡ true
      any_true a t b h = ground arith

      stays :
          (x : SignalRecord N) (a b : Bool)
          → x.lifecycle ≡ l
          → (kept (a || is_terminal x.lifecycle || b) x).lifecycle ≡ l
      stays x a b h =
          subst (λ (t : Bool). (kept t x).lifecycle ≡ l)
            (sym (any_true a (is_terminal x.lifecycle) b (ap is_terminal h ∙ over))) h

  invalidate_at-HasEnded :
      (seen : List String) (at : Option ℕ) (key : String) (l : SignalLifecycle)
      (rs : Dict (SignalRecord N))
      → is_terminal l ≡ true
      → HasEnded key l rs
      → HasEnded key l (invalidate_at seen at rs)
  invalidate_at-HasEnded seen none key l rs over h = h
  invalidate_at-HasEnded seen (some at) key l rs over h =
      invalidate_missing-HasEnded seen at key l rs over h

module _ {N : Type 0} (d : Decimals N) (signal_id : String → String) where
  update_record_keeps :
      (r : SignalRecord N) (candidate : ScannerCandidate N) (stop : Option N)
      (lifecycle : SignalLifecycle)
      → lifecycle ≡ r.lifecycle
      → (update_record d r candidate stop lifecycle).lifecycle ≡ r.lifecycle
  unfolding update_record
  update_record_keeps r candidate stop lifecycle e =
      chosen (same_values d r candidate stop lifecycle)
    where
      chosen :
          (same : Bool)
          → (if same
              then r
              else changed_record d r candidate stop lifecycle
                  (same_lifecycle lifecycle r.lifecycle)).lifecycle
            ≡ r.lifecycle
      chosen true = refl
      chosen false = e

  sync_candidate-HasEnded :
      (candidate : ScannerCandidate N) (stop : Option N) (found : Option (SignalRecord N))
      (s : SignalStore N) (key : String) (l : SignalLifecycle)
      → lookup candidate.candidate_id s.records_by_candidate ≡ found
      → is_terminal l ≡ true
      → HasEnded key l s.records_by_candidate
      → HasEnded key l (sync_candidate d signal_id candidate stop found s).records_by_candidate
  unfolding sync_candidate
  sync_candidate-HasEnded candidate stop none s key l absent over (r, there, e) =
      put-HasEnded key candidate.candidate_id l
        (create_record signal_id candidate stop (map_lifecycle candidate.lifecycle))
        s.records_by_candidate
        (λ at. absurd (none_ne (sym absent ∙ ap (λ k. lookup k s.records_by_candidate) at ∙ there)))
        (r, there, e)
    where
      none_ne : {x : SignalRecord N} → none ≡ some x → ⊥
      none_ne h = cc
  sync_candidate-HasEnded candidate stop (some x) s key l present over (r, there, e) =
      guarded
        (is_terminal x.lifecycle
          && not (same_lifecycle (map_lifecycle candidate.lifecycle) x.lifecycle))
        refl
    where
      next : SignalStore N
      next = record s {
        records_by_candidate =
            put candidate.candidate_id
              (update_record d x candidate stop (map_lifecycle candidate.lifecycle))
              s.records_by_candidate;
      }

      same_of : (t same : Bool) → t ≡ true → (t && not same) ≡ false → same ≡ true
      same_of t same h g = ground arith

      guarded :
          (b : Bool)
          → (is_terminal x.lifecycle
              && not (same_lifecycle (map_lifecycle candidate.lifecycle) x.lifecycle))
            ≡ b
          → HasEnded key l (if b then s else next).records_by_candidate
      guarded true g = (r, there, e)
      guarded false g =
          put-HasEnded key candidate.candidate_id l
            (update_record d x candidate stop (map_lifecycle candidate.lifecycle))
            s.records_by_candidate
            (λ at.
              let own =
                ap (λ (y : SignalRecord N). y.lifecycle)
                  (some_inj (sym present ∙ ap (λ k. lookup k s.records_by_candidate) at ∙ there))
                ∙ e in
              update_record_keeps x candidate stop (map_lifecycle candidate.lifecycle) (
                same_lifecycle_eq (map_lifecycle candidate.lifecycle) x.lifecycle (
                  same_of (is_terminal x.lifecycle)
                    (same_lifecycle (map_lifecycle candidate.lifecycle) x.lifecycle)
                    (ap is_terminal own ∙ over) g))
              ∙ own)
            (r, there, e)

  sync_candidates-HasEnded :
      (stop_of : String → Option N) (candidates : List (ScannerCandidate N)) (s : SignalStore N)
      (key : String) (l : SignalLifecycle)
      → is_terminal l ≡ true
      → HasEnded key l s.records_by_candidate
      → HasEnded key l (sync_candidates d signal_id stop_of candidates s).records_by_candidate
  unfolding sync_candidates
  sync_candidates-HasEnded stop_of [] s key l over h = h
  sync_candidates-HasEnded stop_of (c ∷ cs) s key l over h =
      sync_candidates-HasEnded stop_of cs
        (sync_candidate d signal_id c (stop_of c.candidate_id)
          (lookup c.candidate_id s.records_by_candidate) s)
        key l over
        (sync_candidate-HasEnded c (stop_of c.candidate_id)
          (lookup c.candidate_id s.records_by_candidate) s key l refl over h)

  -- The scanner's candidates and the end of its latest run keep a terminal record.
  refresh_records-HasEnded :
      (view : ScannerView N) (s : SignalStore N) (key : String) (l : SignalLifecycle)
      → is_terminal l ≡ true
      → HasEnded key l s.records_by_candidate
      → HasEnded key l (refresh_records d signal_id view s).records_by_candidate
  unfolding refresh_records
  refresh_records-HasEnded view s key l over h =
      invalidate_at-HasEnded (map (λ (c : ScannerCandidate N). c.candidate_id) view.candidates)
        view.latest_scanner_run_at key l
        (sync_candidates d signal_id view.stop_of view.candidates s).records_by_candidate over
        (sync_candidates-HasEnded view.stop_of view.candidates s key l over h)

  -- A record in a terminal lifecycle is still there, in that lifecycle, after a synchronization that
  -- has no more records than the limit, so that it prunes none.
  pub synchronize-HasEnded :
      (record_limit : ℕ) (view : ScannerView N) (s : SignalStore N) (key : String)
      (l : SignalLifecycle)
      → is_terminal l ≡ true
      → HasEnded key l s.records_by_candidate
      → length (refresh_records d signal_id view s).records_by_candidate ≤ record_limit
      → HasEnded key l (synchronize d signal_id record_limit view s).records_by_candidate
  unfolding synchronize prune_records
  synchronize-HasEnded record_limit view s key l over h few =
      subst
        (λ (rs : List (SignalRecord N)).
          HasEnded key l
            (remove_records rs (refresh_records d signal_id view s)).records_by_candidate)
        (sym (
          take_none
            (length (refresh_records d signal_id view s).records_by_candidate - record_limit)
            (sorted (
              map (λ (e : String × SignalRecord N). e.1)
                (refresh_records d signal_id view s).records_by_candidate))
            (omega arith)))
        (refresh_records-HasEnded view s key l over h)
