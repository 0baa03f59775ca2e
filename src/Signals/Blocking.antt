-- ===== src/Signals/Blocking.antt =====
-- What `mark_risk_blocked` does to the store.
use astra_froge.Common.{
  ℕ, ◌+◌, String, Bool, true, false, Option, none, some, ◌==◌, lookup, put, lookup-put,
  lookup-put_other, Result, ok, err, value_error, if◌then◌else◌, ◌≡◌, ◌⊎◌, refl, sym, ap, inl, inr,
  Bool-cases, Option-cases, arith, some_inj, subst,
}
use astra_froge.Schemas.Decimals.{Decimals}
use astra_froge.Schemas.Signals.{SignalLifecycle, SignalRecord, same_lifecycle}
use astra_froge.Signals.Values.{is_terminal}
use astra_froge.Signals.Records.{transition, extended}
use astra_froge.Signals.Service.{
  SignalStore, ScannerView, or_time, record_time, synchronize, record_of, get, block_record,
  mark_risk_blocked,
}

module _ {N : Type 0} (reason : String) (changed_at : Option ℕ) where
  -- The record that a block makes of one that was open.
  pub record IsBlocked (existing r : SignalRecord N) : Type 0 where
    pub lifecycle : r.lifecycle ≡ SignalLifecycle.risk_blocked
    pub ended : r.terminal_at ≡ some (or_time changed_at (record_time existing))
    pub version : r.version ≡ existing.version + 1
    pub history :
        r.lifecycle_history
        ≡ extended existing.lifecycle_history SignalLifecycle.risk_blocked
            (or_time changed_at (record_time existing))
            reason
    pub same_signal : r.signal_id ≡ existing.signal_id

  -- The two outcomes for a signal that the store has. A terminal record is returned as it is, and the
  -- store does not change. One that is not is blocked, returned and stored, and nothing else changes.
  abbrev pub IsBlocking : SignalStore N → SignalStore N → SignalRecord N → SignalRecord N → Type 0
  IsBlocking before after existing r =
      ((is_terminal existing.lifecycle ≡ true) × (r ≡ existing) × (after ≡ before))
      ⊎ ((is_terminal existing.lifecycle ≡ false)
          × IsBlocked existing r
          × (lookup existing.candidate_id after.records_by_candidate ≡ some r)
          × ((key : String)
              → (existing.candidate_id == key) ≡ false
              → lookup key after.records_by_candidate ≡ lookup key before.records_by_candidate)
          × (after.candidate_by_signal ≡ before.candidate_by_signal))

  -- The record that the store has of a signal.
  pub record IsRecordOf (id : String) (s : SignalStore N) (existing : SignalRecord N) : Type 0 where
    pub candidate_id : String
    pub named : lookup id s.candidate_by_signal ≡ some candidate_id
    pub stored : lookup candidate_id s.records_by_candidate ≡ some existing

  transition-IsBlocked :
      (existing : SignalRecord N)
      → is_terminal existing.lifecycle ≡ false
      → IsBlocked existing (
          transition existing SignalLifecycle.risk_blocked
            (or_time changed_at (record_time existing))
            reason)
  unfolding transition
  transition-IsBlocked existing open_signal =
      simp (not_blocked existing.lifecycle open_signal) (record {
        lifecycle = refl;
        ended = refl;
        version = refl;
        history = refl;
        same_signal = refl;
      })
    where
      not_blocked :
          (l : SignalLifecycle)
          → is_terminal l ≡ false
          → same_lifecycle l SignalLifecycle.risk_blocked ≡ false
      not_blocked l h = ground arith

module _ {N : Type 0} (d : Decimals N) (signal_id : String → String) where
  block_record-IsBlocking :
      (reason : String) (changed_at : Option ℕ) (x r : SignalRecord N) (s s' : SignalStore N)
      → block_record d signal_id reason changed_at (some x, s) ≡ (some r, s')
      → IsBlocking reason changed_at s s' x r
  unfolding block_record
  block_record-IsBlocking reason changed_at x r s s' h =
      elim (Bool-cases (is_terminal x.lifecycle)) [
        | inl over ↦
            let e : ◌≡◌ {A = Option (SignalRecord N) × SignalStore N} (some x, s) (some r, s') =
              rw over at h in
            inl (
              over,
              some_inj (ap (λ (p : Option (SignalRecord N) × SignalStore N). p.0) (sym e)),
              ap (λ (p : Option (SignalRecord N) × SignalStore N). p.1) (sym e),
            )
        | inr going ↦
            let e : ◌≡◌ {A = Option (SignalRecord N) × SignalStore N} (some blocked, stored)
                (some r, s') =
              rw going at h in
            let same = some_inj (ap (λ (p : Option (SignalRecord N) × SignalStore N). p.0) e) in
            let after = ap (λ (p : Option (SignalRecord N) × SignalStore N). p.1) e in
            subst (λ (y : SignalRecord N). IsBlocking reason changed_at s s' x y) same
              (subst (λ (t : SignalStore N). IsBlocking reason changed_at s t x blocked) after
                (inr (
                  going,
                  transition-IsBlocked reason changed_at x going,
                  lookup-put x.candidate_id blocked s.records_by_candidate,
                  (λ key apart.
                      lookup-put_other x.candidate_id key blocked s.records_by_candidate apart),
                  refl,
                )))
      ]
    where
      blocked : SignalRecord N
      blocked =
          transition x SignalLifecycle.risk_blocked (or_time changed_at (record_time x)) reason

      stored : SignalStore N
      stored = record s { records_by_candidate = put x.candidate_id blocked s.records_by_candidate }

  found-IsBlocking :
      (id reason : String) (changed_at : Option ℕ) (s s' : SignalStore N) (r : SignalRecord N)
      (named : Option String)
      → lookup id s.candidate_by_signal ≡ named
      → block_record d signal_id reason changed_at (record_of d signal_id named s, s) ≡ (some r, s')
      → (x : SignalRecord N) × IsRecordOf reason changed_at id s x
        × IsBlocking reason changed_at s s' x r
  unfolding block_record
  found-IsBlocking id reason changed_at s s' r none e h = cc
  found-IsBlocking id reason changed_at s s' r (some key) e h =
      elim (Option-cases (lookup key s.records_by_candidate)) [
        | inl absent ↦ cc (rw absent at h)
        | inr (x, there) ↦ (
          x,
          record { candidate_id = key; named = e; stored = there },
          block_record-IsBlocking reason changed_at x r s s' (rw there at h),
        )
      ]

  -- When `mark_risk_blocked` returns a record, the synchronized store had a record of that signal. If
  -- it was terminal, it is returned and the store is left so. If not, the record that is returned is
  -- risk-blocked, with its terminal time, its next version and one more entry of history; it is
  -- stored, and no other record is changed.
  pub mark_risk_blocked-IsBlocking :
      (strip : String → String) (record_limit : ℕ) (view : ScannerView N) (id reason : String)
      (changed_at : Option ℕ) (s s' : SignalStore N) (r : SignalRecord N)
      → mark_risk_blocked d signal_id strip record_limit view id reason changed_at s
        ≡ (ok (some r), s')
      → (let synced = synchronize d signal_id record_limit view s in
          (x : SignalRecord N) × IsRecordOf (strip reason) changed_at id synced x
          × IsBlocking (strip reason) changed_at synced s' x r)
  unfolding mark_risk_blocked get
  mark_risk_blocked-IsBlocking strip record_limit view id reason changed_at s s' r h =
      let synced = synchronize d signal_id record_limit view s in
      found-IsBlocking id (strip reason) changed_at synced s' r
        (lookup id synced.candidate_by_signal) refl
        (named (strip reason == "")
          (block_record d signal_id (strip reason) changed_at
            (record_of d signal_id (lookup id synced.candidate_by_signal) synced, synced))
          h)
    where
      named :
          (blank : Bool) (p : Option (SignalRecord N) × SignalStore N)
          → ◌≡◌ {A = Result (Option (SignalRecord N)) × SignalStore N}
              (if blank
                then (err (value_error "Risk block reason is required"), s)
                else (ok p.0, p.1))
              (ok (some r), s')
          → p ≡ (some r, s')
      named true p e = cc
      named false (o, t) e = cc
