-- ===== src/Decisions/Eligible.antt =====
-- What a decision promises: it is always consistent, and READY only on clean facts.
use astra_froge.Common.{
  ℕ, String, Bool, true, false, not, ◌&&◌, Option, List, [], ◌∷◌, leb, ok, ◌≡◌, refl, sym, ap, ◌∙◌,
  subst, arith, ok_inj, false≢true,
}
use astra_froge.Schemas.Decimals.{Decimals}
use astra_froge.Schemas.Signals.{ScannerCandidate, SignalDecisionStatus, SignalDecision}
use astra_froge.Decisions.Decide
use astra_froge.Decisions.Rejections.{append_if-nil, lifecycle_reason-nil, sort_codes-nil}

module _ {N : Type 0} where
  valid_ready :
      (x : SignalDecision N)
      → x.decision_status ≡ SignalDecisionStatus.ready
      → x.is_ready ≡ true
      → x.selected ≡ true
      → Decide.is_trigger_ready x.entry_trigger_status ≡ true
      → Decide.is_top_grade x.grade ≡ true
      → x.rejection_reasons ≡ []
      → x.fresh ≡ true
      → Decide.validate_consistent_state x ≡ ok x
  unfolding Decide.validate_consistent_state
  valid_ready x status ready selected trigger grade clean fresh = ground arith

  valid_near :
      (x : SignalDecision N)
      → x.decision_status ≡ SignalDecisionStatus.near_setup
      → x.is_ready ≡ false
      → x.selected ≡ false
      → x.rejection_reasons ≡ []
      → Decide.validate_consistent_state x ≡ ok x
  unfolding Decide.validate_consistent_state
  valid_near x status ready selected clean = ground arith

  valid_rejected :
      (x : SignalDecision N)
      → x.decision_status ≡ SignalDecisionStatus.rejected
      → x.is_ready ≡ false
      → x.selected ≡ false
      → Decide.is_empty x.rejection_reasons ≡ false
      → Decide.validate_consistent_state x ≡ ok x
  unfolding Decide.validate_consistent_state
  valid_rejected x status ready selected dirty = ground arith

module _ {N : Type 0} (d : Decimals N) where
  eligible_parts :
      (rejected : List String) (c : ScannerCandidate N)
      → Decide.is_eligible d rejected c ≡ true
      → ((Decide.is_empty rejected && not c.stale) ≡ true)
        × (Decide.is_top_grade c.grade ≡ true)
        × ((Decide.is_at_least c.score 85 && Decide.is_at_least c.confidence 70) ≡ true)
        × (Decide.is_trigger_ready (Decide.trigger_status d c) ≡ true)
  eligible_parts rejected c h =
      parts (Decide.is_empty rejected && not c.stale) (Decide.is_top_grade c.grade)
        (Decide.is_at_least c.score 85 && Decide.is_at_least c.confidence 70)
        (Decide.is_trigger_ready (Decide.trigger_status d c)) h
    where
      parts :
          (fresh grade numbers trigger : Bool)
          → (fresh && grade && numbers && trigger) ≡ true
          → (fresh ≡ true) × (grade ≡ true) × (numbers ≡ true) × (trigger ≡ true)
      parts true true true true h = (refl, refl, refl, refl)
      parts true true true false h = absurd (false≢true h)
      parts true true false trigger h = absurd (false≢true h)
      parts true false numbers trigger h = absurd (false≢true h)
      parts false grade numbers trigger h = absurd (false≢true h)

  consistent :
      (decision_key : ScannerCandidate N → Option String → String) (qualification : ℕ)
      (c : ScannerCandidate N) (version : Option String) (rejected : List String) (ready : Bool)
      → Decide.is_eligible d rejected c ≡ ready
      → (let x = Decide.decision_of d decision_key qualification c version rejected ready in
          Decide.validate_consistent_state x ≡ ok x)
  consistent decision_key qualification c version [] true h =
      let (fresh, grade, _, trigger) = eligible_parts [] c h in
      valid_ready (Decide.decision_of d decision_key qualification c version [] true) refl refl refl
        trigger grade refl fresh
  consistent decision_key qualification c version [] false h =
      valid_near (Decide.decision_of d decision_key qualification c version [] false) refl refl refl
        refl
  consistent decision_key qualification c version (r ∷ rs) true h =
      absurd (false≢true (eligible_parts (r ∷ rs) c h).0)
  consistent decision_key qualification c version (r ∷ rs) false h =
      valid_rejected (Decide.decision_of d decision_key qualification c version (r ∷ rs) false) refl
        refl refl refl

  module _ (strip : String → String) (decision_key : ScannerCandidate N → Option String → String)
      (qualification : ℕ) (c : ScannerCandidate N) where
    abbrev pub version : Option String
    version = Decide.source_version d strip c.evidence.source_snapshot_version

    abbrev pub rejected : List String
    rejected = Decide.rejections d version c

    -- The candidate on which a READY decision stands.
    pub record IsEligible (x : SignalDecision N) : Type 0 where
      pub sourced : Decide.is_missing x.source_snapshot_version ≡ false
      pub current : c.stale ≡ false
      pub unexpired : leb c.expires_at c.evaluated_at ≡ false
      pub sound : Decide.facts_conflict d c ≡ false
      pub alive : Decide.lifecycle_reason c.lifecycle [] ≡ []
      pub grade : Decide.is_top_grade c.grade ≡ true
      pub numbers : (Decide.is_at_least c.score 85 && Decide.is_at_least c.confidence 70) ≡ true
      pub triggered : Decide.is_trigger_ready (Decide.trigger_status d c) ≡ true
      pub executable : (x.is_ready && x.selected && x.fresh) ≡ true

    -- The decision that `decide` builds is always consistent: it passes `validate_consistent_state`,
    -- and `decide` returns it.
    pub decide_total :
        Decide.decide d strip decision_key qualification c
        ≡ ok (
            Decide.decision_of d decision_key qualification c version rejected
              (Decide.is_eligible d rejected c))
    unfolding Decide.decide
    decide_total =
        consistent decision_key qualification c version rejected (Decide.is_eligible d rejected c)
          refl

    clean_parts :
        rejected ≡ []
        → (Decide.is_missing version ≡ false)
          × (c.stale ≡ false)
          × (leb c.expires_at c.evaluated_at ≡ false)
          × (Decide.facts_conflict d c ≡ false)
          × (Decide.lifecycle_reason c.lifecycle [] ≡ [])
    clean_parts h =
        let (_, e₁) = append_if-nil _ "ENTRY_TRIGGER_INVALID" _ refl h in
        let e₂ = sort_codes-nil c.audit_codes _ e₁ in
        let (_, e₃) =
          append_if-nil (Decide.is_below c.confidence 60) "CONFIDENCE_BELOW_60" _ refl e₂ in
        let (_, e₄) = append_if-nil (Decide.is_below c.score 80) "SCORE_BELOW_80" _ refl e₃ in
        let (_, e₅) = append_if-nil (Decide.is_reject c.grade) "SCORE_BELOW_80" _ refl e₄ in
        let (alive, e₆) = lifecycle_reason-nil c.lifecycle _ e₅ in
        let (sound, e₇) =
          append_if-nil (Decide.facts_conflict d c) "CONFLICTING_STRATEGY_FIELDS" _ refl e₆ in
        let (unexpired, e₈) =
          append_if-nil (leb c.expires_at c.evaluated_at) "SIGNAL_DECISION_EXPIRED" _ refl e₇ in
        let (current, e₉) = append_if-nil c.stale "SOURCE_SNAPSHOT_STALE" _ refl e₈ in
        let (sourced, _) =
          append_if-nil (Decide.is_missing version) "MISSING_SOURCE_PROVENANCE" [] refl e₉ in
        (sourced, current, unexpired, sound, alive)

    ready_needs :
        (list : List String) (ready : Bool)
        → Decide.decided d list ready ≡ SignalDecisionStatus.ready
        → (list ≡ []) × (ready ≡ true)
    ready_needs [] true h = (refl, refl)
    ready_needs [] false h = cc
    ready_needs (x ∷ xs) ready h = cc

    -- A READY decision stands on clean facts: the source snapshot is named and not stale, the
    -- candidate has not expired, the facts agree, the candidate is alive, the grade is A+ or A, the score is at least
    -- 85 and the confidence at least 70, and the entry has triggered; and the decision is ready,
    -- selected and fresh.
    pub decide-IsEligible :
        (x : SignalDecision N)
        → Decide.decide d strip decision_key qualification c ≡ ok x
        → x.decision_status ≡ SignalDecisionStatus.ready
        → IsEligible x
    decide-IsEligible x h status = subst IsEligible same (record {
      sourced = parts.0;
      current = parts.1;
      unexpired = parts.2;
      sound = parts.3;
      alive = parts.4;
      grade = wanted.1;
      numbers = wanted.2;
      triggered = wanted.3;
      executable = ready_facts rejected (Decide.is_eligible d rejected c) needs.1 wanted.0;
    })
      where
        same :
            Decide.decision_of d decision_key qualification c version rejected
              (Decide.is_eligible d rejected c)
            ≡ x
        same = ok_inj (sym decide_total ∙ h)

        needs : (rejected ≡ []) × (Decide.is_eligible d rejected c ≡ true)
        needs =
            ready_needs rejected (Decide.is_eligible d rejected c)
              (ap (λ (y : SignalDecision N). y.decision_status) same ∙ status)

        parts :
            (Decide.is_missing version ≡ false)
            × (c.stale ≡ false)
            × (leb c.expires_at c.evaluated_at ≡ false)
            × (Decide.facts_conflict d c ≡ false)
            × (Decide.lifecycle_reason c.lifecycle [] ≡ [])
        parts = clean_parts needs.0

        wanted :
            ((Decide.is_empty rejected && not c.stale) ≡ true)
            × (Decide.is_top_grade c.grade ≡ true)
            × ((Decide.is_at_least c.score 85 && Decide.is_at_least c.confidence 70) ≡ true)
            × (Decide.is_trigger_ready (Decide.trigger_status d c) ≡ true)
        wanted = eligible_parts rejected c needs.1

        ready_facts :
            (list : List String) (ready : Bool)
            → ready ≡ true
            → (Decide.is_empty list && not c.stale) ≡ true
            → (ready && ready && (Decide.is_empty list && not c.stale)) ≡ true
        ready_facts list ready h fresh = ground arith
