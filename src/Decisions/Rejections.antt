-- ===== src/Decisions/Rejections.antt =====
-- Why a list of reasons is empty: none of the tests that add to it holds.
use astra_froge.Common.{
  String, Bool, true, false, List, [], ◌∷◌, if◌then◌else◌, ◌==◌, contains, ◌≡◌, refl, sym, ap, ◌∙◌,
  inl, inr, Bool-cases, arith, false≢true,
}
use astra_froge.Schemas.Signals.{CandidateLifecycle}
use astra_froge.Decisions.Reasons.{
  append_unique, append_if, watch_codes, blocking_codes, Reasons, sort_code, sort_codes,
}
use astra_froge.Decisions.Decide

append_unique-nil :
    (xs : List String) (v : String) → (v == "") ≡ false → append_unique xs v ≡ [] → xs ≡ []
unfolding append_unique
append_unique-nil [] v named h = refl
append_unique-nil (x ∷ xs) v named h = elim (Bool-cases (contains (x ∷ xs) v)) [
  | inl there ↦ cc (rw (named, there) at h)
  | inr fresh ↦ cc (rw (named, fresh) at h)
]

append_unique-absent : (v : String) → (v == "") ≡ false → append_unique [] v ≡ v ∷ []
unfolding append_unique
append_unique-absent v named = rw named

pub append_if-nil :
    (t : Bool) (v : String) (xs : List String)
    → (v == "") ≡ false
    → append_if t v xs ≡ []
    → (t ≡ false) × (xs ≡ [])
append_if-nil false v xs named h = (refl, h)
append_if-nil true v xs named h =
    let gone = append_unique-nil xs v named h in
    absurd (
      cons_ne_nil (sym (append_unique-absent v named) ∙ ap (λ l. append_unique l v) (sym gone) ∙ h))
  where
    cons_ne_nil : v ∷ [] ≡ [] → ⊥
    cons_ne_nil e = cc

pub lifecycle_reason-nil :
    (l : CandidateLifecycle) (xs : List String)
    → Decide.lifecycle_reason l xs ≡ []
    → (Decide.lifecycle_reason l [] ≡ []) × (xs ≡ [])
lifecycle_reason-nil CandidateLifecycle.detected xs h = (refl, h)
lifecycle_reason-nil CandidateLifecycle.watch_near xs h = (refl, h)
lifecycle_reason-nil CandidateLifecycle.qualified xs h = (refl, h)
lifecycle_reason-nil CandidateLifecycle.rejected xs h =
    absurd (false≢true (sym (append_if-nil true "SETUP_INVALIDATED" xs refl h).0))
lifecycle_reason-nil CandidateLifecycle.invalidated xs h =
    absurd (false≢true (sym (append_if-nil true "CANDIDATE_INVALIDATED" xs refl h).0))
lifecycle_reason-nil CandidateLifecycle.expired xs h =
    absurd (false≢true (sym (append_if-nil true "CANDIDATE_EXPIRED" xs refl h).0))

append_any-nil : (xs : List String) (v : String) → append_unique xs v ≡ [] → xs ≡ []
unfolding append_unique
append_any-nil [] v h = refl
append_any-nil (x ∷ xs) v h = ground arith

-- A rejection that was there before the audit codes is there after them.
pub sort_codes-nil :
    (codes : List String) (reasons : Reasons)
    → (sort_codes codes reasons).rejection ≡ []
    → reasons.rejection ≡ []
unfolding sort_codes
sort_codes-nil [] reasons h = h
sort_codes-nil (code ∷ codes) reasons h =
    kept (contains watch_codes code) (contains blocking_codes code)
      (sort_codes-nil codes (sort_code code reasons) h)
  where
    kept :
        (w b : Bool)
        → (if w
            then record reasons { watch = append_unique reasons.watch code }
            else if b
            then record reasons { rejection = append_unique reasons.rejection code }
            else record reasons { strategy = append_unique reasons.strategy code }).rejection
          ≡ []
        → reasons.rejection ≡ []
    kept true b e = e
    kept false true e = append_any-nil reasons.rejection code e
    kept false false e = e
