-- ===== src/Queue/Invariant/Oldest.antt =====
-- The row that a claim selects.
use astra_froge.Common.{
  ℕ, ◌≤◌, ◌≡◌, leb, refl, true, false, none, some, List, [], ◌∷◌, arith, if◌then◌else◌, inl, inr,
  Bool-cases, Option-cases, All, All-map, subst, some_inj,
}
use astra_froge.Schemas.{ExecutionCommandRow}
use native.Mathlib.Nat.{le_trans}
use astra_froge.Queue.Claims.{oldest}

later_le : (a b : ℕ) → leb a b ≡ false → b ≤ a
later_le a b h = ground arith

leb→le : (a b : ℕ) → leb a b ≡ true → a ≤ b
leb→le a b h = ground arith

module _ {N : Type 0} where
  oldest-none : (rows : List (ExecutionCommandRow N)) → oldest rows ≡ none → rows ≡ []
  unfolding oldest
  oldest-none [] e = refl
  oldest-none (r ∷ rows) e = elim (Option-cases (oldest rows)) [
    | inl empty ↦ cc (rw (empty, oldest) at e)
    | inr (s, found) ↦ cc (picks r s (rw (found, oldest) at e))
  ]
    where
      picks :
          (r s : ExecutionCommandRow N)
          → (if leb r.created_at s.created_at then some r else some s) ≡ none
          → true ≡ false
      picks r s e = ground arith

  -- The row that `order_by(created_at).limit(1)` finds is one of the rows, and none is older.
  pub oldest_lem :
      (P : ExecutionCommandRow N → Type 0) (rows : List (ExecutionCommandRow N))
      (row : ExecutionCommandRow N)
      → All P rows
      → oldest rows ≡ some row
      → P row × All (λ (r : ExecutionCommandRow N). row.created_at ≤ r.created_at) rows
  unfolding oldest
  oldest_lem P [] row h e = cc
  oldest_lem P (r ∷ rows) row h e = elim (Option-cases (oldest rows)) [
    | inl empty ↦
        let same : r ≡ row = some_inj (rw (empty, oldest) at e) in
        (subst P same h.0, (rw same (omega arith), rw (oldest-none rows empty) tt))
    | inr (s, found) ↦
        let (ps, least) = oldest_lem P rows s h.1 found in
        elim (Bool-cases (leb r.created_at s.created_at)) [
          | inl earlier ↦
              let same : r ≡ row = some_inj (rw (found, oldest, earlier) at e) in
              (
                subst P same h.0,
                (
                  rw same (omega arith),
                  All-map _ _ rows (λ x le. rw (← same) (le_trans (leb→le _ _ earlier) le)) least,
                ),
              )
          | inr later ↦
              let same : s ≡ row = some_inj (rw (found, oldest, later) at e) in
              (
                subst P same ps,
                (
                  rw (← same) (later_le _ _ later),
                  subst
                      (λ (y : ExecutionCommandRow N).
                        All (λ (r : ExecutionCommandRow N). y.created_at ≤ r.created_at) rows)
                      same least,
                ),
              )
        ]
  ]
