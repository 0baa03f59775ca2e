-- ===== src/Common/Dicts.antt =====
-- Python dictionaries with text keys, as lists of their entries in the order of insertion.
use mathlib.Core.Path.{◌≡◌, refl, ap, subst}
use mathlib.Core.Logic.{inl, inr}
use mathlib.Core.Bool.{Bool, true, false, not, ◌&&◌}
use mathlib.Core.Option.{Option, none, some}
use mathlib.Core.List.{List, [], ◌∷◌, ◌++◌}
use Prim.Native.String.{String}
use native.Mathlib.Omega.{arith}
use astra_froge.Common.Tests.{if◌then◌else◌, ◌==◌, Bool-cases, ==_refl, ==_iff, and-true}

abbrev pub Dict : Type 0 → Type 0
Dict A = List (String × A)

module _ {A : Type 0} where
  -- `d.get(key)`
  abbrev pub lookup : String → Dict A → Option A
  lookup key [] = none
  lookup key ((k, a) ∷ d) = if k == key then some a else lookup key d

  -- `key in d`
  abbrev pub has_entry : String → Dict A → Bool
  has_entry key [] = false
  has_entry key ((k, a) ∷ d) = if k == key then true else has_entry key d

  -- `d[key] = a`
  abbrev pub put : String → A → Dict A → Dict A
  put key a [] = (key, a) ∷ []
  put key a ((k, b) ∷ d) = if k == key then (k, a) ∷ d else (k, b) ∷ put key a d

  -- `d.pop(key, None)`
  abbrev pub remove : String → Dict A → Dict A
  remove key [] = []
  remove key ((k, b) ∷ d) = if k == key then d else (k, b) ∷ remove key d

  pub lookup-put : (key : String) (a : A) (d : Dict A) → lookup key (put key a d) ≡ some a
  lookup-put key a [] = rw (==_refl key)
  lookup-put key a ((k, b) ∷ d) = elim (Bool-cases (k == key)) [
    | inl same ↦ rw (same, same)
    | inr other ↦ rw (other, other) (lookup-put key a d)
  ]

  pub lookup-put_other :
      (key other : String) (a : A) (d : Dict A)
      → (key == other) ≡ false
      → lookup other (put key a d) ≡ lookup other d
  lookup-put_other key other a [] apart = rw apart
  lookup-put_other key other a ((k, b) ∷ d) apart = elim (Bool-cases (k == key)) [
    | inl same ↦ rw (same, (==_iff k key).0 same, apart)
    | inr away ↦ elim (Bool-cases (k == other)) [
      | inl hit ↦ rw (away, hit)
      | inr miss ↦ rw (away, miss) (lookup-put_other key other a d apart)
    ]
  ]

  pub has_entry-lookup : (key : String) (d : Dict A) → has_entry key d ≡ false → lookup key d ≡ none
  has_entry-lookup key [] h = refl
  has_entry-lookup key ((k, a) ∷ d) h = elim (Bool-cases (k == key)) [
    | inl same ↦ cc (rw same at h)
    | inr other ↦ rw other (has_entry-lookup key d (rw other at h))
  ]

-- every key of the first is one of the second
abbrev pub keys_within : {A B : Type 0} → Dict A → Dict B → Bool
keys_within [] e = true
keys_within ((k, a) ∷ d) e = has_entry k e && keys_within d e

-- `set(d) == set(e)`
abbrev pub same_keys : {A B : Type 0} → Dict A → Dict B → Bool
same_keys d e = keys_within d e && keys_within e d

pub append_put :
    {A : Type 0} (key : String) (a : A) (d : Dict A)
    → has_entry key d ≡ false
    → put key a d ≡ d ++ (key, a) ∷ []
append_put key a [] h = refl
append_put key a ((k, b) ∷ d) h = elim (Bool-cases (k == key)) [
  | inl same ↦ cc (rw same at h)
  | inr other ↦ rw other (ap (λ rest. (k, b) ∷ rest) (append_put key a d (rw other at h)))
]

pub has_entry-put :
    {A : Type 0} (key other : String) (a : A) (d : Dict A)
    → has_entry other d ≡ true
    → has_entry other (put key a d) ≡ true
has_entry-put key other a [] h = cc
has_entry-put key other a ((k, b) ∷ d) h = elim (Bool-cases (k == key)) [
  | inl same ↦ rw same h
  | inr away ↦ elim (Bool-cases (k == other)) [
    | inl hit ↦ rw (away, hit)
    | inr miss ↦ rw (away, miss) (has_entry-put key other a d (rw miss at h))
  ]
]

pub keys_within-has_entry :
    {A B : Type 0} (key : String) (d : Dict A) (e : Dict B)
    → keys_within d e ≡ true
    → has_entry key d ≡ true
    → has_entry key e ≡ true
keys_within-has_entry key [] e w h = cc
keys_within-has_entry key ((k, a) ∷ d) e w h = elim (Bool-cases (k == key)) [
  | inl same ↦ subst (λ x. has_entry x e ≡ true) ((==_iff k key).0 same) (and-true _ _ w).0
  | inr other ↦ keys_within-has_entry key d e (and-true (has_entry k e) _ w).1 (rw other at h)
]

pub back_within :
    {A B : Type 0} (d : Dict A) (e : Dict B) → not (same_keys d e) ≡ false → keys_within e d ≡ true
back_within d e h = ground arith

pub has_entry-put_same :
    {A : Type 0} (key : String) (a : A) (d : Dict A) → has_entry key (put key a d) ≡ true
has_entry-put_same key a [] = rw (==_refl key)
has_entry-put_same key a ((k, b) ∷ d) = elim (Bool-cases (k == key)) [
  | inl same ↦ rw (same, same)
  | inr other ↦ rw (other, other) (has_entry-put_same key a d)
]
