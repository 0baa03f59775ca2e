-- ===== src/Recovery/Positions.antt =====
-- The index of the positions: none that is held is missing from it, and each entry is one of them.
use astra_froge.Common.{
  Some, lookup, lookup-put, lookup-put_other, ==_iff, some_inj, ap, ◌⊎◌, String, Bool, true, false,
  not, Option, none, some, List, [], ◌∷◌, ◌==◌, All, Dict, has_entry, put, ok, >>=-eq-ok,
  raise_if-eq-ok, has_entry-put, has_entry-put_same, ◌≡◌, sym, ◌∙◌, subst, inl, inr, Bool-cases,
  ok_inj, err_ne_ok, arith, false≢true,
}
use astra_froge.Schemas.{ScannerDirection}
use astra_froge.Schemas.Decimals.{Decimals}
use astra_froge.Recovery.Payloads.{PositionPayload}
use astra_froge.Recovery.Reconcile.{finite_decimal, position_of, index_positions}

module _ {N : Type 0} (d : Decimals N) where
  pub finite_part :
      (o : Option N) (code : String) (q : N) → finite_decimal d o code ≡ ok q → o ≡ some q
  unfolding finite_decimal
  finite_part none code q h = cc
  finite_part (some v) code q h = ground arith

  -- A position that is not flat.
  abbrev pub is_held : PositionPayload N → Bool
  is_held payload = elim payload.position_amt [
    | none ↦ false
    | some amount ↦ not (d.eqb amount d.zero)
  ]

  kept_entry :
      (key : String) (payloads : List (PositionPayload N))
      (before after : Dict (ScannerDirection × N))
      → index_positions d payloads before ≡ ok after
      → has_entry key before ≡ true
      → has_entry key after ≡ true
  unfolding index_positions
  kept_entry key [] before after h e = subst (λ x. has_entry key x ≡ true) (ok_inj h) e
  kept_entry key (payload ∷ payloads) before after h e =
      let (named, e₁) = raise_if-eq-ok (payload.symbol == "") _ _ h in
      let (amount, _, e₂) =
        >>=-eq-ok (finite_decimal d payload.position_amt "EXCHANGE_POSITIONAMT_INVALID") _ e₁ in
      elim (Bool-cases (d.eqb amount d.zero)) [
        | inl flat ↦ kept_entry key payloads before after (rw flat at e₂) e
        | inr held ↦ elim (Bool-cases (has_entry payload.symbol before)) [
          | inl repeated ↦ absurd (err_ne_ok (rw (held, repeated) at e₂))
          | inr fresh ↦
              kept_entry key payloads (put payload.symbol (position_of d amount) before) after
                (rw (held, fresh) at e₂)
                (has_entry-put payload.symbol key (position_of d amount) before e)
        ]
      ]

  held_amount :
      (payload : PositionPayload N) (amount : N)
      → is_held payload ≡ true
      → payload.position_amt ≡ some amount
      → d.eqb amount d.zero ≡ false
  held_amount payload amount held read = ground arith

  -- Every position that is not flat is in the index.
  pub index_positions-All :
      (payloads : List (PositionPayload N)) (before after : Dict (ScannerDirection × N))
      → index_positions d payloads before ≡ ok after
      → All (λ (p : PositionPayload N). is_held p ≡ true → has_entry p.symbol after ≡ true) payloads
  unfolding index_positions
  index_positions-All [] before after h = tt
  index_positions-All (payload ∷ payloads) before after h =
      let (named, e₁) = raise_if-eq-ok (payload.symbol == "") _ _ h in
      let (amount, read, e₂) =
        >>=-eq-ok (finite_decimal d payload.position_amt "EXCHANGE_POSITIONAMT_INVALID") _ e₁ in
      elim (Bool-cases (d.eqb amount d.zero)) [
        | inl flat ↦ (
          (λ held. absurd (
              false≢true (
                sym
                  (held_amount payload amount held (finite_part payload.position_amt _ amount read))
                ∙ flat))),
          index_positions-All payloads before after (rw flat at e₂),
        )
        | inr held ↦ elim (Bool-cases (has_entry payload.symbol before)) [
          | inl repeated ↦ absurd (err_ne_ok (rw (held, repeated) at e₂))
          | inr fresh ↦
              let next = put payload.symbol (position_of d amount) before in
              (
                (λ _.
                    kept_entry payload.symbol payloads next after (rw (held, fresh) at e₂)
                      (has_entry-put_same payload.symbol (position_of d amount) before)),
                index_positions-All payloads next after (rw (held, fresh) at e₂),
              )
        ]
      ]

  -- The payload from which an entry of the index was made.
  pub record IsSourceOf (key : String) (entry : ScannerDirection × N) (p : PositionPayload N)
      : Type 0 where
    pub symbol : p.symbol ≡ key
    pub amount : N
    pub read : p.position_amt ≡ some amount
    pub held : d.eqb amount d.zero ≡ false
    pub made : position_of d amount ≡ entry

  -- Every entry of the index is made from one of the payloads.
  pub index_positions-Some :
      (key : String) (entry : ScannerDirection × N) (payloads : List (PositionPayload N))
      (before after : Dict (ScannerDirection × N))
      → index_positions d payloads before ≡ ok after
      → lookup key after ≡ some entry
      → (lookup key before ≡ some entry) ⊎ Some (IsSourceOf key entry) payloads
  unfolding index_positions
  index_positions-Some key entry [] before after h e =
      inl (subst (λ x. lookup key x ≡ some entry) (sym (ok_inj h)) e)
  index_positions-Some key entry (payload ∷ payloads) before after h e =
      let (named, e₁) = raise_if-eq-ok (payload.symbol == "") _ _ h in
      let (amount, read, e₂) =
        >>=-eq-ok (finite_decimal d payload.position_amt "EXCHANGE_POSITIONAMT_INVALID") _ e₁ in
      elim (Bool-cases (d.eqb amount d.zero)) [
        | inl flat ↦ later (index_positions-Some key entry payloads before after (rw flat at e₂) e)
        | inr held ↦ elim (Bool-cases (has_entry payload.symbol before)) [
          | inl repeated ↦ absurd (err_ne_ok (rw (held, repeated) at e₂))
          | inr fresh ↦ stored amount (finite_part payload.position_amt _ amount read) held (
              index_positions-Some key entry payloads
                (put payload.symbol (position_of d amount) before) after (rw (held, fresh) at e₂) e)
        ]
      ]
    where
      later :
          (lookup key before ≡ some entry) ⊎ Some (IsSourceOf key entry) payloads
          → (lookup key before ≡ some entry) ⊎ Some (IsSourceOf key entry) (payload ∷ payloads)
      later (inl there) = inl there
      later (inr among) = inr (inr among)

      stored :
          (amount : N)
          → payload.position_amt ≡ some amount
          → d.eqb amount d.zero ≡ false
          → (lookup key (put payload.symbol (position_of d amount) before) ≡ some entry)
            ⊎ Some (IsSourceOf key entry) payloads
          → (lookup key before ≡ some entry) ⊎ Some (IsSourceOf key entry) (payload ∷ payloads)
      stored amount read held (inr among) = inr (inr among)
      stored amount read held (inl found) = elim (Bool-cases (payload.symbol == key)) [
        | inl same ↦
            let at = (==_iff payload.symbol key).0 same in
            inr (
              inl (record {
                symbol = at;
                amount = amount;
                read = read;
                held = held;
                made = some_inj (
                    sym (lookup-put payload.symbol (position_of d amount) before)
                    ∙ ap (λ k. lookup k (put payload.symbol (position_of d amount) before)) at
                    ∙ found);
              }))
        | inr other ↦
            inl (
              sym (lookup-put_other payload.symbol key (position_of d amount) before other) ∙ found)
      ]
