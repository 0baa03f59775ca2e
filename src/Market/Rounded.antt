-- ===== src/Market/Rounded.antt =====
-- What a normalized quantity keeps to.
use astra_froge.Common.{
  Bool, true, false, not, ◌||◌, ok, raise_if-eq-ok, ◌≡◌, refl, subst, ok_inj, or-false, arith,
}
use astra_froge.Schemas.Decimals.{Decimals}
use astra_froge.Market.Rules.{Rounding, SymbolTradingRules, is_at_most, normalize_market_quantity}

module _ {N : Type 0} (d : Decimals N) (rounding : Rounding N) where
  -- What the code relies on of `Decimal`: ROUND_DOWN does not enlarge a number that is not negative,
  -- and a quotient of such a number by a positive one is not negative.
  pub record RoundingLaws : Type 0 where
    pub down : (a : N) → d.ltb a d.zero ≡ false → d.ltb a (rounding.whole_down a) ≡ false
    pub quotient :
        (a b : N)
        → d.ltb a d.zero ≡ false
        → is_at_most d b d.zero ≡ false
        → d.ltb (d.div a b) d.zero ≡ false

  module _ (rules : SymbolTradingRules N) where
    -- A quantity that the exchange takes, and that is no more steps than the raw one has: `steps` is
    -- a rounded number, at most the quotient of the raw quantity by the step.
    pub record IsPlaceable (raw quantity : N) : Type 0 where
      pub steps : N
      pub in_steps : quantity ≡ d.mul steps rules.quantity_step
      pub no_more : d.ltb (d.div raw rules.quantity_step) steps ≡ false
      pub least : d.ltb quantity rules.quantity_min ≡ false
      pub most : d.ltb rules.quantity_max quantity ≡ false
      pub on_step : d.eqb (rounding.remainder quantity rules.quantity_step) d.zero ≡ true

    -- Where rounding down and division keep to their laws and the step is positive, the normalization
    -- of a quantity that is not negative rounds it down: the result is a number of steps that is at
    -- most the quotient of the raw quantity by the step. It is within the limits of the exchange and
    -- a multiple of the step.
    pub normalize_market_quantity-IsPlaceable :
        (laws : RoundingLaws)
        → is_at_most d rules.quantity_step d.zero ≡ false
        → (raw quantity : N) → d.ltb raw d.zero ≡ false
        → normalize_market_quantity d rounding rules raw ≡ ok quantity
        → IsPlaceable raw quantity
    unfolding normalize_market_quantity
    normalize_market_quantity-IsPlaceable laws step raw quantity natural h =
        let (_, e₁) = raise_if-eq-ok (d.ltb raw rules.quantity_min) _ _ h in
        let (limits, e₂) =
          raise_if-eq-ok
            (d.ltb normalized rules.quantity_min || d.ltb rules.quantity_max normalized) _ _ e₁ in
        let (on_step, e₃) =
          raise_if-eq-ok (not (d.eqb (rounding.remainder normalized rules.quantity_step) d.zero)) _
            _ e₂ in
        let (least, most) = or-false _ _ limits in
        subst (IsPlaceable raw) (ok_inj e₃) (record {
          steps = rounding.whole_down (d.div raw rules.quantity_step);
          in_steps = refl;
          no_more =
              laws.down (d.div raw rules.quantity_step)
                (laws.quotient raw rules.quantity_step natural step);
          least = least;
          most = most;
          on_step = holds_of _ on_step;
        })
      where
        normalized : N
        normalized = d.mul (rounding.whole_down (d.div raw rules.quantity_step)) rules.quantity_step

        holds_of : (b : Bool) → not b ≡ false → b ≡ true
        holds_of b e = ground arith
