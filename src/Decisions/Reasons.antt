-- ===== src/Decisions/Reasons.antt =====
-- The reasons of a decision: lists of codes without repetitions.
use astra_froge.Common.{String, Bool, not, ◌&&◌, List, [], ◌∷◌, ◌++◌, if◌then◌else◌, ◌==◌, contains}

-- `_append_unique`
unfoldable pub append_unique : List String → String → List String
append_unique values value =
    if not (value == "") && not (contains values value) then values ++ value ∷ [] else values

-- `if test: _append_unique(values, value)`
abbrev pub append_if : Bool → String → List String → List String
append_if test value values = if test then append_unique values value else values

-- `_WATCH_CODES`
abbrev pub watch_codes : List String
watch_codes =
    "ENTRY_NOT_READY" ∷ "ENTRY_OVEREXTENDED" ∷ "GRADE_B_PLUS_WATCH_ONLY" ∷ "CONFIDENCE_WATCH_ONLY"
    ∷ "VOLUME_BELOW_MINIMUM" ∷ []

-- `_BLOCKING_CODES`
abbrev pub blocking_codes : List String
blocking_codes =
    "CONFIDENCE_BELOW_60" ∷ "SCORE_BELOW_80" ∷ "CANDIDATE_INVALIDATED" ∷ "CANDIDATE_EXPIRED"
    ∷ "SETUP_INVALIDATED" ∷ "MISSING_1H_CANDLES" ∷ "MISSING_15M_CANDLES" ∷ "MISSING_5M_CANDLES"
    ∷ "INSUFFICIENT_1H_HISTORY" ∷ "INSUFFICIENT_15M_HISTORY" ∷ "INSUFFICIENT_5M_HISTORY"
    ∷ "STALE_1H_DATA" ∷ "STALE_15M_DATA" ∷ "STALE_5M_DATA" ∷ "INVALID_1H_OHLCV"
    ∷ "INVALID_15M_OHLCV" ∷ "INVALID_5M_OHLCV" ∷ "MISSING_REQUIRED_INDICATOR"
    ∷ "INDICATOR_CALCULATION_FAILED" ∷ "STRUCTURE_INSUFFICIENT" ∷ "TREND_SIDEWAYS" ∷ "TREND_MIXED"
    ∷ "TREND_DIRECTION_MISMATCH" ∷ []

-- The three lists that `decide` builds.
pub record Reasons : Type 0 where
  pub rejection : List String
  pub watch : List String
  pub strategy : List String

abbrev pub sort_code : String → Reasons → Reasons
sort_code code reasons =
    if contains watch_codes code
    then record reasons { watch = append_unique reasons.watch code }
    else if contains blocking_codes code
    then record reasons { rejection = append_unique reasons.rejection code }
    else record reasons { strategy = append_unique reasons.strategy code }

-- The loop over the audit codes.
unfoldable pub sort_codes : List String → Reasons → Reasons
unfolding append_unique
sort_codes [] reasons = reasons
sort_codes (code ∷ codes) reasons = sort_codes codes (sort_code code reasons)

-- `list(dict.fromkeys(...))` of the texts that are not empty
unfoldable pub unique_texts : List String → List String → List String
unfolding append_unique
unique_texts [] found = found
unique_texts (text ∷ texts) found = unique_texts texts (append_unique found text)
