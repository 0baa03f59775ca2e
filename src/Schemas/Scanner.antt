-- ===== src/Schemas/Scanner.antt =====
-- The enumerations of app/schemas/scanner.py.
use astra_froge.Common.{Bool, true, false, ◌≡◌, arith}

-- `ScannerDirection`
pub data ScannerDirection : Type 0 where
  long short : ScannerDirection

-- `ScannerSetup`
pub data ScannerSetup : Type 0 where
  trend_pullback breakout_retest ema_rejection liquidity_sweep_reversal : ScannerSetup
  continuation_setup : ScannerSetup

-- `ScannerGrade`
pub data ScannerGrade : Type 0 where
  a_plus grade_a b_plus reject : ScannerGrade

-- `a is b`, for two directions
abbrev pub same_direction : ScannerDirection → ScannerDirection → Bool
same_direction long long = true
same_direction short short = true
same_direction _ _ = false

-- `a is b`, for two setups
abbrev pub same_setup : ScannerSetup → ScannerSetup → Bool
same_setup trend_pullback trend_pullback = true
same_setup breakout_retest breakout_retest = true
same_setup ema_rejection ema_rejection = true
same_setup liquidity_sweep_reversal liquidity_sweep_reversal = true
same_setup continuation_setup continuation_setup = true
same_setup _ _ = false

pub same_direction_eq : (a b : ScannerDirection) → same_direction a b ≡ true → a ≡ b
same_direction_eq a b h = ground arith
