-- ===== src/Commands/Targets.antt =====
-- The target that a multiple of the risked distance sets, on the winning side of the entry.
use astra_froge.Schemas.{ScannerDirection, long, short}
use astra_froge.Schemas.Decimals.{Decimals}

module _ {N : Type 0} (d : Decimals N) where
  -- How far a target lies from the entry: `multiple` times the distance of the stop.
  abbrev pub reward : N → N → N → N
  reward entry stop multiple = d.mul (d.abs (d.sub entry stop)) multiple

  -- The target that pays the reward: a long trade wins above its entry, a short one below.
  abbrev pub target_of : ScannerDirection → N → N → N → N
  target_of long entry stop multiple = d.add entry (reward entry stop multiple)
  target_of short entry stop multiple = d.sub entry (reward entry stop multiple)
