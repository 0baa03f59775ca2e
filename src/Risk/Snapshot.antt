-- ===== src/Risk/Snapshot.antt =====
-- `_load_snapshot` and `_snapshot_or_error`: the account as the policy sees it.
use astra_froge.Common.{
  ◌++◌, ℕ, String, Bool, true, false, not, ◌&&◌, ◌||◌, Option, none, some, List, [], ◌∷◌, length,
  leb, ◌==◌, if◌then◌else◌, contains, Dict, put, Result, ok, err, ◌>>=◌, ◌>>◌, raise_if, or_raise,
  Error, snapshot_error, client_error,
}
use astra_froge.Schemas.{ScannerDirection, long, short}
use astra_froge.Schemas.Decimals.{Decimals}

-- A field of a payload that holds a number: `none` where it is missing or not a number.
-- The account, with `canTrade` where it is a Boolean.
pub record AccountFields (N : Type 0) : Type 0 where
  pub can_trade : Option Bool
  pub total_wallet_balance : Option N
  pub available_balance : Option N
  pub total_unrealized_profit : Option N
  pub total_initial_margin : Option N

-- One position, with its symbol where that is a text.
pub record PositionFields (N : Type 0) : Type 0 where
  pub symbol : Option String
  pub position_amt : Option N
  pub leverage : Option N

-- One entry of the income history, with its type where that is a text.
pub record IncomeFields (N : Type 0) : Type 0 where
  pub income_type : Option String
  pub income : Option N

-- `RiskPrivateClient`, the answers of one call; the income is that of the current UTC day.
pub record RiskClient (N : Type 0) : Type 0 where
  pub account : Result (AccountFields N)
  pub positions : Result (List (PositionFields N))
  pub income_history : Result (List (IncomeFields N))

-- `_OpenPosition`
pub record OpenPosition : Type 0 where
  pub symbol : String
  pub direction : ScannerDirection

-- `_AccountSnapshot`
pub record RiskSnapshot (N : Type 0) : Type 0 where
  pub captured_at : ℕ
  pub can_trade : Bool
  pub wallet_balance_usdt : N
  pub available_balance_usdt : N
  pub daily_realized_pnl_usdt : N
  pub daily_unrealized_pnl_usdt : N
  pub daily_net_pnl_usdt : N
  pub daily_pnl_percent : N
  pub current_margin_exposure_usdt : N
  pub open_positions : List OpenPosition
  pub leverage_by_symbol : Dict ℕ

abbrev pub invalid_payload : Error
invalid_payload = snapshot_error "PRIVATE_ACCOUNT_PAYLOAD_INVALID"

-- `_TRADING_INCOME_TYPES`
abbrev pub is_trading_income : String → Bool
is_trading_income income_type =
    contains ("REALIZED_PNL" ∷ "COMMISSION" ∷ "FUNDING_FEE" ∷ []) income_type

module _ {N : Type 0} (d : Decimals N) where
  -- `_decimal_field`
  unfoldable pub decimal_field : Bool → Option N → Result N
  decimal_field nonnegative none = err invalid_payload
  decimal_field nonnegative (some value) =
      if not (d.is_finite value) || nonnegative && d.ltb value d.zero
      then err invalid_payload
      else ok value

  -- `_positive_integer_field`
  unfoldable pub positive_integer_field : Option N → Result ℕ
  unfolding decimal_field
  positive_integer_field field = do
    value ← decimal_field false field
    raise_if (d.ltb value (d.of_int 1)) invalid_payload
    or_raise (d.to_int value) invalid_payload

  abbrev pub text_field : Option String → Result String
  text_field none = err invalid_payload
  text_field (some text) = if text == "" then err invalid_payload else ok text

  -- The loop over the positions.
  unfoldable pub read_positions :
      List (PositionFields N) → List OpenPosition → Dict ℕ → Result (List OpenPosition × Dict ℕ)
  unfolding positive_integer_field
  read_positions [] open_positions leverages = ok (open_positions, leverages)
  read_positions (item ∷ items) open_positions leverages =
      let rest = read_positions items in
      text_field item.symbol >>= λ symbol. decimal_field false item.position_amt >>= λ amount.
      positive_integer_field item.leverage >>= λ leverage.
      if d.eqb amount d.zero
      then rest open_positions (put symbol leverage leverages)
      else rest
          (open_positions
            ++ record { symbol = symbol; direction = if d.ltb d.zero amount then long else short }
              ∷ [])
          (put symbol leverage leverages)

  -- The loop over the income of the day; an entry of another type adds nothing.
  unfoldable pub realized_income : List (IncomeFields N) → N → Result N
  unfolding decimal_field
  realized_income [] realized = ok realized
  realized_income (item ∷ items) realized =
      let rest = realized_income items in
      elim item.income_type [
        | none ↦ err invalid_payload
        | some income_type ↦
            if is_trading_income income_type
            then (decimal_field false item.income >>= λ income. rest (d.add realized income))
            else rest realized
      ]

  abbrev pub is_flat : List OpenPosition → Bool
  is_flat [] = true
  is_flat (_ ∷ _) = false

  -- `daily_net / day_start_equity * 100`, where there was any equity
  abbrev pub daily_percent : N → N → N
  daily_percent daily_net day_start_equity =
      if d.ltb d.zero day_start_equity
      then d.mul (d.div daily_net day_start_equity) (d.of_int 100)
      else d.zero

  -- `_load_snapshot`, at the time `now`
  unfoldable pub load_snapshot : RiskClient N → ℕ → Result (RiskSnapshot N)
  unfolding decimal_field read_positions realized_income
  load_snapshot client now = do
    account ← client.account
    positions ← client.positions
    income ← client.income_history
    raise_if (leb 1000 (length income)) invalid_payload
    can_trade ← or_raise account.can_trade invalid_payload
    wallet ← decimal_field true account.total_wallet_balance
    available ← decimal_field true account.available_balance
    reported_unrealized ← decimal_field false account.total_unrealized_profit
    current_margin ← decimal_field true account.total_initial_margin
    (open_positions, leverages) ← read_positions positions [] []
    realized ← realized_income income d.zero
    let daily_unrealized = if is_flat open_positions then reported_unrealized else d.zero
    let daily_net = d.add realized daily_unrealized
    let day_start_equity = d.sub wallet realized
    ok (record {
      captured_at = now;
      can_trade = can_trade;
      wallet_balance_usdt = wallet;
      available_balance_usdt = available;
      daily_realized_pnl_usdt = realized;
      daily_unrealized_pnl_usdt = daily_unrealized;
      daily_net_pnl_usdt = daily_net;
      daily_pnl_percent = daily_percent daily_net day_start_equity;
      current_margin_exposure_usdt = current_margin;
      open_positions = open_positions;
      leverage_by_symbol = leverages;
    })

  abbrev pub snapshot_of :
      Result (RiskSnapshot N) → Result (Option (RiskSnapshot N) × Option String)
  snapshot_of (ok snapshot) = ok (some snapshot, none)
  snapshot_of (err client_error) = ok (none, some "DEMO_PRIVATE_API_UNAVAILABLE")
  snapshot_of (err (snapshot_error code)) = ok (none, some code)
  snapshot_of (err e) = err e

  -- `_snapshot_or_error`; no client stands for a private API that is not configured.
  unfoldable pub snapshot_or_error :
      Option (RiskClient N) → ℕ → Result (Option (RiskSnapshot N) × Option String)
  unfolding load_snapshot
  snapshot_or_error none now = ok (none, some "DEMO_PRIVATE_API_NOT_CONFIGURED")
  snapshot_or_error (some client) now = snapshot_of (load_snapshot client now)
