-- ===== src/Orch/Spend.antt =====
-- internal/orch/spend.go with the two statements of internal/store/spend.go that it calls: the spend
-- cap of a provider in a project. Amounts of money are natural numbers of a small unit, where the
-- source has float64 dollars.
pub mod Keys
pub mod Turns
pub mod Bound
mod Samples
use Prim.Native.String.{◌++◌ as ◌<>◌}
use radioactive_ralph.Prelude.{
  ℕ, ◌+◌, ◌-◌, ◌≤◌, ◌≡◌, String, Bool, true, false, ◌&&◌, ◌||◌, Option, none, some, List, [], ◌∷◌,
  if◌then◌else◌, ltb, leb, text_eq,
}

pub record SpendRow : Type 0 where
  pub project : String
  pub provider : String
  pub cost : ℕ

-- The configured caps, the number of turns in flight under each key, and the spend table. A key that
-- the map does not hold counts 0.
pub record Ledger : Type 0 where
  pub caps : String → Option ℕ
  pub in_flight : String → ℕ
  pub rows : List SpendRow

pub data SpendError : Type 0 where
  provider_turn_in_flight : SpendError
  spend_cap_exceeded : (spent cap : ℕ) → SpendError
  required : SpendError

pub data Checked : Type 0 where
  admitted : Ledger → Checked
  refused : SpendError → Checked

-- `project_id = ? … GROUP BY provider`, read at one provider.
abbrev pub project_spend : List SpendRow → String → String → ℕ
project_spend [] project provider = 0
project_spend (r ∷ rs) project provider =
    let rest = project_spend rs project provider in
    if text_eq r.project project && text_eq r.provider provider then r.cost + rest else rest

-- A provider without a cap, or with a cap of 0, has none.
abbrev pub cap_of : Ledger → String → ℕ
cap_of l provider = elim (l.caps provider) [ none ↦ 0 | some cap ↦ cap ]

abbrev pub nul : String
nul = "\0"

unfoldable pub spend_key : String → String → String
spend_key project provider = project <> (nul <> provider)

abbrev pub set_at : String → ℕ → (String → ℕ) → String → ℕ
set_at key n counts k = if text_eq k key then n else counts k

-- `checkSpendCap`: on success a capped provider has one turn more in flight.
unfoldable pub check_spend_cap : String → String → Ledger → Checked
check_spend_cap project provider l =
    let key = spend_key project provider in
    let spent = project_spend l.rows project provider in
    let cap = cap_of l provider in
    if leb cap 0
    then admitted l
    else (if ltb 0 (l.in_flight key)
        then refused provider_turn_in_flight
        else (if leb cap spent
            then refused (spend_cap_exceeded spent cap)
            else admitted (record l { in_flight = set_at key (l.in_flight key + 1) l.in_flight })))

-- `releaseSpendReservation`
unfoldable pub release_spend_reservation : String → String → Ledger → Ledger
release_spend_reservation project provider l =
    let key = spend_key project provider in
    if leb (cap_of l provider) 0
    then l
    else (if ltb 0 (l.in_flight key)
        then record l { in_flight = set_at key (l.in_flight key - 1) l.in_flight }
        else l)

-- `recordUsage` with `RecordSpend`.
unfoldable pub record_usage : String → String → ℕ → Ledger → Checked
record_usage project provider cost l =
    if text_eq project "" || text_eq provider ""
    then refused required
    else admitted (record l {
      rows = record { project = project; provider = provider; cost = cost } ∷ l.rows;
    })
