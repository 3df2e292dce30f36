-- ===== src/Balance.antt =====
-- internal/collector/balance/balance.go: the billing figures of the account.
--
-- `F` stands for float64 and `parse_float` for `strconv.ParseFloat(text, 64)`.
use Prim.Native.String.{◌++◌ as str_append}
use digitalocean_exporter.Base.{
  ℤ, String, Option, none, some, GoError, wrap, Result, ok, err, ◌>>=◌, List, [], ◌∷◌,
}
use digitalocean_exporter.Text.{trim_space}

-- godo.Balance; the time is its Unix seconds.
pub record ApiBalance : Type 0 where
  pub account_balance : String
  pub month_to_date_balance : String
  pub month_to_date_usage : String
  pub generated_at : ℤ

pub record Snapshot (F : Type 0) : Type 0 where
  pub balance : F
  pub month_to_date_balance : F
  pub month_to_date_usage : F
  pub generated_at : ℤ

module _ {F : Type 0} (parse_float : String → Result F) where
  -- `parseAmount`
  unfoldable pub parse_amount : String → String → Result F
  unfolding trim_space
  parse_amount raw field = elim (parse_float (trim_space raw)) [
    | err e ↦ err (wrap (str_append "parse " field) e)
    | ok value ↦ ok value
  ]

  -- The amounts of `Refresh` one after another, and the snapshot of them.
  unfoldable pub new_snapshot : ApiBalance → Result (Snapshot F)
  unfolding parse_amount
  new_snapshot bal = do
    balance ← parse_amount bal.account_balance "account_balance"
    month_to_date_balance ← parse_amount bal.month_to_date_balance "month_to_date_balance"
    month_to_date_usage ← parse_amount bal.month_to_date_usage "month_to_date_usage"
    ok (record {
      balance = balance;
      month_to_date_balance = month_to_date_balance;
      month_to_date_usage = month_to_date_usage;
      generated_at = bal.generated_at;
    })

  -- `Refresh`, by what `Balance.Get` answered; the snapshot is none before the first success.
  unfoldable pub refresh :
      Result ApiBalance → Option (Snapshot F) → Option GoError × Option (Snapshot F)
  unfolding new_snapshot
  refresh (err e) snap = (some (wrap "get balance" e), snap)
  refresh (ok bal) snap = elim (new_snapshot bal) [
    | err e ↦ (some e, snap)
    | ok next ↦ (none, some next)
  ]

  -- `Collect`: the descriptors' names with their values, the time through `to_float`.
  unfoldable pub collect : (ℤ → F) → Option (Snapshot F) → List (String × F)
  collect to_float none = []
  collect to_float (some snap) =
      ("digitalocean_account_balance", snap.balance)
      ∷ ("digitalocean_month_to_date_balance", snap.month_to_date_balance)
      ∷ ("digitalocean_month_to_date_usage", snap.month_to_date_usage)
      ∷ ("digitalocean_balance_generated_at", to_float snap.generated_at)
      ∷ []
