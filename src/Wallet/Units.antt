-- ===== src/Wallet/Units.antt =====
-- Amounts in the wallet's dialogs, wallet/src/ui.rs. Decimal numbers are those of bigdecimal.
use grapheno.Base.{ℕ, Option, none, some, Text}

-- `Unit`
pub data AmountUnit : Type 0 where
  btc : AmountUnit
  sats : AmountUnit

-- `BigDecimal`
pub record Decimals : Type 1 where
  pub Decimal : Type 0
  pub from_str : Text → Option Decimal
  pub from_nat : ℕ → Decimal
  pub mul : Decimal → Decimal → Decimal
  pub div : Decimal → Decimal → Decimal
  pub to_u64 : Decimal → Option ℕ

-- The other unit, of `switch_unit`.
abbrev pub switched : AmountUnit → AmountUnit
switched btc = sats
switched sats = btc

abbrev pub unwrap_or {ℓ} : {A : Type ℓ} → A → Option A → A
unwrap_or x none = x
unwrap_or x (some y) = y

-- `convert_amount`
unfoldable pub convert_amount : (d : Decimals) → d.Decimal → AmountUnit → AmountUnit → d.Decimal
convert_amount d amount btc sats = d.mul amount (d.from_nat 100000000)
convert_amount d amount sats btc = d.div amount (d.from_nat 100000000)
convert_amount d amount btc btc = amount
convert_amount d amount sats sats = amount

-- The amount that the field says, in satoshis.
unfoldable pub amount_sats : Decimals → Text → AmountUnit → ℕ
unfolding convert_amount
amount_sats d amount unit =
    unwrap_or 0
      (d.to_u64 (convert_amount d (unwrap_or (d.from_nat 0) (d.from_str amount)) unit sats))
