-- ===== src/Wallet/Tests.antt =====
-- The wallet's theorems at a small ledger.
use fuel_cap.Base.{String, ◌≡◌, refl, List, [], ◌∷◌, string_eq, ok}
use fuel_cap.Base.Int.{pos, sum_of}
use fuel_cap.Base.Text.{is_blank}
use fuel_cap.Ledger.{usd}
use fuel_cap.Ledger.Projection.{account_net}
use fuel_cap.Ledger.Sample.{
  host, ledger_1, ledger_2, ledger_1-Reachable, deposit, journal_1, journal_2, correction,
  reversal_made, second_correction, second_reversal, second_reversal_made, journal_3,
}
use fuel_cap.Wallet.{
  WalletDefinition, WalletBalance, WalletActivity, validate_definition, derive_wallet_balance,
  derive_wallet_activity, position_delta,
}
use fuel_cap.Wallet.Activity.{derive_wallet_balance-activity}
use fuel_cap.Wallet.Corrections.{position_delta-double_reversal}

abbrev wallet : WalletDefinition
wallet = record {
  wallet_id = "w-1";
  customer_id = "cust-1";
  organisation_id = "org";
  legal_entity_id = "fc";
  currency = usd;
  available_account_id = "available";
  reserved_account_id = "reserved";
  refund_payable_account_id = "refunds";
  position_ids = "p-1" ∷ [];
}

wallet_valid : validate_definition ledger_1 wallet ≡ ok tt
unfolding validate_definition is_blank
wallet_valid = refl

derive_wallet_balance-activity_example :
    (b : WalletBalance) × (acts : List WalletActivity) × (derive_wallet_balance host ledger_1 wallet
      ≡ ok b)
    × (derive_wallet_activity ledger_1 wallet ≡ ok acts)
    × (b.available_minor ≡ sum_of (λ a. a.available_delta_minor) acts)
    × (b.reserved_minor ≡ sum_of (λ a. a.reserved_delta_minor) acts)
    × (b.refund_payable_minor ≡ sum_of (λ a. a.refund_payable_delta_minor) acts)
    × (b.protected_quantity_4dp ≡ sum_of (λ a. a.protected_quantity_delta_4dp) acts)
derive_wallet_balance-activity_example =
    derive_wallet_balance-activity host ledger_1 wallet ledger_1-Reachable wallet_valid

-- The balance of the small ledger.
abbrev balance_1 : WalletBalance
balance_1 = (derive_wallet_balance-activity host ledger_1 wallet ledger_1-Reachable wallet_valid).0

position_delta-double_reversal_example :
    ((id : String) → account_net id second_reversal.lines ≡ account_net id deposit.lines)
    × (position_delta ledger_2 ("p-1" ∷ []) journal_3 ≡ pos 0)
position_delta-double_reversal_example =
    position_delta-double_reversal ledger_2 ("p-1" ∷ []) journal_1 journal_2 journal_3 correction
      second_correction reversal_made second_reversal_made refl
