-- ===== src/Ledger/Reports.antt =====
-- `verifyLedgerIntegrity`, `projectAccounts` and `reconcileSafeguarding` of
-- packages/ledger/src/index.ts.
use fuel_cap.Base.{
  ℕ, ◌+◌, String, Bool, true, not, ◌&&◌, List, [], ◌∷◌, ◌++◌, map, ◌==◌, string_eq, find, any,
  filter, map_or, if◌then◌else◌, nat_beq, Result, ok, ◌>>◌, throw_if,
}
use fuel_cap.Base.Int.{ℤ, pos, ◌+ℤ◌, ◌-ℤ◌, eqb_ℤ, is_safe_integer, reduce_sum}
use fuel_cap.Ledger.Types.{
  currency_eq, Currency, Side, debit, credit, AccountPurpose, safeguarded_cash, processor_clearing,
  customer_available, customer_reserved, customer_refund_payable, station_payable, pool_funding,
  buffer_reserve, margin_revenue, protection_claim, hedge_asset_payable, hedge_cost_recovery,
  fx_rounding_gain_loss, fx_bridge, LedgerAccount, JournalLine, PostedJournal, LedgerState,
  AccountProjection, LedgerError, bad_adjustment, Host,
}
use fuel_cap.Ledger.Journals.{same_side}

-- The loop of `verifyLedgerIntegrity`, on the index and the previous hash.
unfoldable pub verify_from : Host → ℕ → String → List PostedJournal → Bool
verify_from host index previous_hash [] = true
verify_from host index previous_hash (j ∷ js) =
    nat_beq j.content.sequence (index + 1)
    && j.content.previous_hash == previous_hash
    && host.hash_journal j.content == j.integrity_hash
    && verify_from host (index + 1) j.integrity_hash js

-- `verifyLedgerIntegrity`
unfoldable pub verify_ledger_integrity : Host → LedgerState → Bool
unfolding verify_from
verify_ledger_integrity host state = verify_from host 0 "GENESIS" state.journals

unfoldable pub all_lines : List PostedJournal → List JournalLine
all_lines [] = []
all_lines (j ∷ js) = j.content.command.lines ++ all_lines js

unfoldable pub side_total : Side → List JournalLine → ℤ
side_total side lines = reduce_sum (λ l. l.amount_minor) (filter (λ l. same_side l.side side) lines)

unfoldable pub project_account : List JournalLine → LedgerAccount → AccountProjection
unfolding side_total
project_account ledger_lines account =
    let lines = filter (λ l. l.account_id == account.account_id) ledger_lines in
    let debits = side_total debit lines in
    let credits = side_total credit lines in
    record {
      account_id = account.account_id;
      currency = account.currency;
      debits_minor = debits;
      credits_minor = credits;
      balance_minor =
          if same_side account.normal_balance debit then debits -ℤ credits else credits -ℤ debits;
    }

-- `projectAccounts`
unfoldable pub project_accounts : LedgerState → List AccountProjection
unfolding project_account all_lines
project_accounts state = map (project_account (all_lines state.journals)) state.accounts

-- `reconcileSafeguarding`
pub record SafeguardingReconciliation : Type 0 where
  pub legal_entity_id : String
  pub currency : Currency
  pub safeguarded_cash_minor : ℤ
  pub customer_liabilities_minor : ℤ
  pub in_flight_adjustment_minor : ℤ
  pub difference_minor : ℤ
  pub passes : Bool

-- A number for each purpose, to compare them by.
abbrev pub purpose_index : AccountPurpose → ℕ
purpose_index safeguarded_cash = 0
purpose_index processor_clearing = 1
purpose_index customer_available = 2
purpose_index customer_reserved = 3
purpose_index customer_refund_payable = 4
purpose_index station_payable = 5
purpose_index pool_funding = 6
purpose_index buffer_reserve = 7
purpose_index margin_revenue = 8
purpose_index protection_claim = 9
purpose_index hedge_asset_payable = 10
purpose_index hedge_cost_recovery = 11
purpose_index fx_rounding_gain_loss = 12
purpose_index fx_bridge = 13

abbrev pub same_purpose : AccountPurpose → AccountPurpose → Bool
same_purpose p q = nat_beq (purpose_index p) (purpose_index q)

-- `projections.find(({ accountId }) => accountId === id)?.balanceMinor ?? 0`
abbrev pub balance_or_zero : List AccountProjection → String → ℤ
balance_or_zero projections id =
    map_or (pos 0) (λ p. p.balance_minor) (find (λ p. p.account_id == id) projections)

-- `balanceFor`
unfoldable pub balance_for : List AccountProjection → List LedgerAccount → List AccountPurpose → ℤ
balance_for projections accounts purposes =
    reduce_sum (λ a. balance_or_zero projections a.account_id)
      (filter (λ a. any (λ p. same_purpose p a.purpose) purposes) accounts)

unfoldable pub reconcile_safeguarding :
    LedgerState → String → Currency → ℤ → Result LedgerError SafeguardingReconciliation
unfolding balance_for
reconcile_safeguarding state entity currency in_flight = do
  throw_if (not (is_safe_integer in_flight)) bad_adjustment
  let projections = project_accounts state
  let accounts = filter (λ a. a.legal_entity_id == entity && a.currency == currency) state.accounts
  let cash = balance_for projections accounts (safeguarded_cash ∷ [])
  let liabilities =
      balance_for projections accounts
        (customer_available ∷ customer_reserved ∷ customer_refund_payable ∷ [])
  let difference = cash +ℤ in_flight -ℤ liabilities
  ok (record {
    legal_entity_id = entity;
    currency = currency;
    safeguarded_cash_minor = cash;
    customer_liabilities_minor = liabilities;
    in_flight_adjustment_minor = in_flight;
    difference_minor = difference;
    passes = eqb_ℤ difference (pos 0);
  })
