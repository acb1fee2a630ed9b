-- ===== src/Wallet.antt =====
-- Wallets derived from the journals: packages/wallet/src/index.ts.
pub mod Balance
pub mod Activity
pub mod Corrections
mod Tests
use fuel_cap.Base.{
  ℕ, ◌<◌, String, Bool, true, false, not, ◌&&◌, ◌||◌, Option, none, some, List, [], ◌∷◌, ◌++◌, map,
  ◌==◌, string_eq, includes, has_duplicates, find, any, all, filter, get_last?, map_or,
  if◌then◌else◌, Result, ok, err, ◌>>=◌, ◌>>◌, throw_if,
}
use fuel_cap.Base.Int.{ℤ, pos, negate, ◌+ℤ◌, eqb_ℤ, ltb_ℤ, reduce_sum}
use fuel_cap.Base.Text.{is_blank}
use fuel_cap.Ledger.{
  Host, LedgerState, LedgerAccount, PostedJournal, JournalLine, PositionMovement, MovementType,
  protect, is_reverse, allocate, redeem, release, reverse, AccountType, asset, liability, revenue,
  expense, equity_reserve, AccountPurpose, customer_available, customer_reserved,
  customer_refund_payable, same_purpose, Currency, currency_eq, same_side, credit,
  AccountProjection, find_account, find_journal, project_accounts, verify_ledger_integrity,
}

pub record WalletDefinition : Type 0 where
  pub wallet_id : String
  pub customer_id : String
  pub organisation_id : String
  pub legal_entity_id : String
  pub currency : Currency
  pub available_account_id : String
  pub reserved_account_id : String
  pub refund_payable_account_id : String
  pub position_ids : List String

pub data ReasonCode : Type 0 where
  ledger_integrity_failed negative_customer_liability negative_protected_quantity : ReasonCode

-- `state` is "BREAK" just when there are reason codes.
pub record WalletBalance : Type 0 where
  pub wallet_id : String
  pub customer_id : String
  pub currency : Currency
  pub available_minor : ℤ
  pub reserved_minor : ℤ
  pub refund_payable_minor : ℤ
  pub total_customer_value_minor : ℤ
  pub protected_quantity_4dp : ℤ
  pub is_break : Bool
  pub reason_codes : List ReasonCode
  pub through_sequence : ℕ
  pub through_integrity_hash : String

pub record WalletActivity : Type 0 where
  pub journal_id : String
  pub sequence : ℕ
  pub transaction_id : String
  pub event_type : String
  pub posted_at : String
  pub available_delta_minor : ℤ
  pub reserved_delta_minor : ℤ
  pub refund_payable_delta_minor : ℤ
  pub protected_quantity_delta_4dp : ℤ
  pub integrity_hash : String

pub data WalletError : Type 0 where
  identity_required accounts_not_distinct account_disagrees type_error snapshot_diverges :
      WalletError

abbrev pub effect_of : MovementType → ℤ → ℤ
effect_of protect n = n
effect_of redeem n = negate n
effect_of release n = negate n
effect_of _ n = pos 0

-- `movementEffect`
pub movement_effect : PositionMovement → ℤ
movement_effect m = effect_of m.movement_type m.quantity_4dp

abbrev is_liability : AccountType → Bool
is_liability liability = true
is_liability _ = false

abbrev pub account_fits : WalletDefinition → AccountPurpose → LedgerAccount → Bool
account_fits d purpose a =
    same_purpose a.purpose purpose
    && is_liability a.account_type
    && a.currency == d.currency
    && a.legal_entity_id == d.legal_entity_id

-- The loop over the three required accounts.
abbrev pub required_fits : LedgerState → WalletDefinition → String → AccountPurpose → Bool
required_fits s d id purpose = map_or false (account_fits d purpose) (find_account s.accounts id)

-- `validateDefinition`
pub validate_definition : LedgerState → WalletDefinition → Result WalletError (Unit {0})
validate_definition s d = do
  throw_if
      (is_blank d.wallet_id
        || is_blank d.customer_id
        || is_blank d.organisation_id
        || is_blank d.legal_entity_id)
      identity_required
  throw_if
      (has_duplicates
        (d.available_account_id ∷ d.reserved_account_id ∷ d.refund_payable_account_id ∷ []))
      accounts_not_distinct
  throw_if (not (required_fits s d d.available_account_id customer_available)) account_disagrees
  throw_if (not (required_fits s d d.reserved_account_id customer_reserved)) account_disagrees
  throw_if (not (required_fits s d d.refund_payable_account_id customer_refund_payable))
      account_disagrees

pub position_effect : List String → List PositionMovement → ℤ
position_effect position_ids movements =
    reduce_sum movement_effect (filter (λ m. includes position_ids m.position_id) movements)

abbrev pub is_correction : PostedJournal → Bool
is_correction j = map_or false (λ _. true) j.content.command.correction_of

-- The journal that a correction names; any other journal has none.
abbrev pub corrected : LedgerState → PostedJournal → Option PostedJournal
corrected s j = map_or none (find_journal s.journals) j.content.command.correction_of

-- `positionDeltaForJournal`, at the journal with the index
pub position_delta : LedgerState → List String → PostedJournal → ℤ
position_delta s position_ids j =
    let movements = j.content.command.position_movements in
    if is_correction j && all (λ m. is_reverse m.movement_type) movements
    then map_or (pos 0)
        (λ original.
          negate (position_effect position_ids original.content.command.position_movements))
        (corrected s j)
    else position_effect position_ids movements

-- `projections.find(...)!.balanceMinor`: on `undefined` the engine throws.
abbrev pub projected_balance : List AccountProjection → String → Result WalletError ℤ
projected_balance projections id =
    map_or (err type_error) (λ p. ok p.balance_minor) (find (λ p. p.account_id == id) projections)

abbrev is_negative : ℤ → Bool
is_negative n = ltb_ℤ n (pos 0)

abbrev code_if : Bool → ReasonCode → List ReasonCode
code_if test code = if test then code ∷ [] else []

abbrev is_nonempty : List ReasonCode → Bool
is_nonempty [] = false
is_nonempty (_ ∷ _) = true

-- What `deriveWalletBalance` returns for these three balances.
pub balance_of : Host → LedgerState → WalletDefinition → ℤ → ℤ → ℤ → WalletBalance
balance_of host s d available reserved refund_payable =
    let protected = reduce_sum (position_delta s d.position_ids) s.journals in
    let codes =
      code_if (not (verify_ledger_integrity host s)) ledger_integrity_failed
      ++ code_if (is_negative available || is_negative reserved || is_negative refund_payable)
          negative_customer_liability
      ++ code_if (is_negative protected) negative_protected_quantity in
    record {
      wallet_id = d.wallet_id;
      customer_id = d.customer_id;
      currency = d.currency;
      available_minor = available;
      reserved_minor = reserved;
      refund_payable_minor = refund_payable;
      total_customer_value_minor = available +ℤ reserved +ℤ refund_payable;
      protected_quantity_4dp = protected;
      is_break = is_nonempty codes;
      reason_codes = codes;
      through_sequence = map_or 0 (λ j. j.content.sequence) (get_last? s.journals);
      through_integrity_hash = map_or "GENESIS" (λ j. j.integrity_hash) (get_last? s.journals);
    }

-- `deriveWalletBalance`
pub derive_wallet_balance : Host → LedgerState → WalletDefinition → Result WalletError WalletBalance
unfolding balance_of
derive_wallet_balance host s d = do
  validate_definition s d
  let projections = project_accounts s
  available ← projected_balance projections d.available_account_id
  reserved ← projected_balance projections d.reserved_account_id
  refund_payable ← projected_balance projections d.refund_payable_account_id
  ok (balance_of host s d available reserved refund_payable)

abbrev credit_amount : JournalLine → ℤ
credit_amount l = if same_side l.side credit then l.amount_minor else negate l.amount_minor

-- `signedLiabilityDelta`
pub signed_liability_delta : String → List JournalLine → ℤ
signed_liability_delta id lines = reduce_sum credit_amount (filter (λ l. l.account_id == id) lines)

pub activity_of : LedgerState → WalletDefinition → PostedJournal → WalletActivity
activity_of s d j =
    let c = j.content.command in
    record {
      journal_id = c.journal_id;
      sequence = j.content.sequence;
      transaction_id = c.transaction_id;
      event_type = c.event_type;
      posted_at = c.posted_at;
      available_delta_minor = signed_liability_delta d.available_account_id c.lines;
      reserved_delta_minor = signed_liability_delta d.reserved_account_id c.lines;
      refund_payable_delta_minor = signed_liability_delta d.refund_payable_account_id c.lines;
      protected_quantity_delta_4dp = position_delta s d.position_ids j;
      integrity_hash = j.integrity_hash;
    }

pub has_effect : WalletActivity → Bool
has_effect a =
    not (eqb_ℤ a.available_delta_minor (pos 0))
    || not (eqb_ℤ a.reserved_delta_minor (pos 0))
    || not (eqb_ℤ a.refund_payable_delta_minor (pos 0))
    || not (eqb_ℤ a.protected_quantity_delta_4dp (pos 0))

-- `deriveWalletActivity`
pub derive_wallet_activity :
    LedgerState → WalletDefinition → Result WalletError (List WalletActivity)
derive_wallet_activity s d = do
  validate_definition s d
  ok (filter has_effect (map (activity_of s d) s.journals))

-- `assertWalletSnapshot`; `stringify` is `JSON.stringify` on wallet balances.
pub assert_wallet_snapshot :
    (WalletBalance → String)
    → Host
    → LedgerState
    → WalletDefinition
    → WalletBalance
    → Result WalletError WalletBalance
assert_wallet_snapshot stringify host s d expected = do
  rebuilt ← derive_wallet_balance host s d
  throw_if (not (stringify rebuilt == stringify expected)) snapshot_diverges
  ok rebuilt
