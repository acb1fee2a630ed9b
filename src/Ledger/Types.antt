-- ===== src/Ledger/Types.antt =====
-- The data of packages/ledger/src/index.ts: accounts, journals and the state of a ledger.
-- `type` is a field's name in the source and is spelled `account_type` or `movement_type` here.
use fuel_cap.Base.{ℕ, String, Bool, true, false, Option, List, Dict, Eq, ◌≡◌, ◌↔◌, arith}
use fuel_cap.Base.Int.{ℤ}

pub data Currency : Type 0 where
  usd cad gbp eur : Currency

pub data AccountType : Type 0 where
  asset liability revenue expense equity_reserve : AccountType

pub data Side : Type 0 where
  debit credit : Side

pub data AccountPurpose : Type 0 where
  safeguarded_cash processor_clearing customer_available customer_reserved : AccountPurpose
  customer_refund_payable station_payable pool_funding buffer_reserve : AccountPurpose
  margin_revenue protection_claim hedge_asset_payable hedge_cost_recovery : AccountPurpose
  fx_rounding_gain_loss fx_bridge : AccountPurpose

pub data MovementType : Type 0 where
  protect allocate redeem release reverse : MovementType

-- `type === "REVERSE"`
abbrev pub is_reverse : MovementType → Bool
is_reverse reverse = true
is_reverse _ = false

abbrev pub same_currency : Currency → Currency → Bool
same_currency usd usd = true
same_currency cad cad = true
same_currency gbp gbp = true
same_currency eur eur = true
same_currency _ _ = false

pub same_currency_iff : (a b : Currency) → (same_currency a b ≡ true) ↔ (a ≡ b)
same_currency_iff a b = ground arith

instance abbrev pub currency_eq : Eq Currency
currency_eq = record { is_equal = same_currency; is_equal_iff = same_currency_iff }

pub record LedgerAccount : Type 0 where
  pub account_id : String
  pub legal_entity_id : String
  pub currency : Currency
  pub account_type : AccountType
  pub normal_balance : Side
  pub purpose : AccountPurpose

pub record JournalLine : Type 0 where
  pub line_id : String
  pub account_id : String
  pub currency : Currency
  pub side : Side
  pub amount_minor : ℤ

pub record PositionMovement : Type 0 where
  pub movement_id : String
  pub position_id : String
  pub fuel_product_id : String
  pub movement_type : MovementType
  pub quantity_4dp : ℤ

pub record PostingLineage : Type 0 where
  pub organisation_id : String
  pub legal_entity_id : String
  pub market : String
  pub source_contract_id : String
  pub rules_version : String
  pub scenario_id : Option String
  pub external_reference : Option String
  pub actor_id : String
  pub correlation_id : String

pub record PostJournalCommand : Type 0 where
  pub command_id : String
  pub idempotency_key : String
  pub journal_id : String
  pub transaction_id : String
  pub event_type : String
  pub posted_at : String
  pub lines : List JournalLine
  pub position_movements : List PositionMovement
  pub lineage : PostingLineage
  pub correction_of : Option String

-- `journalWithoutHash`: what the integrity hash is taken of. The constant `ledgerVersion` is left out.
pub record JournalContent : Type 0 where
  pub command : PostJournalCommand
  pub sequence : ℕ
  pub previous_hash : String
  pub command_fingerprint : String

pub record PostedJournal : Type 0 where
  pub content : JournalContent
  pub integrity_hash : String

pub record LedgerState : Type 0 where
  pub ledger_id : String
  pub accounts : List LedgerAccount
  pub journals : List PostedJournal
  pub idempotency : Dict String String

pub record AccountProjection : Type 0 where
  pub account_id : String
  pub currency : Currency
  pub debits_minor : ℤ
  pub credits_minor : ℤ
  pub balance_minor : ℤ

pub record PostingResult : Type 0 where
  pub state : LedgerState
  pub journal : PostedJournal
  pub idempotent_replay : Bool

-- One constructor for each `throw`; `type_error` is the engine's own, for a property of `undefined`.
pub data LedgerError : Type 0 where
  ledger_required normal_balance_mismatch identity_required lineage_required : LedgerError
  too_few_lines bad_line account_mismatch unbalanced bad_movement : LedgerError
  duplicate_journal unknown_correction key_reused type_error : LedgerError
  bad_adjustment same_maker_checker reason_required : LedgerError

-- What the ledger calls and does not implement: `Date.parse` (`none` for NaN), and the SHA-256 digest
-- of the JSON text of a command and of a journal.
pub record Host : Type 0 where
  pub date_parse : String → Option ℤ
  pub hash_command : PostJournalCommand → String
  pub hash_journal : JournalContent → String
