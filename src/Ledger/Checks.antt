-- ===== src/Ledger/Checks.antt =====
-- `validateCommand` of packages/ledger/src/index.ts.
use fuel_cap.Base.{
  String, Bool, false, not, ◌&&◌, ◌||◌, Option, none, some, List, [], ◌∷◌, Dict, lookup, insert,
  values, ◌==◌, string_eq, includes, find, any, length, map_or, is_some, ltb, Result, ok, ◌>>=◌,
  ◌>>◌, throw_if,
}
use fuel_cap.Base.Int.{ℤ, pos, negate, ◌+ℤ◌, eqb_ℤ, leb_ℤ, is_safe_integer}
use fuel_cap.Base.Text.{is_blank}
use fuel_cap.Ledger.Types.{
  currency_eq, Currency, Side, debit, credit, LedgerAccount, JournalLine, PositionMovement,
  PostingLineage, PostJournalCommand, PostedJournal, LedgerState, LedgerError, identity_required,
  lineage_required, too_few_lines, bad_line, account_mismatch, unbalanced, bad_movement,
  duplicate_journal, unknown_correction, Host,
}

abbrev pub find_account : List LedgerAccount → String → Option LedgerAccount
find_account accounts id = find (λ a. a.account_id == id) accounts

abbrev pub find_journal : List PostedJournal → String → Option PostedJournal
find_journal journals id = find (λ j. j.content.command.journal_id == id) journals

-- `signed`
unfoldable pub signed : Side → ℤ → ℤ
signed debit n = n
signed credit n = negate n

-- The account found for a line exists, in the line's currency and the command's legal entity.
abbrev pub agrees_with : String → JournalLine → LedgerAccount → Bool
agrees_with entity line a = a.currency == line.currency && a.legal_entity_id == entity

unfoldable pub account_agrees : List LedgerAccount → String → JournalLine → Bool
account_agrees accounts entity line =
    map_or false (agrees_with entity line) (find_account accounts line.account_id)

unfoldable pub line_is_bad : List String → JournalLine → Bool
line_is_bad line_ids line =
    is_blank line.line_id
    || includes line_ids line.line_id
    || not (is_safe_integer line.amount_minor)
    || leb_ℤ line.amount_minor (pos 0)

abbrev pub get_or_zero : Option ℤ → ℤ
get_or_zero none = pos 0
get_or_zero (some n) = n

-- `balances.set(currency, (balances.get(currency) ?? 0) + signed(side, amountMinor))`
unfoldable pub add_line : JournalLine → Dict Currency ℤ → Dict Currency ℤ
add_line line balances =
    insert line.currency
      (get_or_zero (lookup line.currency balances) +ℤ signed line.side line.amount_minor) balances

-- The loop over the lines, on the identities and the balances that it has collected.
unfoldable pub check_lines :
    List LedgerAccount
    → String
    → List JournalLine
    → List String
    → Dict Currency ℤ
    → Result LedgerError (Dict Currency ℤ)
check_lines accounts entity [] line_ids balances = ok balances
check_lines accounts entity (line ∷ lines) line_ids balances = do
  throw_if (line_is_bad line_ids line) bad_line
  throw_if (not (account_agrees accounts entity line)) account_mismatch
  check_lines accounts entity lines (line.line_id ∷ line_ids) (add_line line balances)

unfoldable pub movement_is_bad : List String → PositionMovement → Bool
movement_is_bad movement_ids movement =
    is_blank movement.movement_id
    || includes movement_ids movement.movement_id
    || is_blank movement.position_id
    || is_blank movement.fuel_product_id
    || not (is_safe_integer movement.quantity_4dp)
    || leb_ℤ movement.quantity_4dp (pos 0)

unfoldable pub check_movements : List PositionMovement → List String → Result LedgerError (Unit {0})
check_movements [] movement_ids = ok tt
check_movements (movement ∷ movements) movement_ids = do
  throw_if (movement_is_bad movement_ids movement) bad_movement
  check_movements movements (movement.movement_id ∷ movement_ids)

unfoldable pub identity_missing : Host → PostJournalCommand → Bool
identity_missing host c =
    is_blank c.command_id
    || is_blank c.idempotency_key
    || is_blank c.journal_id
    || is_blank c.transaction_id
    || is_blank c.event_type
    || not (is_some (host.date_parse c.posted_at))

unfoldable pub lineage_missing : PostingLineage → Bool
lineage_missing l =
    is_blank l.organisation_id
    || is_blank l.legal_entity_id
    || is_blank l.source_contract_id
    || is_blank l.rules_version
    || is_blank l.actor_id
    || is_blank l.correlation_id

abbrev pub correction_missing : List PostedJournal → Option String → Bool
correction_missing journals none = false
correction_missing journals (some id) = not (is_some (find_journal journals id))

-- `validateCommand`
unfoldable pub validate_command :
    Host → LedgerState → PostJournalCommand → Result LedgerError (Unit {0})
validate_command host state command = do
  throw_if (identity_missing host command) identity_required
  throw_if (lineage_missing command.lineage) lineage_required
  throw_if (ltb (length command.lines) 2) too_few_lines
  balances ← check_lines state.accounts command.lineage.legal_entity_id command.lines [] []
  throw_if (any (λ balance. not (eqb_ℤ balance (pos 0))) (values balances)) unbalanced
  check_movements command.position_movements []
  throw_if (is_some (find_journal state.journals command.journal_id)) duplicate_journal
  throw_if (correction_missing state.journals command.correction_of) unknown_correction
