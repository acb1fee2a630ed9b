-- ===== src/Ledger/Journals.antt =====
-- `createLedgerState` and `postJournal` of packages/ledger/src/index.ts.
use fuel_cap.Base.{
  ℕ, ◌+◌, String, Bool, true, false, not, ◌||◌, Option, none, some, List, [], ◌∷◌, ◌++◌, map, Dict,
  lookup, insert, ◌==◌, string_eq, has_duplicates, any, length, get_last?, map_or, if◌then◌else◌,
  nat_beq, Result, ok, err, ◌>>◌, throw_if,
}
use fuel_cap.Base.Objects.{is_inherited}
use fuel_cap.Base.Text.{is_blank}
use fuel_cap.Ledger.Types.{
  AccountType, asset, expense, Side, debit, credit, LedgerAccount, PostJournalCommand,
  JournalContent, PostedJournal, LedgerState, PostingResult, LedgerError, ledger_required,
  normal_balance_mismatch, key_reused, type_error, Host,
}
use fuel_cap.Ledger.Checks.{find_journal, validate_command}

abbrev pub required_normal : AccountType → Side
required_normal asset = debit
required_normal expense = debit
required_normal _ = credit

abbrev pub same_side : Side → Side → Bool
same_side debit debit = true
same_side credit credit = true
same_side _ _ = false

unfoldable pub account_is_bad : LedgerAccount → Bool
account_is_bad a =
    is_blank a.account_id
    || is_blank a.legal_entity_id
    || not (same_side a.normal_balance (required_normal a.account_type))

abbrev pub account_ids : List LedgerAccount → List String
account_ids = map (λ a. a.account_id)

abbrev pub empty_ledger : String → List LedgerAccount → LedgerState
empty_ledger ledger_id accounts = record {
  ledger_id = ledger_id;
  accounts = accounts;
  journals = [];
  idempotency = [];
}

-- `createLedgerState`
unfoldable pub create_ledger_state : String → List LedgerAccount → Result LedgerError LedgerState
create_ledger_state ledger_id accounts = do
  throw_if
      (is_blank ledger_id || nat_beq (length accounts) 0 || has_duplicates (account_ids accounts))
      ledger_required
  throw_if (any account_is_bad accounts) normal_balance_mismatch
  ok (empty_ledger ledger_id accounts)

-- What `state.idempotency[key]` gives: nothing (or the falsy empty string), a journal's identity, or
-- an inherited value, which is the identity of no journal.
pub data Entry : Type 0 where
  absent inherited : Entry
  present : String → Entry

abbrev pub own_entry : String → Entry
own_entry id = if id == "" then absent else present id

unfoldable pub read_entry : Dict String String → String → Entry
unfolding is_inherited
read_entry idempotency key = elim (lookup key idempotency) [
  | some id ↦ own_entry id
  | none ↦ if is_inherited key then inherited else absent
]

unfoldable pub next_sequence : List PostedJournal → ℕ
next_sequence journals = map_or 0 (λ j. j.content.sequence) (get_last? journals) + 1

unfoldable pub chain_head : List PostedJournal → String
chain_head journals = map_or "GENESIS" (λ j. j.integrity_hash) (get_last? journals)

-- The journal that is appended for a valid command.
unfoldable pub seal_journal : Host → LedgerState → PostJournalCommand → PostedJournal
seal_journal host state command =
    let content : JournalContent = record {
      command = command;
      sequence = next_sequence state.journals;
      previous_hash = chain_head state.journals;
      command_fingerprint = host.hash_command command;
    } in
    record { content = content; integrity_hash = host.hash_journal content }

unfoldable pub append_journal : LedgerState → PostedJournal → LedgerState
append_journal state journal = record state {
  journals = state.journals ++ journal ∷ [];
  idempotency =
      insert journal.content.command.idempotency_key journal.content.command.journal_id
        state.idempotency;
}

abbrev pub post_new : Host → LedgerState → PostJournalCommand → Result LedgerError PostingResult
post_new host state command = do
  validate_command host state command
  let journal = seal_journal host state command
  ok (record { state = append_journal state journal; journal = journal; idempotent_replay = false })

abbrev pub replay : LedgerState → String → Option PostedJournal → Result LedgerError PostingResult
replay state fingerprint none = err type_error
replay state fingerprint (some existing) = do
  throw_if (not (existing.content.command_fingerprint == fingerprint)) key_reused
  ok (record { state = state; journal = existing; idempotent_replay = true })

-- `postJournal`
unfoldable pub post_journal :
    Host → LedgerState → PostJournalCommand → Result LedgerError PostingResult
post_journal host state command = elim (read_entry state.idempotency command.idempotency_key) [
  | present id ↦ replay state (host.hash_command command) (find_journal state.journals id)
  | inherited ↦ err type_error
  | absent ↦ post_new host state command
]
