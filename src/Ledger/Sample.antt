-- ===== src/Ledger/Sample.antt =====
-- A small ledger: a deposit and its reversal, with the runs of the model that post them.
use fuel_cap.Base.{◌≡◌, refl, false, none, some, List, [], ◌∷◌, string_eq, ok}
use fuel_cap.Base.Int.{pos, negate, ◌+ℤ◌}
use fuel_cap.Base.Text.{is_blank, show_ℕ}
use fuel_cap.Base.Objects.{is_inherited}
use fuel_cap.Ledger.{
  Host, LedgerState, LedgerAccount, PostedJournal, PostingResult, PostJournalCommand,
  PostingLineage, protect, reverse, ReversalInput, usd, asset, liability, debit, credit,
  safeguarded_cash, customer_available, customer_reserved, customer_refund_payable, empty_ledger,
  create_ledger_state, account_is_bad, post_journal, read_entry, validate_command, identity_missing,
  lineage_missing, check_lines, line_is_bad, account_agrees, add_line, signed, check_movements,
  movement_is_bad, seal_journal, append_journal, next_sequence, chain_head, create_reversal_command,
  reverse_lines, reverse_movements,
}
use fuel_cap.Ledger.Invariant.{Reachable, created, posted}

abbrev pub host : Host
host = record {
  date_parse = λ _. some (pos 0);
  hash_command = λ c. c.command_id;
  hash_journal = λ c. c.command.journal_id;
}

abbrev pub cash : LedgerAccount
cash = record {
  account_id = "cash";
  legal_entity_id = "fc";
  currency = usd;
  account_type = asset;
  normal_balance = debit;
  purpose = safeguarded_cash;
}

abbrev pub available : LedgerAccount
available = record cash {
  account_id = "available";
  account_type = liability;
  normal_balance = credit;
  purpose = customer_available;
}

abbrev pub reserved : LedgerAccount
reserved = record available { account_id = "reserved"; purpose = customer_reserved }

abbrev pub refunds : LedgerAccount
refunds = record available { account_id = "refunds"; purpose = customer_refund_payable }

abbrev pub accounts : List LedgerAccount
accounts = cash ∷ available ∷ reserved ∷ refunds ∷ []

abbrev pub ledger_0 : LedgerState
ledger_0 = empty_ledger "ledger" accounts

pub ledger_0_created : create_ledger_state "ledger" accounts ≡ ok ledger_0
unfolding create_ledger_state account_is_bad is_blank
ledger_0_created = refl

abbrev pub lineage : PostingLineage
lineage = record {
  organisation_id = "org";
  legal_entity_id = "fc";
  market = "US";
  source_contract_id = "contract";
  rules_version = "rules";
  scenario_id = none;
  external_reference = none;
  actor_id = "maker";
  correlation_id = "corr";
}

abbrev pub deposit : PostJournalCommand
deposit = record {
  command_id = "c-1";
  idempotency_key = "key-1";
  journal_id = "j-1";
  transaction_id = "t-1";
  event_type = "DEPOSIT";
  posted_at = "2026-09-01";
  lines =
      record {
        line_id = "l-1";
        account_id = "cash";
        currency = usd;
        side = debit;
        amount_minor = pos 500;
      }
      ∷ record {
        line_id = "l-2";
        account_id = "available";
        currency = usd;
        side = credit;
        amount_minor = pos 500;
      }
      ∷ [];
  position_movements =
      record {
        movement_id = "m-1";
        position_id = "p-1";
        fuel_product_id = "FP-1";
        movement_type = protect;
        quantity_4dp = pos 10;
      }
      ∷ [];
  lineage = lineage;
  correction_of = none;
}

-- The same key with another command.
abbrev pub other_deposit : PostJournalCommand
other_deposit = record deposit { command_id = "c-2" }

abbrev pub journal_1 : PostedJournal
journal_1 = record {
  content = record {
    command = deposit;
    sequence = 1;
    previous_hash = "GENESIS";
    command_fingerprint = "c-1";
  };
  integrity_hash = "j-1";
}

abbrev pub ledger_1 : LedgerState
ledger_1 = record ledger_0 { journals = journal_1 ∷ []; idempotency = ("key-1", "j-1") ∷ [] }

abbrev pub result_1 : PostingResult
result_1 = record { state = ledger_1; journal = journal_1; idempotent_replay = false }

pub deposit_posted : post_journal host ledger_0 deposit ≡ ok result_1
unfolding post_journal read_entry is_inherited validate_command identity_missing lineage_missing
    is_blank check_lines line_is_bad account_agrees add_line signed ◌+ℤ◌ negate check_movements
    movement_is_bad seal_journal append_journal next_sequence chain_head
deposit_posted = refl

pub ledger_1-Reachable : Reachable host ledger_1
ledger_1-Reachable = posted deposit (created "ledger" accounts ledger_0_created) deposit_posted refl

abbrev pub correction : ReversalInput
correction = record {
  command_id = "c-3";
  idempotency_key = "key-3";
  journal_id = "j-3";
  transaction_id = "t-3";
  posted_at = "2026-09-02";
  actor_id = "maker";
  approver_id = "checker";
  reason = "duplicate";
}

abbrev pub reversal : PostJournalCommand
reversal = record {
  command_id = "c-3";
  idempotency_key = "key-3";
  journal_id = "j-3";
  transaction_id = "t-3";
  event_type = "REVERSAL:DEPOSIT";
  posted_at = "2026-09-02";
  lines =
      record {
        line_id = "j-3:LINE:1";
        account_id = "cash";
        currency = usd;
        side = credit;
        amount_minor = pos 500;
      }
      ∷ record {
        line_id = "j-3:LINE:2";
        account_id = "available";
        currency = usd;
        side = debit;
        amount_minor = pos 500;
      }
      ∷ [];
  position_movements =
      record {
        movement_id = "j-3:MOV:1";
        position_id = "p-1";
        fuel_product_id = "FP-1";
        movement_type = reverse;
        quantity_4dp = pos 10;
      }
      ∷ [];
  lineage = record lineage {
    source_contract_id = "contract:REVERSAL";
    correlation_id = "corr:REVERSAL";
  };
  correction_of = some "j-1";
}

pub reversal_made : create_reversal_command journal_1 correction ≡ ok reversal
unfolding create_reversal_command reverse_lines reverse_movements is_blank show_ℕ
reversal_made = refl

abbrev pub journal_2 : PostedJournal
journal_2 = record {
  content = record {
    command = reversal;
    sequence = 2;
    previous_hash = "j-1";
    command_fingerprint = "c-3";
  };
  integrity_hash = "j-3";
}

abbrev pub ledger_2 : LedgerState
ledger_2 = record ledger_0 {
  journals = journal_1 ∷ journal_2 ∷ [];
  idempotency = ("key-1", "j-1") ∷ ("key-3", "j-3") ∷ [];
}

abbrev pub result_2 : PostingResult
result_2 = record { state = ledger_2; journal = journal_2; idempotent_replay = false }

pub reversal_posted : post_journal host ledger_1 reversal ≡ ok result_2
unfolding post_journal read_entry is_inherited validate_command identity_missing lineage_missing
    is_blank check_lines line_is_bad account_agrees add_line signed ◌+ℤ◌ negate check_movements
    movement_is_bad seal_journal append_journal next_sequence chain_head
reversal_posted = refl

-- A reversal of the reversal.
abbrev pub second_correction : ReversalInput
second_correction = record correction {
  command_id = "c-4";
  idempotency_key = "key-4";
  journal_id = "j-4";
  transaction_id = "t-4";
}

abbrev pub second_reversal : PostJournalCommand
second_reversal = record {
  command_id = "c-4";
  idempotency_key = "key-4";
  journal_id = "j-4";
  transaction_id = "t-4";
  event_type = "REVERSAL:REVERSAL:DEPOSIT";
  posted_at = "2026-09-02";
  lines =
      record {
        line_id = "j-4:LINE:1";
        account_id = "cash";
        currency = usd;
        side = debit;
        amount_minor = pos 500;
      }
      ∷ record {
        line_id = "j-4:LINE:2";
        account_id = "available";
        currency = usd;
        side = credit;
        amount_minor = pos 500;
      }
      ∷ [];
  position_movements =
      record {
        movement_id = "j-4:MOV:1";
        position_id = "p-1";
        fuel_product_id = "FP-1";
        movement_type = reverse;
        quantity_4dp = pos 10;
      }
      ∷ [];
  lineage = record lineage {
    source_contract_id = "contract:REVERSAL:REVERSAL";
    correlation_id = "corr:REVERSAL:REVERSAL";
  };
  correction_of = some "j-3";
}

pub second_reversal_made : create_reversal_command journal_2 second_correction ≡ ok second_reversal
unfolding create_reversal_command reverse_lines reverse_movements is_blank show_ℕ
second_reversal_made = refl

abbrev pub journal_3 : PostedJournal
journal_3 = record {
  content = record {
    command = second_reversal;
    sequence = 3;
    previous_hash = "j-3";
    command_fingerprint = "c-4";
  };
  integrity_hash = "j-4";
}
