-- ===== src/Ledger/Tests.antt =====
-- Runs of the ledger model, and its theorems at inputs where their hypotheses hold.
use fuel_cap.Base.{
  ◌≡◌, refl, sym, ap, ◌∙◌, true, List, [], ◌∷◌, string_eq, ne_of_==, ◌≢◌, Memᴰ, ok, err,
}
use fuel_cap.Base.Int.{pos, negate, ◌+ℤ◌}
use fuel_cap.Base.Text.{is_blank}
use fuel_cap.Base.Objects.{is_inherited}
use fuel_cap.Ledger.{
  LedgerError, PostedJournal, usd, debit, credit, post_journal, read_entry, validate_command,
  identity_missing, lineage_missing, check_lines, line_is_bad, account_agrees, add_line, signed,
  chain_head, verify_from, verify_ledger_integrity, project_accounts, all_lines,
}
use fuel_cap.Ledger.Invariant.{IsValid, created, post_journal-IsValid, Reachable-IsValid}
use fuel_cap.Ledger.Idempotency.{post_journal-post_journal}
use fuel_cap.Ledger.Inherited.{IsOwn, post_journal-inherited}
use fuel_cap.Ledger.Chain.{chain_head-injective}
use fuel_cap.Ledger.Projection.{trial_balance, account_net, project_accounts-trial_balance}
use fuel_cap.Ledger.Reversal.{post_journal-reversal}
use fuel_cap.Ledger.Sample.{
  host, accounts, ledger_0, ledger_0_created, deposit, journal_1, ledger_1, deposit_posted,
  ledger_1-Reachable, correction, reversal, reversal_made, ledger_2, result_2, reversal_posted,
}

unbalanced_refused :
    post_journal host ledger_0 (record deposit {
      lines =
          record {
            line_id = "l-1";
            account_id = "cash";
            currency = usd;
            side = debit;
            amount_minor = pos 500;
          }
          ∷ record {
            line_id = "l-2";
            account_id = "available";
            currency = usd;
            side = credit;
            amount_minor = pos 499;
          }
          ∷ [];
    })
    ≡ err LedgerError.unbalanced
unfolding post_journal read_entry is_inherited validate_command identity_missing lineage_missing
    is_blank check_lines line_is_bad account_agrees add_line signed ◌+ℤ◌ negate
unbalanced_refused = refl

project_accounts-trial_balance_example : trial_balance usd (project_accounts ledger_1) ≡ pos 0
project_accounts-trial_balance_example =
    project_accounts-trial_balance host ledger_1 usd ledger_1-Reachable

post_journal-IsValid_example : IsValid host ledger_1
post_journal-IsValid_example =
    post_journal-IsValid host ledger_0 deposit
      (Reachable-IsValid host ledger_0 (created "ledger" accounts ledger_0_created)) deposit_posted

post_journal-post_journal_example :
    post_journal host ledger_1 deposit
    ≡ ok (record { state = ledger_1; journal = journal_1; idempotent_replay = true })
post_journal-post_journal_example = post_journal-post_journal host ledger_0 deposit deposit_posted

post_journal-inherited_example :
    (post_journal host ledger_1 (record deposit { idempotency_key = "constructor" })
      ≡ err LedgerError.type_error)
    × IsOwn ledger_1
unfolding is_inherited
post_journal-inherited_example =
    post_journal-inherited host ledger_1 (record deposit { idempotency_key = "constructor" })
      ledger_1-Reachable refl

ledger_1_intact : verify_ledger_integrity host ledger_1 ≡ true
unfolding verify_ledger_integrity verify_from
ledger_1_intact = refl

ledger_1_no_genesis :
    (j : PostedJournal) → Memᴰ j ledger_1.journals → host.hash_journal j.content ≢ "GENESIS"
ledger_1_no_genesis j (Memᴰ.head e) g =
    ne_of_== {a = "j-1"} refl (sym (ap (λ k. host.hash_journal k.content) e) ∙ g)
ledger_1_no_genesis j (Memᴰ.tail m) g = elim m [ ]

ledger_1_no_collision :
    (j k : PostedJournal)
    → Memᴰ j ledger_1.journals
    → Memᴰ k ledger_1.journals
    → host.hash_journal j.content ≡ host.hash_journal k.content
    → j.content ≡ k.content
ledger_1_no_collision j k (Memᴰ.head e) (Memᴰ.head f) h = ap (λ l. l.content) (e ∙ sym f)
ledger_1_no_collision j k (Memᴰ.head e) (Memᴰ.tail m) h = elim m [ ]
ledger_1_no_collision j k (Memᴰ.tail m) n h = elim m [ ]

chain_head-injective_example : ◌≡◌ {A = List PostedJournal} ledger_1.journals ledger_1.journals
unfolding chain_head
chain_head-injective_example =
    chain_head-injective host ledger_1 ledger_1 ledger_1_no_collision ledger_1_no_genesis
      ledger_1_no_genesis ledger_1_intact ledger_1_intact refl

post_journal-reversal_example :
    account_net "available" (all_lines ledger_2.journals) +ℤ account_net "available" deposit.lines
    ≡ account_net "available" (all_lines ledger_1.journals)
post_journal-reversal_example =
    post_journal-reversal host ledger_1 journal_1 correction {c = reversal} {r = result_2}
      reversal_made reversal_posted refl "available"
