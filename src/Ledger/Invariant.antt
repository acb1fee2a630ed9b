-- ===== src/Ledger/Invariant.antt =====
-- What holds of every ledger that `createLedgerState` and `postJournal` of
-- packages/ledger/src/index.ts can reach.
use fuel_cap.Base.{
  ◌+◌, String, ◌≡◌, refl, sym, subst, ap, ◌∙◌, inl, inr, true, false, none, some, List, [], ◌∷◌,
  length, lookup, ◌==◌, string_eq, ==-eq, ==_refl, lookup-insert, find-append, find-append_none,
  All, All-append, has_duplicates, map_or-get_last?, Bool-cases, ||-eq_false, ◌||◌, any, nat_beq,
  some_eq, none_ne_some, ok, >>-eq_ok, ok_eq,
}
use fuel_cap.Base.Int.{pos}
use fuel_cap.Base.Text.{is_blank}
use fuel_cap.Ledger.{
  Host, LedgerAccount, LedgerState, LedgerError, PostedJournal, PostingResult, PostJournalCommand,
  Currency, account_ids, account_is_bad, empty_ledger, find_journal, create_ledger_state,
  verify_ledger_integrity, next_sequence, chain_head, seal_journal, append_journal, post_journal,
}
use fuel_cap.Ledger.Validation.{IsPosted, net}
use fuel_cap.Ledger.Posting.{post_journal-cases}
use fuel_cap.Ledger.Chain.{end_sequence-verify_from, verify_from-snoc}

-- A journal whose lines are posted to known accounts and whose debits are its credits.
pub record IsBalanced (accounts : List LedgerAccount) (j : PostedJournal) : Type 0 where
  pub posted :
      All (IsPosted accounts j.content.command.lineage.legal_entity_id) j.content.command.lines
  pub balanced : (c : Currency) → net c j.content.command.lines ≡ pos 0

-- A recorded key names a journal that was posted under it.
abbrev IsKeyed : List PostedJournal → String → String → Type 0
IsKeyed journals key id =
    (j : PostedJournal) × (find_journal journals id ≡ some j)
    × (j.content.command.idempotency_key ≡ key)

pub record IsValid (host : Host) (s : LedgerState) : Type 0 where
  pub unique_accounts : has_duplicates (account_ids s.accounts) ≡ false
  pub normal : any account_is_bad s.accounts ≡ false
  pub balanced : All (IsBalanced s.accounts) s.journals
  pub intact : verify_ledger_integrity host s ≡ true
  pub keyed : (key id : String) → lookup key s.idempotency ≡ some id → IsKeyed s.journals key id

-- A created ledger is valid: its accounts are distinct and it has no journal.
pub create_ledger_state-IsValid :
    (host : Host) (ledger_id : String) (accounts : List LedgerAccount) {s : LedgerState}
    → create_ledger_state ledger_id accounts ≡ ok s
    → IsValid host s
unfolding create_ledger_state verify_ledger_integrity
create_ledger_state-IsValid host ledger_id accounts h =
    let (required, h₁) =
      >>-eq_ok
        (is_blank ledger_id || nat_beq (length accounts) 0 || has_duplicates (account_ids accounts))
        LedgerError.ledger_required _ h in
    let (normal, h₂) =
      >>-eq_ok (any account_is_bad accounts) LedgerError.normal_balance_mismatch _ h₁ in
    subst (IsValid host) {x = empty_ledger ledger_id accounts} (ok_eq h₂) (record {
      unique_accounts =
          (||-eq_false (is_blank ledger_id || nat_beq (length accounts) 0) _ required).1;
      normal = normal;
      balanced = tt;
      intact = refl;
      keyed = λ key id e. absurd (none_ne_some (sym e));
    })

module _ (host : Host) (s : LedgerState) (c : PostJournalCommand) (v : IsValid host s)
    (fresh : find_journal s.journals c.journal_id ≡ none) where
  seal_journal-intact :
      verify_ledger_integrity host (append_journal s (seal_journal host s c)) ≡ true
  unfolding verify_ledger_integrity append_journal seal_journal next_sequence chain_head
  seal_journal-intact =
      verify_from-snoc host 0 "GENESIS" s.journals (seal_journal host s c) v.intact (record {
        numbered =
            ap (λ n. n + 1)
              (map_or-get_last? 0 (λ j. j.content.sequence) s.journals
                ∙ end_sequence-verify_from host 0 "GENESIS" s.journals v.intact);
        linked = map_or-get_last? "GENESIS" (λ j. j.integrity_hash) s.journals;
        sealed = refl;
      })

  append_journal-IsKeyed :
      (key id : String)
      → lookup key (append_journal s (seal_journal host s c)).idempotency ≡ some id
      → IsKeyed (append_journal s (seal_journal host s c)).journals key id
  unfolding append_journal seal_journal
  append_journal-IsKeyed key id e =
      let read = sym (lookup-insert c.idempotency_key key c.journal_id s.idempotency) ∙ e in
      elim (Bool-cases (c.idempotency_key == key)) [
        | inl same ↦ (
          seal_journal host s c,
          rw (← some_eq (rw same at read))
              (find-append_none _ s.journals (seal_journal host s c) fresh (==_refl c.journal_id)),
          ==-eq c.idempotency_key key same,
        )
        | inr other ↦
            let (j, found, keyed) = v.keyed key id (rw other at read) in
            (j, find-append _ s.journals (seal_journal host s c ∷ []) found, keyed)
      ]

-- A posting that returns keeps the invariant: accounts stay distinct and well formed, every journal balances in every
-- currency over agreeing accounts, the hash chain verifies, and every recorded key finds its journal.
pub post_journal-IsValid :
    (host : Host) (s : LedgerState) (c : PostJournalCommand) {r : PostingResult}
    → IsValid host s
    → post_journal host s c ≡ ok r
    → IsValid host r.state
unfolding append_journal seal_journal
post_journal-IsValid host s c {r} v h = elim (post_journal-cases host s c h) [
  | inl old ↦ subst (λ p. IsValid host p.state) (sym old.result) v
  | inr new ↦
      subst (λ p. IsValid host p.state) (sym new.result)
        (record {
          unique_accounts = v.unique_accounts;
          normal = v.normal;
          balanced =
              All-append (IsBalanced s.accounts) s.journals (seal_journal host s c ∷ []) v.balanced
                (record { posted = new.validated.posted; balanced = new.validated.balanced }, tt);
          intact = seal_journal-intact host s c v new.validated.fresh;
          keyed = append_journal-IsKeyed host s c v new.validated.fresh;
        })
]

-- The ledgers that a program can hold: a created one, and what postings make of it.
pub data Reachable (host : Host) : LedgerState → Type 0 where
  created :
      (ledger_id : String) (accounts : List LedgerAccount) {s : LedgerState}
      → create_ledger_state ledger_id accounts ≡ ok s
      → Reachable host s
  posted :
      {s t : LedgerState} (c : PostJournalCommand) {r : PostingResult}
      → Reachable host s
      → post_journal host s c ≡ ok r
      → r.state ≡ t
      → Reachable host t

-- Every ledger that creation and postings reach satisfies the invariant; in particular it passes the
-- integrity check.
pub Reachable-IsValid : (host : Host) (s : LedgerState) → Reachable host s → IsValid host s
Reachable-IsValid host s (created id accounts h) = create_ledger_state-IsValid host id accounts h
Reachable-IsValid host t (posted {s} c r h e) =
    subst (IsValid host) e (post_journal-IsValid host s c (Reachable-IsValid host s r) h)
