-- ===== src/Ledger/Inherited.antt =====
-- Idempotency keys that a plain object inherits, in `postJournal` of packages/ledger/src/index.ts.
use fuel_cap.Base.{
  String, ◌≡◌, refl, sym, subst, ap, ◌∙◌, inl, inr, true, false, false≢true, none, lookup, [], ◌∷◌,
  ◌==◌, string_eq, ==-eq, lookup-insert, Bool-cases, All, All-append, ok, ok_eq, >>-eq_ok, err,
}
use fuel_cap.Base.Objects.{is_inherited}
use fuel_cap.Ledger.{
  Host, LedgerState, LedgerError, PostJournalCommand, PostingResult, read_entry, inherited, absent,
  seal_journal, append_journal, create_ledger_state, post_journal,
}
use fuel_cap.Ledger.Posting.{post_journal-cases}
use fuel_cap.Ledger.Invariant.{Reachable, created, posted}

-- No key that objects inherit is in the index or under a journal.
pub record IsOwn (s : LedgerState) : Type 0 where
  pub unrecorded : (key : String) → is_inherited key ≡ true → lookup key s.idempotency ≡ none
  pub unposted : All (λ j. is_inherited j.content.command.idempotency_key ≡ false) s.journals

read_entry-inherited :
    (s : LedgerState) (key : String)
    → is_inherited key ≡ true
    → lookup key s.idempotency ≡ none
    → read_entry s.idempotency key ≡ inherited
unfolding read_entry
read_entry-inherited s key h e = rw (e, read_entry, h)

append_journal-IsOwn :
    (host : Host) (s : LedgerState) (c : PostJournalCommand)
    → IsOwn s
    → is_inherited c.idempotency_key ≡ false
    → IsOwn (append_journal s (seal_journal host s c))
unfolding append_journal seal_journal
append_journal-IsOwn host s c w own = record {
  unrecorded = λ key h.
      lookup-insert c.idempotency_key key c.journal_id s.idempotency
      ∙ elim (Bool-cases (c.idempotency_key == key)) [
        | inl e ↦ absurd (false≢true (sym own ∙ ap is_inherited (==-eq _ key e) ∙ h))
        | inr e ↦ rw e (w.unrecorded key h)
      ];
  unposted = All-append _ s.journals (seal_journal host s c ∷ []) w.unposted (own, tt);
}

post_journal-IsOwn :
    (host : Host) (s : LedgerState) (c : PostJournalCommand) {r : PostingResult}
    → IsOwn s
    → post_journal host s c ≡ ok r
    → IsOwn r.state
post_journal-IsOwn host s c w h = elim (post_journal-cases host s c h) [
  | inl old ↦ subst (λ p. IsOwn p.state) (sym old.result) w
  | inr new ↦
      subst (λ p. IsOwn p.state) (sym new.result)
        (append_journal-IsOwn host s c w (elim (Bool-cases (is_inherited c.idempotency_key)) [
          | inl i ↦ absurd (
              clash (
                sym (read_entry-inherited s c.idempotency_key i (w.unrecorded _ i))
                ∙ new.unrecorded))
          | inr o ↦ o
        ]))
]
  where
    clash : inherited ≡ absent → ⊥
    clash e = cc

Reachable-IsOwn : (host : Host) (s : LedgerState) → Reachable host s → IsOwn s
unfolding create_ledger_state
Reachable-IsOwn host s (created id accounts h) =
    let (_, h₁) = >>-eq_ok _ LedgerError.ledger_required _ h in
    let (_, h₂) = >>-eq_ok _ LedgerError.normal_balance_mismatch _ h₁ in
    subst IsOwn (ok_eq h₂) (record { unrecorded = λ key i. refl; unposted = tt })
Reachable-IsOwn host t (posted {s} c r h e) =
    subst IsOwn e (post_journal-IsOwn host s c (Reachable-IsOwn host s r) h)

-- A key that every object inherits, such as "constructor", is never posted: no ledger that creation
-- and postings reach has a journal or an index entry under such a key, and every command with one
-- ends in the engine's error.
pub post_journal-inherited :
    (host : Host) (s : LedgerState) (c : PostJournalCommand)
    → Reachable host s
    → is_inherited c.idempotency_key ≡ true
    → (post_journal host s c ≡ err LedgerError.type_error) × IsOwn s
unfolding post_journal
post_journal-inherited host s c r h =
    let w = Reachable-IsOwn host s r in
    (rw (read_entry-inherited s c.idempotency_key h (w.unrecorded _ h), post_journal), w)
