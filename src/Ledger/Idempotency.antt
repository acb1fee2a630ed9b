-- ===== src/Ledger/Idempotency.antt =====
-- Idempotency keys of `postJournal` in packages/ledger/src/index.ts.
use fuel_cap.Base.{
  String, ◌≡◌, refl, sym, subst, ◌∙◌, inl, inr, ◌≢◌, true, false, none, some, ◌==◌, string_eq,
  ==_refl, ==-eq, lookup-insert, find-append_none, Bool-cases, arith, ok, err,
}
use fuel_cap.Base.Text.{ne_empty_of_not_blank}
use fuel_cap.Ledger.{
  Host, LedgerState, LedgerError, PostedJournal, PostingResult, PostJournalCommand, present,
  own_entry, read_entry, find_journal, identity_missing, seal_journal, append_journal, post_journal,
}
use fuel_cap.Ledger.Posting.{post_journal-cases}

module _ (host : Host) (s : LedgerState) (c : PostJournalCommand) {id : String} {j : PostedJournal}
    (recorded : read_entry s.idempotency c.idempotency_key ≡ present id)
    (found : find_journal s.journals id ≡ some j) where
  post_recorded :
      j.content.command_fingerprint ≡ host.hash_command c
      → post_journal host s c ≡ ok (record { state = s; journal = j; idempotent_replay = true })
  unfolding post_journal
  post_recorded same = rw (recorded, post_journal, found, same, ==_refl (host.hash_command c))

  post_conflict :
      j.content.command_fingerprint ≢ host.hash_command c
      → post_journal host s c ≡ err LedgerError.key_reused
  unfolding post_journal
  post_conflict differs =
      rw (recorded, post_journal, found)
        (elim (Bool-cases (j.content.command_fingerprint == host.hash_command c)) [
          | inl e ↦ absurd (differs (==-eq _ _ e))
          | inr e ↦ rw e
        ])

-- An identity that passed the check is not the empty string, so the entry that holds it is read back.
own_entry_of_identified :
    (host : Host) (c : PostJournalCommand)
    → identity_missing host c ≡ false
    → own_entry c.journal_id ≡ present c.journal_id
unfolding identity_missing
own_entry_of_identified host c h = rw (ne_empty_of_not_blank c.journal_id (ground arith))

read_entry-append_journal :
    (host : Host) (s : LedgerState) (c : PostJournalCommand)
    → identity_missing host c ≡ false
    → read_entry (append_journal s (seal_journal host s c)).idempotency c.idempotency_key
      ≡ present c.journal_id
unfolding read_entry append_journal seal_journal
read_entry-append_journal host s c h =
    rw
      (
        lookup-insert c.idempotency_key c.idempotency_key c.journal_id s.idempotency,
        read_entry,
        ==_refl c.idempotency_key,
      )
      (own_entry_of_identified host c h)

find_journal-append_journal :
    (host : Host) (s : LedgerState) (c : PostJournalCommand)
    → find_journal s.journals c.journal_id ≡ none
    → find_journal (append_journal s (seal_journal host s c)).journals c.journal_id
      ≡ some (seal_journal host s c)
unfolding append_journal seal_journal
find_journal-append_journal host s c h =
    find-append_none _ s.journals (seal_journal host s c) h (==_refl c.journal_id)

-- After a posting the key is recorded under a journal that has the command's fingerprint.
pub record IsRecorded (host : Host) (c : PostJournalCommand) (r : PostingResult) : Type 0 where
  pub id : String
  pub entry : read_entry r.state.idempotency c.idempotency_key ≡ present id
  pub found : find_journal r.state.journals id ≡ some r.journal
  pub fingerprint : r.journal.content.command_fingerprint ≡ host.hash_command c

pub post_journal-IsRecorded :
    (host : Host) (s : LedgerState) (c : PostJournalCommand) {r : PostingResult}
    → post_journal host s c ≡ ok r
    → IsRecorded host c r
unfolding seal_journal
post_journal-IsRecorded host s c {r} h = elim (post_journal-cases host s c h) [
  | inl old ↦ subst (IsRecorded host c) (sym old.result) (record {
    id = old.id;
    entry = old.recorded;
    found = old.found;
    fingerprint = old.fingerprint;
  })
  | inr new ↦ subst (IsRecorded host c) (sym new.result) (record {
    id = c.journal_id;
    entry = read_entry-append_journal host s c new.validated.identified;
    found = find_journal-append_journal host s c new.validated.fresh;
    fingerprint = refl;
  })
]

-- A command that was posted can be sent again: the second call returns the first call's journal,
-- marked as a replay, and leaves the ledger as the first call left it.
pub post_journal-post_journal :
    (host : Host) (s : LedgerState) (c : PostJournalCommand) {r : PostingResult}
    → post_journal host s c ≡ ok r
    → post_journal host r.state c
      ≡ ok (record { state = r.state; journal = r.journal; idempotent_replay = true })
post_journal-post_journal host s c {r} h =
    let w = post_journal-IsRecorded host s c h in
    post_recorded host r.state c w.entry w.found w.fingerprint

-- Once a command is posted, another command with the same idempotency key and a different
-- fingerprint is refused with the error for a reused key.
pub post_journal-key_reused :
    (host : Host) (s : LedgerState) (c d : PostJournalCommand) {r : PostingResult}
    → post_journal host s c ≡ ok r
    → d.idempotency_key ≡ c.idempotency_key
    → host.hash_command d ≢ host.hash_command c
    → post_journal host r.state d ≡ err LedgerError.key_reused
post_journal-key_reused host s c d {r} h same differs =
    let w = post_journal-IsRecorded host s c h in
    post_conflict host r.state d (rw same w.entry) w.found (λ e. differs (sym e ∙ w.fingerprint))
