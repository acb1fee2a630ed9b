-- ===== src/Ledger/Posting.antt =====
-- What a call of `postJournal` of packages/ledger/src/index.ts has done when it returns: it has found
-- the journal that the key names, or appended a new one.
use fuel_cap.Base.{
  String, ◌≡◌, refl, subst, not-eq_false, inl, inr, ◌⊎◌, true, false, not, Option, none, some, ◌==◌,
  string_eq, ==-eq, ok, err, >>-eq_ok, >>=-eq_ok, ok_eq,
}
use fuel_cap.Ledger.{
  Host, LedgerState, LedgerError, PostedJournal, PostingResult, PostJournalCommand, Entry, absent,
  inherited, present, read_entry, find_journal, validate_command, seal_journal, append_journal,
  post_new, replay, post_journal,
}
use fuel_cap.Ledger.Validation.{IsValidated, validate_command-IsValidated}

-- The key names a recorded journal, whose command has the same fingerprint.
pub record IsReplay (host : Host) (s : LedgerState) (c : PostJournalCommand) (r : PostingResult)
    : Type 0 where
  pub id : String
  pub recorded : read_entry s.idempotency c.idempotency_key ≡ present id
  pub found : find_journal s.journals id ≡ some r.journal
  pub fingerprint : r.journal.content.command_fingerprint ≡ host.hash_command c
  pub result : r ≡ record { state = s; journal = r.journal; idempotent_replay = true }

-- The key is new, the command valid, and its journal appended.
pub record IsNew (host : Host) (s : LedgerState) (c : PostJournalCommand) (r : PostingResult)
    : Type 0 where
  pub unrecorded : read_entry s.idempotency c.idempotency_key ≡ absent
  pub validated : IsValidated host s c
  pub result : r ≡ record {
    state = append_journal s (seal_journal host s c);
    journal = seal_journal host s c;
    idempotent_replay = false;
  }

replay-IsReplay :
    (host : Host) (s : LedgerState) (c : PostJournalCommand) (id : String)
    (o : Option PostedJournal) {r : PostingResult}
    → read_entry s.idempotency c.idempotency_key ≡ present id
    → find_journal s.journals id ≡ o
    → replay s (host.hash_command c) o ≡ ok r
    → IsReplay host s c r
replay-IsReplay host s c id none e f h = absurd (cc)
replay-IsReplay host s c id (some j) {r} e f h =
    let (same, returned) =
      >>-eq_ok (not (j.content.command_fingerprint == host.hash_command c)) LedgerError.key_reused _
        h in
    subst (IsReplay host s c) (ok_eq returned) (record {
      id = id;
      recorded = e;
      found = f;
      fingerprint = ==-eq _ _ (not-eq_false _ same);
      result = refl;
    })

-- Every call that returns is one or the other.
pub post_journal-cases :
    (host : Host) (s : LedgerState) (c : PostJournalCommand) {r : PostingResult}
    → post_journal host s c ≡ ok r
    → IsReplay host s c r ⊎ IsNew host s c r
unfolding post_journal
post_journal-cases host s c {r} h = go (read_entry s.idempotency c.idempotency_key) refl h
  where
    go :
        (entry : Entry)
        → read_entry s.idempotency c.idempotency_key ≡ entry
        → elim entry [
          | present id ↦ replay s (host.hash_command c) (find_journal s.journals id)
          | inherited ↦ err LedgerError.type_error
          | absent ↦ post_new host s c
        ]
          ≡ ok r
        → IsReplay host s c r ⊎ IsNew host s c r
    go absent e h =
        let (_, valid, returned) = >>=-eq_ok (validate_command host s c) _ h in
        inr (
          subst (IsNew host s c) (ok_eq returned) (record {
            unrecorded = e;
            validated = validate_command-IsValidated host s c valid;
            result = refl;
          }))
    go inherited e h = absurd (cc)
    go (present id) e h = inl (replay-IsReplay host s c id (find_journal s.journals id) e refl h)
