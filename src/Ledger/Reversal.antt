-- ===== src/Ledger/Reversal.antt =====
-- Corrections of packages/ledger/src/index.ts: the command that `createReversalCommand` makes.
use fuel_cap.Base.{
  all, ℕ, ◌+◌, String, ◌≡◌, refl, sym, ap, ◌∙◌, Bool, true, false, List, [], ◌∷◌, ◌++◌, ◌==◌,
  string_eq, if◌then◌else◌, ok, >>-eq_ok, ok_eq, some, false≢true, inl, inr, Bool-cases,
}
use fuel_cap.Base.Int.{ℤ, pos, negate, ◌+ℤ◌, int_laws, sum_of, sum_of-append}
use fuel_cap.Base.Text.{is_blank}
use fuel_cap.Ledger.{
  PositionMovement, is_reverse, reverse_movements, Host, LedgerState, PostingResult, all_lines,
  append_journal, seal_journal, post_journal, Side, debit, credit, opposite, JournalLine,
  PostedJournal, PostJournalCommand, ReversalInput, LedgerError, signed, Currency, same_currency,
  reverse_lines, create_reversal_command,
}
use fuel_cap.Ledger.Validation.{net}
use fuel_cap.Ledger.Posting.{post_journal-cases}
use fuel_cap.Ledger.Projection.{account_net, account_line_net}

signed-opposite : (s : Side) (n : ℤ) → signed (opposite s) n ≡ negate (signed s n)
unfolding signed
signed-opposite debit n = refl
signed-opposite credit n = omega int_laws

-- Any total of signed amounts over lines chosen by their account and currency is turned round.
sum-reverse_lines :
    (chosen : String → Currency → Bool) (id : String) (n : ℕ) (ls : List JournalLine)
    → let f : JournalLine → ℤ =
        λ l. if chosen l.account_id l.currency then signed l.side l.amount_minor else pos 0 in
      sum_of f (reverse_lines id n ls) ≡ negate (sum_of f ls)
unfolding reverse_lines
sum-reverse_lines chosen id n [] = omega int_laws
sum-reverse_lines chosen id n (l ∷ ls) = elim (Bool-cases (chosen l.account_id l.currency)) [
  | inl e ↦
      rw (e, signed-opposite l.side l.amount_minor, sum-reverse_lines chosen id (n + 1) ls)
        (omega int_laws)
  | inr e ↦ rw (e, sum-reverse_lines chosen id (n + 1) ls) (omega int_laws)
]

-- A reversal undoes its original: it refers to it, and on every account, and in every currency, the
-- debits less credits of its lines are the negated ones of the original's.
pub create_reversal_command-cancels :
    (original : PostedJournal) (input : ReversalInput) {c : PostJournalCommand}
    → create_reversal_command original input ≡ ok c
    → (c.correction_of ≡ some original.content.command.journal_id)
      × ((id : String)
          → account_net id c.lines ≡ negate (account_net id original.content.command.lines))
      × ((cur : Currency) → net cur c.lines ≡ negate (net cur original.content.command.lines))
unfolding create_reversal_command
create_reversal_command-cancels original input {c} h =
    let (_, h₁) =
      >>-eq_ok (input.actor_id == input.approver_id) LedgerError.same_maker_checker _ h in
    let (_, h₂) = >>-eq_ok (is_blank input.reason) LedgerError.reason_required _ h₁ in
    let made = sym (ok_eq h₂) in
    let lines = original.content.command.lines in
    (
      ap (λ d. d.correction_of) made,
      λ id.
          ap (λ d. account_net id d.lines) made
          ∙ sum-reverse_lines (λ account _. account == id) input.journal_id 1 lines,
      λ cur.
          ap (λ d. net cur d.lines) made
          ∙ sum-reverse_lines (λ _ currency. same_currency currency cur) input.journal_id 1 lines,
    )

account_net-all_lines :
    (id : String) (js : List PostedJournal) (j : PostedJournal)
    → account_net id (all_lines (js ++ j ∷ []))
      ≡ account_net id (all_lines js) +ℤ account_net id j.content.command.lines
unfolding all_lines
account_net-all_lines id [] j =
    sum_of-append (account_line_net id) j.content.command.lines [] ∙ omega int_laws
account_net-all_lines id (k ∷ js) j =
    let lines = k.content.command.lines in
    sum_of-append (account_line_net id) lines (all_lines (js ++ j ∷ []))
    ∙ ap (λ n. account_net id lines +ℤ n) (account_net-all_lines id js j)
    ∙ omega int_laws
    ∙ ap (λ n. n +ℤ account_net id j.content.command.lines)
        (sym (sum_of-append (account_line_net id) lines (all_lines js)))

-- When the reversal of a journal is posted as a new journal, the net of every account moves by the
-- negated net of the original journal: with the original's net added back it is what it was.
pub post_journal-reversal :
    (host : Host) (s : LedgerState) (original : PostedJournal) (input : ReversalInput)
    {c : PostJournalCommand} {r : PostingResult}
    → create_reversal_command original input ≡ ok c
    → post_journal host s c ≡ ok r
    → r.idempotent_replay ≡ false
    → (id : String)
    → account_net id (all_lines r.state.journals) +ℤ account_net id original.content.command.lines
      ≡ account_net id (all_lines s.journals)
unfolding append_journal seal_journal
post_journal-reversal host s original input {c} {r} made h new id =
    elim (post_journal-cases host s c h) [
      | inl old ↦ absurd (false≢true (sym new ∙ ap (λ p. p.idempotent_replay) old.result))
      | inr fresh ↦
          let (_, cancels, _) = create_reversal_command-cancels original input made in
          ap
            (λ p.
              account_net id (all_lines p.state.journals)
              +ℤ account_net id original.content.command.lines)
            fresh.result
          ∙ rw (account_net-all_lines id s.journals (seal_journal host s c), cancels id)
              (omega int_laws)
    ]

reverse_movements-is_reverse :
    (id : String) (n : ℕ) (ms : List PositionMovement)
    → all (λ m. is_reverse m.movement_type) (reverse_movements id n ms) ≡ true
unfolding reverse_movements
reverse_movements-is_reverse id n [] = refl
reverse_movements-is_reverse id n (m ∷ ms) = reverse_movements-is_reverse id (n + 1) ms

-- Every position movement of a reversal is of the type for reversals.
pub create_reversal_command-is_reverse :
    (original : PostedJournal) (input : ReversalInput) {c : PostJournalCommand}
    → create_reversal_command original input ≡ ok c
    → all (λ m. is_reverse m.movement_type) c.position_movements ≡ true
unfolding create_reversal_command
create_reversal_command-is_reverse original input {c} h =
    let (_, h₁) =
      >>-eq_ok (input.actor_id == input.approver_id) LedgerError.same_maker_checker _ h in
    let (_, h₂) = >>-eq_ok (is_blank input.reason) LedgerError.reason_required _ h₁ in
    ap (λ d. all (λ m. is_reverse m.movement_type) d.position_movements) (sym (ok_eq h₂))
    ∙ reverse_movements-is_reverse input.journal_id 1 original.content.command.position_movements
