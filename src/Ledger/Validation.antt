-- ===== src/Ledger/Validation.antt =====
-- What a command has shown once `validateCommand` of packages/ledger/src/index.ts lets it through.
use fuel_cap.Base.{
  String, ◌≡◌, refl, sym, ◌∙◌, inl, inr, true, false, not, none, List, [], ◌∷◌, Dict, lookup,
  values, string_eq, lookup-insert, any, All, ltb, length, is_some-eq_false, if◌then◌else◌,
  Bool-cases, arith, ok, >>-eq_ok, >>=-eq_ok, ok_eq, ==-eq,
}
use fuel_cap.Base.Int.{
  ℤ, pos, ◌+ℤ◌, ◌≤ℤ◌, eqb_ℤ, eqb_ℤ-eq, is_safe_integer, sum_of, int_laws, zero_add,
}
use fuel_cap.Ledger.{
  Host, LedgerAccount, LedgerState, LedgerError, JournalLine, PostJournalCommand, Currency,
  currency_eq, same_currency, signed, account_agrees, line_is_bad, get_or_zero, add_line,
  check_lines, check_movements, find_journal, identity_missing, lineage_missing, validate_command,
}

-- The debits less the credits of the lines in one currency.
abbrev pub line_net : Currency → JournalLine → ℤ
line_net c l = if same_currency l.currency c then signed l.side l.amount_minor else pos 0

abbrev pub net : Currency → List JournalLine → ℤ
net c = sum_of (line_net c)

-- A line of a positive whole amount, on an account of the entity in the line's currency.
pub record IsPosted (accounts : List LedgerAccount) (entity : String) (l : JournalLine)
    : Type 0 where
  pub agrees : account_agrees accounts entity l ≡ true
  pub positive : pos 1 ≤ℤ l.amount_minor
  pub safe : is_safe_integer l.amount_minor ≡ true

add_line-balance :
    (c : Currency) (l : JournalLine) (b : Dict Currency ℤ)
    → get_or_zero (lookup c (add_line l b)) ≡ get_or_zero (lookup c b) +ℤ line_net c l
unfolding add_line
add_line-balance c l b =
    let old = get_or_zero (lookup l.currency b) +ℤ signed l.side l.amount_minor in
    rw (lookup-insert l.currency c old b) (elim (Bool-cases (same_currency l.currency c)) [
      | inl same ↦ rw (same, ==-eq l.currency c same) refl
      | inr other ↦ rw other (omega int_laws)
    ])

module _ (accounts : List LedgerAccount) (entity : String) where
  line-IsPosted :
      (ids : List String) (l : JournalLine)
      → line_is_bad ids l ≡ false
      → not (account_agrees accounts entity l) ≡ false
      → IsPosted accounts entity l
  unfolding line_is_bad
  line-IsPosted ids l good agrees = ground arith

  pub check_lines-eq_ok :
      (ls : List JournalLine) (ids : List String) (b : Dict Currency ℤ) {b' : Dict Currency ℤ}
      → check_lines accounts entity ls ids b ≡ ok b'
      → All (IsPosted accounts entity) ls
        × ((c : Currency) → get_or_zero (lookup c b') ≡ get_or_zero (lookup c b) +ℤ net c ls)
  unfolding check_lines
  check_lines-eq_ok [] ids b h = (tt, λ c. rw (ok_eq h) (omega int_laws))
  check_lines-eq_ok (l ∷ ls) ids b h =
      let (good, h₁) = >>-eq_ok (line_is_bad ids l) LedgerError.bad_line _ h in
      let (agrees, h₂) =
        >>-eq_ok (not (account_agrees accounts entity l)) LedgerError.account_mismatch _ h₁ in
      let (posted, sums) = check_lines-eq_ok ls (l.line_id ∷ ids) (add_line l b) h₂ in
      (
        (line-IsPosted ids l good agrees, posted),
        λ c. rw (sums c) (rw (add_line-balance c l b) (omega int_laws)),
      )

zero_balance :
    (c : Currency) (b : Dict Currency ℤ)
    → any (λ n. not (eqb_ℤ n (pos 0))) (values b) ≡ false
    → get_or_zero (lookup c b) ≡ pos 0
zero_balance c [] h = refl
zero_balance c ((k, n) ∷ b) h = ground (arith, zero_balance c b, eqb_ℤ-eq n (pos 0))

-- The facts that a valid command has established.
pub record IsValidated (host : Host) (s : LedgerState) (c : PostJournalCommand) : Type 0 where
  pub identified : identity_missing host c ≡ false
  pub posted : All (IsPosted s.accounts c.lineage.legal_entity_id) c.lines
  pub balanced : (cur : Currency) → net cur c.lines ≡ pos 0
  pub fresh : find_journal s.journals c.journal_id ≡ none

pub validate_command-IsValidated :
    (host : Host) (s : LedgerState) (c : PostJournalCommand) {u : Unit {0}}
    → validate_command host s c ≡ ok u
    → IsValidated host s c
unfolding validate_command
validate_command-IsValidated host s c h =
    let (identified, h₁) = >>-eq_ok (identity_missing host c) LedgerError.identity_required _ h in
    let (_, h₂) = >>-eq_ok (lineage_missing c.lineage) LedgerError.lineage_required _ h₁ in
    let (_, h₃) = >>-eq_ok (ltb (length c.lines) 2) LedgerError.too_few_lines _ h₂ in
    let entity = c.lineage.legal_entity_id in
    let (b, e, h₄) = >>=-eq_ok (check_lines s.accounts entity c.lines [] []) _ h₃ in
    let (zero, h₅) = >>-eq_ok _ LedgerError.unbalanced _ h₄ in
    let (_, _, h₆) = >>=-eq_ok (check_movements c.position_movements []) _ h₅ in
    let (fresh, _) = >>-eq_ok _ LedgerError.duplicate_journal _ h₆ in
    let (posted, sums) = check_lines-eq_ok s.accounts entity c.lines [] [] e in
    record {
      identified = identified;
      posted = posted;
      balanced = λ cur. sym (zero_add _) ∙ sym (sums cur) ∙ zero_balance cur b zero;
      fresh = is_some-eq_false _ fresh;
    }
