-- ===== src/Ledger/Projection.antt =====
-- The account projections of packages/ledger/src/index.ts: the trial balance.
use fuel_cap.Base.{
  String, ◌≡◌, refl, sym, subst, ap, ap₂, fun_ext, ◌∙◌, inl, inr, Bool, true, false, List, [], ◌∷◌,
  ◌++◌, map, ◌==◌, string_eq, ==-eq, ==_sym, includes, has_duplicates, filter, All, Bool-cases,
  if◌then◌else◌, map_or, ||-eq_false, &&-eq_true, false≢true, arith,
}
use fuel_cap.Base.Int.{
  ℤ, pos, ◌+ℤ◌, ◌-ℤ◌, int_laws, sum_of, reduce_sum-eq-sum_of, sum_of-append, sum_of-add,
  sum_of-zero, zero_add,
}
use fuel_cap.Ledger.{
  Host, LedgerAccount, LedgerState, PostedJournal, JournalLine, Currency, Side, debit, credit,
  AccountProjection, account_ids, find_account, account_agrees, agrees_with, signed, same_side,
  same_currency, currency_eq, all_lines, side_total, project_account, project_accounts,
}
use fuel_cap.Ledger.Validation.{IsPosted, line_net, net}
use fuel_cap.Ledger.Invariant.{IsBalanced, Reachable, Reachable-IsValid}

-- The debits less the credits of the lines on one account.
abbrev pub account_line_net : String → JournalLine → ℤ
account_line_net id l = if l.account_id == id then signed l.side l.amount_minor else pos 0

abbrev pub account_net : String → List JournalLine → ℤ
account_net id = sum_of (account_line_net id)

abbrev pub on_account : String → List JournalLine → List JournalLine
on_account id = filter (λ l. l.account_id == id)

side_total-nil : (side : Side) → side_total side [] ≡ pos 0
unfolding side_total
side_total-nil side = refl

side_total-cons :
    (side : Side) (l : JournalLine) (ls : List JournalLine)
    → side_total side (l ∷ ls)
      ≡ (if same_side l.side side then l.amount_minor else pos 0) +ℤ side_total side ls
unfolding side_total
side_total-cons side l ls = elim (Bool-cases (same_side l.side side)) [
  | inl e ↦
      let amount = λ (k : JournalLine). k.amount_minor in
      let rest = filter (λ k. same_side k.side side) ls in
      rw e (
        reduce_sum-eq-sum_of amount (l ∷ rest)
        ∙ ap (λ n. l.amount_minor +ℤ n) (sym (reduce_sum-eq-sum_of amount rest)))
  | inr e ↦ rw e (omega int_laws)
]

side_totals :
    (side : Side) (n d c r : ℤ)
    → d -ℤ c ≡ r
    → (if same_side side debit then n else pos 0)
        +ℤ d
        -ℤ ((if same_side side credit then n else pos 0) +ℤ c)
      ≡ signed side n +ℤ r
unfolding signed
side_totals debit n d c r h = rw (← h) (omega int_laws)
side_totals credit n d c r h = rw (← h) (omega int_laws)

-- The projection's debits less its credits are the net of the account's lines.
pub side_total-account_net :
    (id : String) (ls : List JournalLine)
    → side_total debit (on_account id ls) -ℤ side_total credit (on_account id ls)
      ≡ account_net id ls
side_total-account_net id [] = rw (side_total-nil debit, side_total-nil credit) (omega int_laws)
side_total-account_net id (l ∷ ls) = elim (Bool-cases (l.account_id == id)) [
  | inl e ↦
      rw
        (e, side_total-cons debit l (on_account id ls), side_total-cons credit l (on_account id ls))
        (side_totals l.side l.amount_minor _ _ _ (side_total-account_net id ls))
  | inr e ↦ rw (e, side_total-account_net id ls) (omega int_laws)
]

-- The accounts' nets of one line, over the accounts in one currency.
abbrev currency_net : Currency → List JournalLine → LedgerAccount → ℤ
currency_net c ls a = if same_currency a.currency c then account_net a.account_id ls else pos 0

abbrev line_share : Currency → JournalLine → LedgerAccount → ℤ
line_share c l a = if same_currency a.currency c then account_line_net a.account_id l else pos 0

share_elsewhere :
    (c : Currency) (l : JournalLine) (accounts : List LedgerAccount)
    → includes (account_ids accounts) l.account_id ≡ false
    → sum_of (line_share c l) accounts ≡ pos 0
share_elsewhere c l [] h = refl
share_elsewhere c l (a ∷ accounts) h =
    let (here, there) = ||-eq_false (a.account_id == l.account_id) _ h in
    rw (share_elsewhere c l accounts there, ==_sym l.account_id a.account_id, here)
      (share_nothing (same_currency a.currency c))
  where
    share_nothing : (b : Bool) → (if b then pos 0 else pos 0) +ℤ pos 0 ≡ pos 0
    share_nothing true = omega int_laws
    share_nothing false = omega int_laws

-- A line counts in the currency of its one account.
share_line :
    (c : Currency) (l : JournalLine) (accounts : List LedgerAccount) (entity : String)
    → has_duplicates (account_ids accounts) ≡ false
    → map_or false (agrees_with entity l) (find_account accounts l.account_id) ≡ true
    → sum_of (line_share c l) accounts ≡ line_net c l
share_line c l [] entity u h = absurd (false≢true h)
share_line c l (a ∷ accounts) entity u h =
    let (new, unique) = ||-eq_false (includes (account_ids accounts) a.account_id) _ u in
    elim (Bool-cases (a.account_id == l.account_id)) [
      | inl e ↦
          let absent = subst (λ id. includes (account_ids accounts) id ≡ false) (==-eq _ _ e) new in
          let (currency, _) = &&-eq_true _ _ (rw e at h) in
          rw (share_elsewhere c l accounts absent, ==_sym l.account_id a.account_id, e)
            (same_share (==-eq a.currency l.currency currency))
      | inr e ↦
          rw
            (share_line c l accounts entity unique (rw e at h), ==_sym l.account_id a.account_id, e)
            (no_share (same_currency a.currency c))
    ]
  where
    same_share :
        {d : Currency}
        → d ≡ l.currency
        → (if same_currency d c then signed l.side l.amount_minor else pos 0) +ℤ pos 0
          ≡ line_net c l
    same_share p = rw p (omega int_laws)

    no_share : (b : Bool) → (if b then pos 0 else pos 0) +ℤ line_net c l ≡ line_net c l
    no_share true = omega int_laws
    no_share false = omega int_laws

currency_net-append :
    (c : Currency) (ls ms : List JournalLine) (a : LedgerAccount)
    → currency_net c (ls ++ ms) a ≡ currency_net c ls a +ℤ currency_net c ms a
currency_net-append c ls ms a = elim (Bool-cases (same_currency a.currency c)) [
  | inl e ↦ rw e (sum_of-append (account_line_net a.account_id) ls ms)
  | inr e ↦ rw e (omega int_laws)
]

currency_net-nil : (c : Currency) (a : LedgerAccount) → currency_net c [] a ≡ pos 0
currency_net-nil c a = ground arith

currency_net-cons :
    (c : Currency) (l : JournalLine) (ls : List JournalLine) (a : LedgerAccount)
    → currency_net c (l ∷ ls) a ≡ line_share c l a +ℤ currency_net c ls a
currency_net-cons c l ls a = elim (Bool-cases (same_currency a.currency c)) [
  | inl e ↦ rw e refl
  | inr e ↦ rw e (omega int_laws)
]

-- Over posted lines, the accounts in a currency net to what the lines in it do.
sum_of-currency_net :
    (c : Currency) (accounts : List LedgerAccount) (entity : String) (ls : List JournalLine)
    → has_duplicates (account_ids accounts) ≡ false
    → All (IsPosted accounts entity) ls
    → sum_of (currency_net c ls) accounts ≡ net c ls
unfolding account_agrees
sum_of-currency_net c accounts entity [] u h =
    ap (λ f. sum_of f accounts) (fun_ext (currency_net-nil c)) ∙ sum_of-zero accounts
sum_of-currency_net c accounts entity (l ∷ ls) u (p, h) =
    ap (λ f. sum_of f accounts) (fun_ext (currency_net-cons c l ls))
    ∙ sum_of-add (line_share c l) (currency_net c ls) accounts
    ∙ ap₂ (λ m n. m +ℤ n) (share_line c l accounts entity u p.agrees)
        (sum_of-currency_net c accounts entity ls u h)

journals_net :
    (c : Currency) (accounts : List LedgerAccount) (js : List PostedJournal)
    → has_duplicates (account_ids accounts) ≡ false
    → All (IsBalanced accounts) js
    → sum_of (currency_net c (all_lines js)) accounts ≡ pos 0
unfolding all_lines
journals_net c accounts [] u h =
    ap (λ f. sum_of f accounts) (fun_ext (currency_net-nil c)) ∙ sum_of-zero accounts
journals_net c accounts (j ∷ js) u (b, h) =
    let lines = j.content.command.lines in
    ap (λ f. sum_of f accounts) (fun_ext (currency_net-append c lines (all_lines js)))
    ∙ sum_of-add (currency_net c lines) (currency_net c (all_lines js)) accounts
    ∙ ap₂ (λ m n. m +ℤ n) (sum_of-currency_net c accounts _ lines u b.posted ∙ b.balanced c)
        (journals_net c accounts js u h)
    ∙ zero_add (pos 0)

-- The debits less the credits of all projections in a currency.
abbrev pub trial_balance : Currency → List AccountProjection → ℤ
trial_balance c =
    sum_of (λ p. if same_currency p.currency c then p.debits_minor -ℤ p.credits_minor else pos 0)

trial_balance-currency_net :
    (c : Currency) (ls : List JournalLine) (accounts : List LedgerAccount)
    → trial_balance c (map (project_account ls) accounts) ≡ sum_of (currency_net c ls) accounts
unfolding project_account
trial_balance-currency_net c ls [] = refl
trial_balance-currency_net c ls (a ∷ accounts) =
    ap₂ (λ m n. (if same_currency a.currency c then m else pos 0) +ℤ n)
      (side_total-account_net a.account_id ls) (trial_balance-currency_net c ls accounts)

-- Double entry: in every ledger that creation and postings reach, and in every currency, the debits
-- of all account projections equal their credits.
pub project_accounts-trial_balance :
    (host : Host) (s : LedgerState) (c : Currency)
    → Reachable host s
    → trial_balance c (project_accounts s) ≡ pos 0
unfolding project_accounts
project_accounts-trial_balance host s c r =
    let v = Reachable-IsValid host s r in
    trial_balance-currency_net c (all_lines s.journals) s.accounts
    ∙ journals_net c s.accounts s.journals v.unique_accounts v.balanced
