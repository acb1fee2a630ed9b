-- ===== src/Wallet/Balance.antt =====
-- The balances that packages/wallet/src/index.ts derives, and the journals behind them.
use fuel_cap.Base.{
  String, ◌≡◌, refl, ap, ◌∙◌, inl, inr, true, false, List, [], ◌∷◌, map, ◌==◌, string_eq, ==-eq,
  find-holds, any-find, map_or, map_or-eq_true, Bool-cases, if◌then◌else◌, ok, err, arith,
}
use fuel_cap.Base.Int.{ℤ, negate, int_laws, sum_of, reduce_sum-eq-sum_of}
use fuel_cap.Ledger.{
  Host, LedgerState, LedgerAccount, JournalLine, Side, debit, credit, signed, same_side,
  AccountPurpose, find_account, account_is_bad, all_lines, project_account, project_accounts,
}
use fuel_cap.Ledger.Invariant.{IsValid}
use fuel_cap.Ledger.Projection.{account_net, on_account, side_total-account_net}
use fuel_cap.Wallet.{
  WalletDefinition, WalletError, account_fits, required_fits, projected_balance, credit_amount,
  signed_liability_delta,
}

-- The balance of a projected account is looked up as the account is.
projected_balance-project :
    (ls : List JournalLine) (accounts : List LedgerAccount) (id : String)
    → projected_balance (map (project_account ls) accounts) id
      ≡ map_or
          (err WalletError.type_error)
          (λ a. ok (project_account ls a).balance_minor)
          (find_account accounts id)
unfolding project_account
projected_balance-project ls [] id = refl
projected_balance-project ls (a ∷ accounts) id = elim (Bool-cases (a.account_id == id)) [
  | inl e ↦ rw e refl
  | inr e ↦ rw e (projected_balance-project ls accounts id)
]

normal_credit :
    (d : WalletDefinition) (purpose : AccountPurpose) (a : LedgerAccount)
    → account_fits d purpose a ≡ true
    → account_is_bad a ≡ false
    → same_side a.normal_balance debit ≡ false
unfolding account_is_bad
normal_credit d purpose a fits good = ground arith

-- A well-formed liability account shows the credits less the debits of its lines.
liability_balance :
    (d : WalletDefinition) (purpose : AccountPurpose) (ls : List JournalLine) (a : LedgerAccount)
    → account_fits d purpose a ≡ true
    → account_is_bad a ≡ false
    → (project_account ls a).balance_minor ≡ negate (account_net a.account_id ls)
unfolding project_account account_is_bad
liability_balance d purpose ls a fits good =
    rw (← side_total-account_net a.account_id ls, normal_credit d purpose a fits good)
      (omega int_laws)

-- A fitting account has a balance: the credits less the debits of the lines on it.
pub projected_balance-account_net :
    (host : Host) (s : LedgerState) (d : WalletDefinition) (id : String) (purpose : AccountPurpose)
    → IsValid host s
    → required_fits s d id purpose ≡ true
    → projected_balance (project_accounts s) id
      ≡ ok (negate (account_net id (all_lines s.journals)))
unfolding project_accounts
projected_balance-account_net host s d id purpose v fits =
    let ls = all_lines s.journals in
    let (a, found, fit) = map_or-eq_true (account_fits d purpose) _ fits in
    let good = any-find (λ b. b.account_id == id) account_is_bad s.accounts v.normal found in
    let same = ==-eq a.account_id id (find-holds (λ b. b.account_id == id) s.accounts found) in
    projected_balance-project ls s.accounts id
    ∙ ap (map_or _ _) found
    ∙ ap ok (liability_balance d purpose ls a fit good ∙ ap (λ i. negate (account_net i ls)) same)

credit_amount-signed : (l : JournalLine) → credit_amount l ≡ negate (signed l.side l.amount_minor)
unfolding signed
credit_amount-signed l = by_side l.side l.amount_minor
  where
    by_side :
        (side : Side) (n : ℤ)
        → (if same_side side credit then n else negate n) ≡ negate (signed side n)
    by_side debit n = refl
    by_side credit n = omega int_laws

credit_total-account_net :
    (id : String) (ls : List JournalLine)
    → sum_of credit_amount (on_account id ls) ≡ negate (account_net id ls)
credit_total-account_net id [] = omega int_laws
credit_total-account_net id (l ∷ ls) = elim (Bool-cases (l.account_id == id)) [
  | inl e ↦ rw (e, credit_amount-signed l, credit_total-account_net id ls) (omega int_laws)
  | inr e ↦ rw (e, credit_total-account_net id ls) (omega int_laws)
]

-- The change that a journal makes to a liability, against the net of its lines.
pub signed_liability_delta-account_net :
    (id : String) (ls : List JournalLine)
    → signed_liability_delta id ls ≡ negate (account_net id ls)
unfolding signed_liability_delta
signed_liability_delta-account_net id ls =
    reduce_sum-eq-sum_of credit_amount (on_account id ls) ∙ credit_total-account_net id ls
