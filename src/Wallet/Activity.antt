-- ===== src/Wallet/Activity.antt =====
-- The activity list and the balance of a wallet (packages/wallet/src/index.ts) tell the same story.
use fuel_cap.Base.{
  String, ◌≡◌, refl, sym, ap, fun_ext, ◌∙◌, inl, inr, true, false, not, ◌||◌, List, [], ◌∷◌, map,
  filter, Bool-cases, not-eq_false, ok, >>-eq_ok, arith, has_duplicates, string_eq,
}
use fuel_cap.Base.Int.{
  ℤ, pos, negate, eqb_ℤ-eq, int_laws, sum_of, reduce_sum-eq-sum_of, sum_of-append,
}
use fuel_cap.Base.Text.{is_blank}
use fuel_cap.Ledger.{
  Host, LedgerState, PostedJournal, AccountPurpose, all_lines, customer_available,
  customer_reserved, customer_refund_payable,
}
use fuel_cap.Ledger.Invariant.{Reachable, Reachable-IsValid}
use fuel_cap.Ledger.Projection.{account_net, account_line_net}
use fuel_cap.Wallet.{
  WalletDefinition, WalletBalance, WalletActivity, WalletError, validate_definition, required_fits,
  position_delta, balance_of, derive_wallet_balance, signed_liability_delta, activity_of,
  has_effect, derive_wallet_activity,
}
use fuel_cap.Wallet.Balance.{projected_balance-account_net, signed_liability_delta-account_net}

-- The three accounts of a definition that passed the check fit it.
pub record IsFitting (s : LedgerState) (d : WalletDefinition) : Type 0 where
  pub available : required_fits s d d.available_account_id customer_available ≡ true
  pub reserved : required_fits s d d.reserved_account_id customer_reserved ≡ true
  pub refund_payable : required_fits s d d.refund_payable_account_id customer_refund_payable ≡ true

pub validate_definition-IsFitting :
    (s : LedgerState) (d : WalletDefinition) {u : Unit {0}}
    → validate_definition s d ≡ ok u
    → IsFitting s d
unfolding validate_definition
validate_definition-IsFitting s d h =
    let (_, h₁) =
      >>-eq_ok
        (is_blank d.wallet_id
          || is_blank d.customer_id
          || is_blank d.organisation_id
          || is_blank d.legal_entity_id)
        WalletError.identity_required _ h in
    let (_, h₂) =
      >>-eq_ok
        (has_duplicates
          (d.available_account_id ∷ d.reserved_account_id ∷ d.refund_payable_account_id ∷ []))
        WalletError.accounts_not_distinct _ h₁ in
    let (a, h₃) =
      >>-eq_ok (not (required_fits s d d.available_account_id customer_available))
        WalletError.account_disagrees _ h₂ in
    let (b, h₄) =
      >>-eq_ok (not (required_fits s d d.reserved_account_id customer_reserved))
        WalletError.account_disagrees _ h₃ in
    record {
      available = not-eq_false _ a;
      reserved = not-eq_false _ b;
      refund_payable = ground arith;
    }

-- Dropping the activities without effect leaves a sum of their changes as it is.
sum_of-has_effect :
    (f : WalletActivity → ℤ) (acts : List WalletActivity)
    → ((a : WalletActivity) → has_effect a ≡ false → f a ≡ pos 0)
    → sum_of f (filter has_effect acts) ≡ sum_of f acts
sum_of-has_effect f [] h = refl
sum_of-has_effect f (a ∷ acts) h = elim (Bool-cases (has_effect a)) [
  | inl e ↦ rw (e, sum_of-has_effect f acts h)
  | inr e ↦ rw (e, sum_of-has_effect f acts h, h a e) (omega int_laws)
]

no_effect :
    (a : WalletActivity)
    → has_effect a ≡ false
    → (a.available_delta_minor ≡ pos 0)
      × (a.reserved_delta_minor ≡ pos 0)
      × (a.refund_payable_delta_minor ≡ pos 0)
      × (a.protected_quantity_delta_4dp ≡ pos 0)
unfolding has_effect
no_effect a h = ground (
  arith,
  eqb_ℤ-eq a.available_delta_minor (pos 0),
  eqb_ℤ-eq a.reserved_delta_minor (pos 0),
  eqb_ℤ-eq a.refund_payable_delta_minor (pos 0),
  eqb_ℤ-eq a.protected_quantity_delta_4dp (pos 0),
)

-- The changes of one account over all journals add up to the net of all lines.
sum_of-liability_delta :
    (id : String) (js : List PostedJournal)
    → sum_of (λ j. signed_liability_delta id j.content.command.lines) js
      ≡ negate (account_net id (all_lines js))
unfolding all_lines
sum_of-liability_delta id [] = omega int_laws
sum_of-liability_delta id (j ∷ js) =
    rw
      (
        signed_liability_delta-account_net id j.content.command.lines,
        sum_of-liability_delta id js,
        sum_of-append (account_line_net id) j.content.command.lines (all_lines js),
      )
      (omega int_laws)

sum_of-activity_of :
    (s : LedgerState) (d : WalletDefinition) (f : WalletActivity → ℤ) (js : List PostedJournal)
    → sum_of f (map (activity_of s d) js) ≡ sum_of (λ j. f (activity_of s d j)) js
sum_of-activity_of s d f [] = refl
sum_of-activity_of s d f (j ∷ js) = rw (sum_of-activity_of s d f js)

-- What the activities add up to, for one of their four changes.
module _ (s : LedgerState) (d : WalletDefinition) where
  abbrev activities : List WalletActivity
  activities = filter has_effect (map (activity_of s d) s.journals)

  account_total :
      (f : WalletActivity → ℤ) (id : String)
      → ((a : WalletActivity) → has_effect a ≡ false → f a ≡ pos 0)
      → ((j : PostedJournal)
          → f (activity_of s d j) ≡ signed_liability_delta id j.content.command.lines)
      → sum_of f activities ≡ negate (account_net id (all_lines s.journals))
  account_total f id zero reads =
      sum_of-has_effect f (map (activity_of s d) s.journals) zero
      ∙ sum_of-activity_of s d f s.journals
      ∙ ap (λ g. sum_of g s.journals) (fun_ext reads)
      ∙ sum_of-liability_delta id s.journals

-- For a wallet of a ledger that creation and postings reach, whose definition is valid, both
-- derivations return, and each amount of the balance is the sum of the activities' changes of it:
-- the three liabilities and the protected quantity.
pub derive_wallet_balance-activity :
    (host : Host) (s : LedgerState) (d : WalletDefinition)
    → Reachable host s
    → validate_definition s d ≡ ok tt
    → (b : WalletBalance) × (acts : List WalletActivity) × (derive_wallet_balance host s d ≡ ok b)
      × (derive_wallet_activity s d ≡ ok acts)
      × (b.available_minor ≡ sum_of (λ a. a.available_delta_minor) acts)
      × (b.reserved_minor ≡ sum_of (λ a. a.reserved_delta_minor) acts)
      × (b.refund_payable_minor ≡ sum_of (λ a. a.refund_payable_delta_minor) acts)
      × (b.protected_quantity_4dp ≡ sum_of (λ a. a.protected_quantity_delta_4dp) acts)
unfolding derive_wallet_balance derive_wallet_activity activity_of
derive_wallet_balance-activity host s d r valid =
    let v = Reachable-IsValid host s r in
    let fit = validate_definition-IsFitting s d valid in
    let net = λ (id : String). negate (account_net id (all_lines s.journals)) in
    let look = λ (id : String) (purpose : AccountPurpose) (p : required_fits s d id purpose ≡ true).
      projected_balance-account_net host s d id purpose v p in
    (
      balance_of host s d (net d.available_account_id) (net d.reserved_account_id)
          (net d.refund_payable_account_id),
      activities s d,
      rw (
        valid,
        derive_wallet_balance,
        look d.available_account_id customer_available fit.available,
        look d.reserved_account_id customer_reserved fit.reserved,
        look d.refund_payable_account_id customer_refund_payable fit.refund_payable,
      ),
      rw (valid, derive_wallet_activity),
      sym (
          account_total s d (λ a. a.available_delta_minor) d.available_account_id
            (λ a e. (no_effect a e).0) (λ j. refl)),
      sym (
          account_total s d (λ a. a.reserved_delta_minor) d.reserved_account_id
            (λ a e. (no_effect a e).1) (λ j. refl)),
      sym (
          account_total s d (λ a. a.refund_payable_delta_minor) d.refund_payable_account_id
            (λ a e. (no_effect a e).2) (λ j. refl)),
      reduce_sum-eq-sum_of (position_delta s d.position_ids) s.journals
          ∙ sym (
              sum_of-has_effect (λ a. a.protected_quantity_delta_4dp)
                (map (activity_of s d) s.journals) (λ a e. (no_effect a e).3)
              ∙ sum_of-activity_of s d (λ a. a.protected_quantity_delta_4dp) s.journals),
    )
