-- ===== src/Wallet/Corrections.antt =====
-- Protected quantities under corrections, and the reason codes of a balance
-- (packages/wallet/src/index.ts).
use fuel_cap.Base.{
  String, ◌≡◌, ◌↔◌, refl, ap, ◌∙◌, inl, inr, true, false, ◌&&◌, Option, none, some, List, [], ◌∷◌,
  all, includes, string_eq, filter, map_or, Bool-cases, if◌then◌else◌, &&-eq_true, ok, >>=-eq_ok,
  ok_eq, subst, arith,
}
use fuel_cap.Base.Int.{ℤ, pos, negate, ◌≤ℤ◌, int_laws, sum_of, reduce_sum-eq-sum_of}
use fuel_cap.Ledger.{
  Host, LedgerState, PostedJournal, PositionMovement, MovementType, is_reverse, ReversalInput,
  find_journal, create_reversal_command, verify_ledger_integrity, project_accounts,
}
use fuel_cap.Ledger.Projection.{account_net}
use fuel_cap.Ledger.Reversal.{create_reversal_command-cancels, create_reversal_command-is_reverse}
use fuel_cap.Wallet.{
  WalletDefinition, WalletBalance, effect_of, movement_effect, position_effect, position_delta,
  validate_definition, projected_balance, balance_of, derive_wallet_balance,
}

-- The protected quantity that the movements of a journal itself stand for.
abbrev pub own_effect : List String → PostedJournal → ℤ
own_effect ids j = position_effect ids j.content.command.position_movements

-- A posted reversal takes the protected quantity of its original back, for every set of positions.
pub position_delta-reversal :
    (s : LedgerState) (ids : List String) (original j : PostedJournal) (input : ReversalInput)
    → create_reversal_command original input ≡ ok j.content.command
    → find_journal s.journals original.content.command.journal_id ≡ some original
    → position_delta s ids j ≡ negate (own_effect ids original)
unfolding position_delta
position_delta-reversal s ids original j input made found =
    let (names, _, _) = create_reversal_command-cancels original input made in
    let reversed = create_reversal_command-is_reverse original input made in
    correction_effect j.content.command.correction_of j.content.command.position_movements names
      reversed
  where
    correction_effect :
        (names : Option String) (ms : List PositionMovement)
        → names ≡ some original.content.command.journal_id
        → all (λ m. is_reverse m.movement_type) ms ≡ true
        → (if map_or false (λ _. true) names && all (λ m. is_reverse m.movement_type) ms
            then map_or
                (pos 0)
                (λ o. negate (own_effect ids o))
                (map_or none (find_journal s.journals) names)
            else position_effect ids ms)
          ≡ negate (own_effect ids original)
    correction_effect names ms e r = rw (e, r, found)

reverse_effect :
    (ids : List String) (ms : List PositionMovement)
    → all (λ m. is_reverse m.movement_type) ms ≡ true
    → sum_of movement_effect (filter (λ m. includes ids m.position_id) ms) ≡ pos 0
unfolding movement_effect
reverse_effect ids [] h = refl
reverse_effect ids (m ∷ ms) h =
    let (first, rest) = &&-eq_true (is_reverse m.movement_type) _ h in
    elim (Bool-cases (includes ids m.position_id)) [
      | inl e ↦
          rw (e, reverse_effect ids ms rest, no_effect m.movement_type m.quantity_4dp first)
            (omega int_laws)
      | inr e ↦ rw (e, reverse_effect ids ms rest)
    ]
  where
    no_effect : (t : MovementType) (n : ℤ) → is_reverse t ≡ true → effect_of t n ≡ pos 0
    no_effect t n k = ground arith

-- Reversing a reversal restores the money of the first journal, on every account, but no protected
-- quantity: the second reversal's change of it is zero, whatever the first journal had moved.
pub position_delta-double_reversal :
    (s : LedgerState) (ids : List String) (base first second : PostedJournal)
    (input input' : ReversalInput)
    → create_reversal_command base input ≡ ok first.content.command
    → create_reversal_command first input' ≡ ok second.content.command
    → find_journal s.journals first.content.command.journal_id ≡ some first
    → ((id : String)
        → account_net id second.content.command.lines ≡ account_net id base.content.command.lines)
      × (position_delta s ids second ≡ pos 0)
unfolding position_effect
position_delta-double_reversal s ids base first second input input' made made' found =
    let (_, undo, _) = create_reversal_command-cancels base input made in
    let (_, redo, _) = create_reversal_command-cancels first input' made' in
    let moves = first.content.command.position_movements in
    let none_left =
      reduce_sum-eq-sum_of movement_effect (filter (λ m. includes ids m.position_id) moves)
      ∙ reverse_effect ids moves (create_reversal_command-is_reverse base input made) in
    (
      λ id. rw (redo id, undo id) (omega int_laws),
      position_delta-reversal s ids first second input' made' found
          ∙ ap negate none_left
          ∙ omega int_laws,
    )

abbrev IsExplained : Host → LedgerState → WalletBalance → Type 0
IsExplained host s b = (b.is_break ≡ false) ↔ (
    (verify_ledger_integrity host s ≡ true)
    × (pos 0 ≤ℤ b.available_minor)
    × (pos 0 ≤ℤ b.reserved_minor)
    × (pos 0 ≤ℤ b.refund_payable_minor)
    × (pos 0 ≤ℤ b.protected_quantity_4dp))

balance_of-IsExplained :
    (host : Host) (s : LedgerState) (d : WalletDefinition) (x y z : ℤ)
    → IsExplained host s (balance_of host s d x y z)
unfolding balance_of
balance_of-IsExplained host s d x y z = ground arith

-- A balance is without a break exactly when the ledger's integrity check passes and none of the
-- three liabilities and the protected quantity is negative.
pub derive_wallet_balance-is_break :
    (host : Host) (s : LedgerState) (d : WalletDefinition) (b : WalletBalance)
    → derive_wallet_balance host s d ≡ ok b
    → (b.is_break ≡ false) ↔ (
        (verify_ledger_integrity host s ≡ true)
        × (pos 0 ≤ℤ b.available_minor)
        × (pos 0 ≤ℤ b.reserved_minor)
        × (pos 0 ≤ℤ b.refund_payable_minor)
        × (pos 0 ≤ℤ b.protected_quantity_4dp))
unfolding derive_wallet_balance
derive_wallet_balance-is_break host s d b h =
    let (_, _, h₁) = >>=-eq_ok (validate_definition s d) _ h in
    let (x, _, h₂) =
      >>=-eq_ok (projected_balance (project_accounts s) d.available_account_id) _ h₁ in
    let (y, _, h₃) =
      >>=-eq_ok (projected_balance (project_accounts s) d.reserved_account_id) _ h₂ in
    let (z, _, h₄) =
      >>=-eq_ok (projected_balance (project_accounts s) d.refund_payable_account_id) _ h₃ in
    subst (IsExplained host s) (ok_eq h₄) (balance_of-IsExplained host s d x y z)
