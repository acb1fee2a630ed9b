-- ===== src/Allocation/Conservation.antt =====
-- Quantities that an allocation of packages/allocation-engine/src/index.ts shares out.
use fuel_cap.Base.{
  ℕ, suc, String, ◌≡◌, refl, sym, subst, ap, ◌∙◌, inl, inr, Bool, true, false, false≢true, not,
  some, List, [], ◌∷◌, map, Dict, lookup, insert, All, filter, length, ◌==◌, string_eq, Bool-cases,
  Option-cases, if◌then◌else◌, Result, ok, err, >>-eq_ok, >>=-eq_ok, ok_eq, arith,
}
use fuel_cap.Base.Int.{ℤ, pos, ◌+ℤ◌, ◌-ℤ◌, ◌≤ℤ◌, eqb_ℤ, ltb_ℤ, sum_of, int_laws, add_assoc}
use fuel_cap.Base.Objects.{is_inherited}
use fuel_cap.Allocation.{
  Host, ProtectionPosition, PurchaseMatchCommand, ProtectionAllocationLine, PurchaseAllocation,
  AllocationState, AllocationResult, AllocationError, Allocated, smaller, new_line, allocate_lines,
  is_eligible, insert_position, sort_positions, match_purchase, new_allocation, allocate_new,
  allocate_purchase, validate_command, quantity_is_bad,
}

abbrev IsOpen : ProtectionPosition → Type 0
IsOpen p = pos 1 ≤ℤ p.remaining_quantity_4dp

is_eligible-IsOpen :
    (host : Host) (c : PurchaseMatchCommand) (p : ProtectionPosition)
    → is_eligible host c p ≡ true
    → IsOpen p
unfolding is_eligible
is_eligible-IsOpen host c p h =
    let open_quantity : ltb_ℤ (pos 0) p.remaining_quantity_4dp ≡ true = ground arith in ground arith

filter-IsOpen :
    (host : Host) (c : PurchaseMatchCommand) (ps : List ProtectionPosition)
    → All IsOpen (filter (is_eligible host c) ps)
filter-IsOpen host c [] = tt
filter-IsOpen host c (p ∷ ps) = elim (Bool-cases (is_eligible host c p)) [
  | inl e ↦ rw e (is_eligible-IsOpen host c p e, filter-IsOpen host c ps)
  | inr e ↦ rw e (filter-IsOpen host c ps)
]

either_holds {ℓ} :
    {A : Type ℓ} (P : A → Type 0) (b : Bool) (x y : A)
    → P x
    → (b ≡ false → P y)
    → P (if b then x else y)
either_holds P true x y h k = h
either_holds P false x y h k = k refl

insert_position-IsOpen :
    (host : Host) (p : ProtectionPosition) (qs : List ProtectionPosition)
    → IsOpen p
    → All IsOpen qs
    → All IsOpen (insert_position host p qs)
unfolding insert_position
insert_position-IsOpen host p [] h k = (h, tt)
insert_position-IsOpen host p (q ∷ qs) h k =
    either_holds (All IsOpen) _ (p ∷ q ∷ qs) (q ∷ insert_position host p qs) (h, k)
      (λ _. (k.0, insert_position-IsOpen host p qs h k.1))

sort_positions-IsOpen :
    (host : Host) (ps : List ProtectionPosition)
    → All IsOpen ps
    → All IsOpen (sort_positions host ps)
unfolding sort_positions
sort_positions-IsOpen host [] h = tt
sort_positions-IsOpen host (p ∷ ps) h =
    insert_position-IsOpen host p (sort_positions host ps) h.0 (sort_positions-IsOpen host ps h.1)

abbrev allocated_total : List ProtectionAllocationLine → ℤ
allocated_total lines = sum_of (λ l. l.allocated_quantity_4dp) lines

-- The lines and what remains add up to what there was to share out; nothing is negative.
abbrev IsShared : ℤ → Allocated → Type 0
IsShared quantity a =
    (allocated_total a.lines +ℤ a.remaining ≡ quantity)
    × (pos 0 ≤ℤ a.remaining)
    × All (λ l. pos 1 ≤ℤ l.allocated_quantity_4dp) a.lines

add_back : (q t r m : ℤ) → t +ℤ r ≡ m -ℤ q → q +ℤ t +ℤ r ≡ m
add_back q t r m h = add_assoc q t r ∙ ap (λ x. q +ℤ x) h ∙ omega int_laws

take_off : (t r m : ℤ) → t +ℤ r ≡ m → t ≡ m -ℤ r
take_off t r m h = subst (λ x. t ≡ x -ℤ r) h (omega int_laws)

smaller-bounds :
    (m n : ℤ)
    → pos 0 ≤ℤ m
    → pos 1 ≤ℤ n
    → eqb_ℤ (smaller m n) (pos 0) ≡ false
    → (pos 1 ≤ℤ smaller m n) × (pos 0 ≤ℤ m -ℤ smaller m n)
smaller-bounds m n h k e = grind int_laws

allocate_lines-IsShared :
    (id : String) (number : ℕ) (remaining : ℤ) (by_id : Dict String ℤ)
    (ps : List ProtectionPosition)
    → pos 0 ≤ℤ remaining
    → All IsOpen ps
    → IsShared remaining (allocate_lines id number remaining by_id ps)
unfolding allocate_lines
allocate_lines-IsShared id number remaining by_id [] h k = (omega int_laws, h, tt)
allocate_lines-IsShared id number remaining by_id (p ∷ ps) h k =
    let quantity = smaller remaining p.remaining_quantity_4dp in
    let by_id' = insert p.protection_transaction_id (p.remaining_quantity_4dp -ℤ quantity) by_id in
    let rest = allocate_lines id (suc number) (remaining -ℤ quantity) by_id' ps in
    either_holds (IsShared remaining) (eqb_ℤ remaining (pos 0)) _ _ (omega int_laws, h, tt)
      (λ _.
        either_holds (IsShared remaining) (eqb_ℤ quantity (pos 0)) _
          (record rest { lines = new_line id number quantity p ∷ rest.lines })
          (allocate_lines-IsShared id number remaining by_id ps h k.1)
          (λ some_left.
            let (positive, left) =
              smaller-bounds remaining p.remaining_quantity_4dp h k.0 some_left in
            let (total, nonnegative, lines) =
              allocate_lines-IsShared id (suc number) (remaining -ℤ quantity) by_id' ps left k.1 in
            (add_back _ _ _ remaining total, nonnegative, (positive, lines))))

positive_quantity :
    (host : Host) (c : PurchaseMatchCommand) {u : Unit {0}}
    → validate_command host c ≡ ok u
    → pos 1 ≤ℤ c.confirmed_fuel_quantity_4dp
unfolding validate_command
positive_quantity host c h =
    let (_, h₁) = >>-eq_ok _ AllocationError.text_required _ h in
    let (p, _) =
      >>-eq_ok (quantity_is_bad c.confirmed_fuel_quantity_4dp) AllocationError.quantity_invalid _
        h₁ in
    positive c.confirmed_fuel_quantity_4dp p
  where
    positive : (n : ℤ) → quantity_is_bad n ≡ false → pos 1 ≤ℤ n
    positive n q = ground arith

-- How an allocation shares out the purchase.
pub record IsConserved (c : PurchaseMatchCommand) (a : PurchaseAllocation) : Type 0 where
  pub lines_total : allocated_total a.lines ≡ a.protected_quantity_4dp
  pub whole : a.protected_quantity_4dp +ℤ a.unprotected_quantity_4dp ≡ c.confirmed_fuel_quantity_4dp
  pub nonnegative : (pos 0 ≤ℤ a.protected_quantity_4dp) × (pos 0 ≤ℤ a.unprotected_quantity_4dp)
  pub positive : All (λ l. pos 1 ≤ℤ l.allocated_quantity_4dp) a.lines

new_allocation-IsConserved :
    (c : PurchaseMatchCommand) (n : ℕ) (a : Allocated)
    → IsShared c.confirmed_fuel_quantity_4dp a
    → pos 0 ≤ℤ allocated_total a.lines
    → IsConserved c (new_allocation c n a)
unfolding new_allocation
new_allocation-IsConserved c n a (total, nonnegative, positive) lines = record {
  lines_total = take_off _ a.remaining _ total;
  whole = omega int_laws;
  nonnegative = (subst (λ x. pos 0 ≤ℤ x) (take_off _ a.remaining _ total) lines, nonnegative);
  positive = positive;
}

allocated_total-nonnegative :
    (lines : List ProtectionAllocationLine)
    → All (λ l. pos 1 ≤ℤ l.allocated_quantity_4dp) lines
    → pos 0 ≤ℤ allocated_total lines
allocated_total-nonnegative [] h = omega int_laws
allocated_total-nonnegative (l ∷ ls) h = omega (int_laws, h.0, allocated_total-nonnegative ls h.1)

-- What a new allocation is: its record holds an allocation that conserves the purchase.
abbrev IsNewResult : PurchaseMatchCommand → AllocationResult → Type 0
IsNewResult c r = (a : PurchaseAllocation) × (r.allocation ≡ some a) × IsConserved c a

allocate_new-IsConserved :
    (host : Host) (s : AllocationState) (c : PurchaseMatchCommand) {r : AllocationResult}
    → pos 1 ≤ℤ c.confirmed_fuel_quantity_4dp
    → allocate_new host s c ≡ ok r
    → IsNewResult c r
unfolding allocate_new match_purchase
allocate_new-IsConserved host s c {r} positive h =
    let (_, h₁) = >>-eq_ok _ AllocationError.allocation_not_unique _ h in
    let (_, h₂) = >>-eq_ok _ AllocationError.evidence_mismatch _ h₁ in
    let eligible = filter (is_eligible host c) s.positions in
    let shared =
      allocate_lines-IsShared c.allocation_id 1 c.confirmed_fuel_quantity_4dp
        (map (λ p. (p.protection_transaction_id, p.remaining_quantity_4dp)) s.positions)
        (sort_positions host eligible) (omega (int_laws, positive))
        (sort_positions-IsOpen host eligible (filter-IsOpen host c s.positions)) in
    subst (IsNewResult c) (ok_eq h₂) (
      new_allocation c (length eligible) (match_purchase host s c),
      refl,
      new_allocation-IsConserved c (length eligible) (match_purchase host s c) shared
          (allocated_total-nonnegative _ shared.2),
    )

-- A purchase that is allocated is shared out exactly: the lines add up to the protected quantity, the
-- protected and the unprotected quantity add up to what was bought, neither is negative, and every
-- line allocates something.
pub allocate_purchase-IsConserved :
    (host : Host) (s : AllocationState) (c : PurchaseMatchCommand) (r : AllocationResult)
    → allocate_purchase host s c ≡ ok r
    → r.idempotent_replay ≡ false
    → (a : PurchaseAllocation) × (r.allocation ≡ some a) × IsConserved c a
unfolding allocate_purchase
allocate_purchase-IsConserved host s c r h new =
    let (_, valid, h₁) = >>=-eq_ok (validate_command host c) _ h in
    elim (Option-cases (lookup c.idempotency_key s.idempotency)) [
      | inl e ↦ elim (Bool-cases (is_inherited c.idempotency_key)) [
        | inl i ↦ absurd (refused (rw (e, i) at h₁))
        | inr i ↦
            allocate_new-IsConserved host s c (positive_quantity host c valid) (rw (e, i) at h₁)
      ]
      | inr (prior, e) ↦
          let (_, h₂) =
            >>-eq_ok (not (prior.fingerprint == host.hash_command c)) AllocationError.key_reused _
              (rw e at h₁) in
          absurd (false≢true (sym new ∙ sym (ap (λ q. q.idempotent_replay) (ok_eq h₂))))
    ]
  where
    refused :
        ◌≡◌ {A = Result AllocationError AllocationResult} (err AllocationError.key_reused) (ok r)
        → ⊥
    refused k = cc
