-- ===== src/Spread/Precedence.antt =====
-- The sort by precedence of packages/spread-engine/src/index.ts.
use fuel_cap.Base.{
  ℕ, ◌≤◌, ◌≡◌, refl, ap, ◌∙◌, inl, inr, false, List, [], ◌∷◌, All, leb, string_eq, Bool-cases,
  leb→le, arith,
}
use fuel_cap.Base.Int.{ℤ, ◌+ℤ◌, sum_of, int_laws}
use fuel_cap.Spread.{SpreadAdjustment, precedence_index, insert_adjustment, sort_adjustments}

sum_of-insert_adjustment :
    (f : SpreadAdjustment → ℤ) (a : SpreadAdjustment) (bs : List SpreadAdjustment)
    → sum_of f (insert_adjustment a bs) ≡ f a +ℤ sum_of f bs
sum_of-insert_adjustment f a [] = refl
sum_of-insert_adjustment f a (b ∷ bs) =
    elim (Bool-cases (leb (precedence_index a.kind) (precedence_index b.kind))) [
      | inl e ↦ rw e refl
      | inr e ↦ rw (e, sum_of-insert_adjustment f a bs) (omega int_laws)
    ]

pub sum_of-sort_adjustments :
    (f : SpreadAdjustment → ℤ) (bs : List SpreadAdjustment)
    → sum_of f (sort_adjustments bs) ≡ sum_of f bs
sum_of-sort_adjustments f [] = refl
sum_of-sort_adjustments f (b ∷ bs) =
    sum_of-insert_adjustment f b (sort_adjustments bs)
    ∙ ap (λ n. f b +ℤ n) (sum_of-sort_adjustments f bs)

-- No adjustment stands before one that goes first.
abbrev pub IsSorted : List SpreadAdjustment → Type 0
IsSorted [] = Unit {0}
IsSorted (a ∷ bs) = All (λ b. precedence_index a.kind ≤ precedence_index b.kind) bs × IsSorted bs

All-le :
    (m n : ℕ) (bs : List SpreadAdjustment)
    → m ≤ n
    → All (λ b. n ≤ precedence_index b.kind) bs
    → All (λ b. m ≤ precedence_index b.kind) bs
All-le m n [] h k = tt
All-le m n (b ∷ bs) h k = (omega arith, All-le m n bs h k.1)

All-insert_adjustment :
    (n : ℕ) (a : SpreadAdjustment) (bs : List SpreadAdjustment)
    → n ≤ precedence_index a.kind
    → All (λ b. n ≤ precedence_index b.kind) bs
    → All (λ b. n ≤ precedence_index b.kind) (insert_adjustment a bs)
All-insert_adjustment n a [] h k = (h, tt)
All-insert_adjustment n a (b ∷ bs) h k =
    elim (Bool-cases (leb (precedence_index a.kind) (precedence_index b.kind))) [
      | inl e ↦ rw e (h, k)
      | inr e ↦ rw e (k.0, All-insert_adjustment n a bs h k.1)
    ]

insert_adjustment-IsSorted :
    (a : SpreadAdjustment) (bs : List SpreadAdjustment)
    → IsSorted bs
    → IsSorted (insert_adjustment a bs)
insert_adjustment-IsSorted a [] h = (tt, tt)
insert_adjustment-IsSorted a (b ∷ bs) h =
    elim (Bool-cases (leb (precedence_index a.kind) (precedence_index b.kind))) [
      | inl e ↦ let le = leb→le _ _ e in rw e ((le, All-le _ _ bs le h.0), h)
      | inr e ↦ rw e (
        All-insert_adjustment (precedence_index b.kind) a bs (above _ _ e) h.0,
        insert_adjustment-IsSorted a bs h.1,
      )
    ]
  where
    above : (m n : ℕ) → leb m n ≡ false → n ≤ m
    above m n q = ground arith

pub sort_adjustments-IsSorted : (bs : List SpreadAdjustment) → IsSorted (sort_adjustments bs)
sort_adjustments-IsSorted [] = tt
sort_adjustments-IsSorted (b ∷ bs) =
    insert_adjustment-IsSorted b (sort_adjustments bs) (sort_adjustments-IsSorted bs)
