-- ===== src/Waitlist/Rows.antt =====
-- The rows of a breakdown in landing-page/lib/analytics.ts: their order, and one for each key.
use fuel_cap.Base.{
  ℕ, ◌≤◌, String, ◌≡◌, refl, ap, ◌∙◌, inl, inr, Bool, false, ◌||◌, List, [], ◌∷◌, map, All, leb,
  leb→le, Dict, insert, includes, has_duplicates, ◌==◌, ==_sym, ||-eq_false, string_eq, Bool-cases,
  arith,
}
use fuel_cap.Waitlist.{Submission}
use fuel_cap.Waitlist.Analytics.{BreakdownEntry, add_entries, insert_row, sort_rows}

abbrev pub Row : Type 0
Row = String × BreakdownEntry

-- No row stands before one with more starts.
abbrev pub IsSorted : List Row → Type 0
IsSorted [] = Unit {0}
IsSorted (r ∷ rs) = All (λ q. q.1.starts ≤ r.1.starts) rs × IsSorted rs

All-le :
    (m n : ℕ) (rs : List Row) → m ≤ n → All (λ q. q.1.starts ≤ m) rs → All (λ q. q.1.starts ≤ n) rs
All-le m n [] h k = tt
All-le m n (r ∷ rs) h k = (omega (arith, k.0), All-le m n rs h k.1)

All-insert_row :
    (n : ℕ) (r : Row) (rs : List Row)
    → r.1.starts ≤ n
    → All (λ q. q.1.starts ≤ n) rs
    → All (λ q. q.1.starts ≤ n) (insert_row r rs)
All-insert_row n r [] h k = (h, tt)
All-insert_row n r (q ∷ qs) h k = elim (Bool-cases (leb q.1.starts r.1.starts)) [
  | inl e ↦ rw e (h, k)
  | inr e ↦ rw e (k.0, All-insert_row n r qs h k.1)
]

insert_row-IsSorted : (r : Row) (rs : List Row) → IsSorted rs → IsSorted (insert_row r rs)
insert_row-IsSorted r [] h = (tt, tt)
insert_row-IsSorted r (q ∷ qs) h = elim (Bool-cases (leb q.1.starts r.1.starts)) [
  | inl e ↦ let le = leb→le _ _ e in rw e ((le, All-le _ _ qs le h.0), h)
  | inr e ↦ rw e (All-insert_row q.1.starts r qs (below _ _ e) h.0, insert_row-IsSorted r qs h.1)
]
  where
    below : (m n : ℕ) → leb m n ≡ false → n ≤ m
    below m n q = ground arith

pub sort_rows-IsSorted : (rs : List Row) → IsSorted (sort_rows rs)
sort_rows-IsSorted [] = tt
sort_rows-IsSorted (r ∷ rs) = insert_row-IsSorted r (sort_rows rs) (sort_rows-IsSorted rs)

-- The key of each row, of which none is there twice.
abbrev pub keys : List Row → List String
keys rs = map (λ r. r.0) rs

includes-insert :
    (j k : String) (e : BreakdownEntry) (d : Dict String BreakdownEntry)
    → (j == k) ≡ false
    → includes (keys (insert j e d)) k ≡ includes (keys d) k
includes-insert j k e [] h = rw h refl
includes-insert j k e ((q, x) ∷ d) h = elim (Bool-cases (q == j)) [
  | inl i ↦ rw i refl
  | inr i ↦ rw (i, includes-insert j k e d h) refl
]

insert-distinct :
    (j : String) (e : BreakdownEntry) (d : Dict String BreakdownEntry)
    → has_duplicates (keys d) ≡ false
    → has_duplicates (keys (insert j e d)) ≡ false
insert-distinct j e [] h = refl
insert-distinct j e ((q, x) ∷ d) h = elim (Bool-cases (q == j)) [
  | inl i ↦ rw i h
  | inr i ↦
      let (own, rest) = ||-eq_false (includes (keys d) q) (has_duplicates (keys d)) h in
      rw (i, includes-insert j q e d (==_sym j q ∙ i), own, insert-distinct j e d rest) refl
]

pub add_entries-distinct :
    (key : Submission → String) (ss : List Submission) (d : Dict String BreakdownEntry)
    → has_duplicates (keys d) ≡ false
    → has_duplicates (keys (add_entries key ss d)) ≡ false
add_entries-distinct key [] d h = h
add_entries-distinct key (s ∷ ss) d h =
    add_entries-distinct key ss _ (insert-distinct (key s) _ d h)

includes-insert_row :
    (k : String) (r : Row) (rs : List Row)
    → includes (keys (insert_row r rs)) k ≡ (r.0 == k || includes (keys rs) k)
includes-insert_row k r [] = refl
includes-insert_row k r (q ∷ qs) = elim (Bool-cases (leb q.1.starts r.1.starts)) [
  | inl e ↦ rw e refl
  | inr e ↦ rw (e, includes-insert_row k r qs) (swap (q.0 == k) (r.0 == k) (includes (keys qs) k))
]
  where
    swap : (a b c : Bool) → (a || (b || c)) ≡ (b || (a || c))
    swap a b c = ground arith

insert_row-distinct :
    (r : Row) (rs : List Row)
    → has_duplicates (keys (r ∷ rs)) ≡ false
    → has_duplicates (keys (insert_row r rs)) ≡ false
insert_row-distinct r [] h = h
insert_row-distinct r (q ∷ qs) h = elim (Bool-cases (leb q.1.starts r.1.starts)) [
  | inl e ↦ rw e h
  | inr e ↦
      let (own, rest) =
        ||-eq_false (includes (keys (q ∷ qs)) r.0) (has_duplicates (keys (q ∷ qs))) h in
      let (differ, new) = ||-eq_false (q.0 == r.0) (includes (keys qs) r.0) own in
      let (old, left) = ||-eq_false (includes (keys qs) q.0) (has_duplicates (keys qs)) rest in
      rw
        (
          e,
          includes-insert_row q.0 r qs,
          ==_sym r.0 q.0,
          differ,
          old,
          insert_row-distinct r qs (rw (new, left) refl),
        )
        refl
]

includes-sort_rows :
    (k : String) (rs : List Row) → includes (keys (sort_rows rs)) k ≡ includes (keys rs) k
includes-sort_rows k [] = refl
includes-sort_rows k (r ∷ rs) =
    includes-insert_row k r (sort_rows rs) ∙ ap (λ b. r.0 == k || b) (includes-sort_rows k rs)

pub sort_rows-distinct :
    (rs : List Row)
    → has_duplicates (keys rs) ≡ false
    → has_duplicates (keys (sort_rows rs)) ≡ false
sort_rows-distinct [] h = h
sort_rows-distinct (r ∷ rs) h =
    let (own, rest) = ||-eq_false (includes (keys rs) r.0) (has_duplicates (keys rs)) h in
    insert_row-distinct r (sort_rows rs)
      (rw (includes-sort_rows r.0 rs, own, sort_rows-distinct rs rest) refl)
