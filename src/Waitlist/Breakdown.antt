-- ===== src/Waitlist/Breakdown.antt =====
-- What the breakdowns of landing-page/lib/analytics.ts count.
use fuel_cap.Base.{
  ℕ, suc, ◌+◌, String, ◌≡◌, refl, ap, fun_ext, ◌∙◌, inl, inr, Bool, true, false, ◌&&◌, none, List,
  [], ◌∷◌, leb, Dict, lookup, insert, has_duplicates, ◌==◌, ==-eq, string_eq, if◌then◌else◌,
  Bool-cases, arith,
}
use fuel_cap.Waitlist.{Submission}
use fuel_cap.Waitlist.Analytics.{
  BreakdownEntry, entry_of, add_to_entry, add_entries, insert_row, sort_rows, breakdown, utm_key,
  compute_utm_breakdown, market_key, compute_market_breakdown,
}
use fuel_cap.Waitlist.Funnel.{one_if}
use fuel_cap.Waitlist.Rows.{
  Row, IsSorted, sort_rows-IsSorted, keys, add_entries-distinct, sort_rows-distinct,
}

-- What the rows of a key add up to.
abbrev pub tally : (BreakdownEntry → ℕ) → String → List Row → ℕ
tally f k [] = 0
tally f k ((q, e) ∷ rs) = (if q == k then f e else 0) + tally f k rs

abbrev pub count_if : (Submission → Bool) → List Submission → ℕ
count_if p [] = 0
count_if p (s ∷ ss) = one_if (p s) + count_if p ss

lookup-cons :
    (j q : String) (e : BreakdownEntry) (d : Dict String BreakdownEntry)
    → (q == j) ≡ false
    → lookup j ((q, e) ∷ d) ≡ lookup j d
lookup-cons j q e d h = rw h refl

tally-insert :
    (f : BreakdownEntry → ℕ) (n : ℕ) (s : Submission) (k j : String)
    (d : Dict String BreakdownEntry)
    → ((e : BreakdownEntry) → f (add_to_entry s e) ≡ n + f e)
    → f (entry_of none) ≡ 0
    → tally f k (insert j (add_to_entry s (entry_of (lookup j d))) d)
      ≡ (if j == k then n else 0) + tally f k d
tally-insert f n s k j [] step start = elim (Bool-cases (j == k)) [
  | inl e ↦ rw e (ap (λ m. m + 0) (step (entry_of none) ∙ ap (λ m. n + m) start ∙ zero_right n))
  | inr e ↦ rw e refl
]
  where
    zero_right : (m : ℕ) → m + 0 ≡ m
    zero_right m = omega arith
tally-insert f n s k j ((q, e) ∷ d) step start = elim (Bool-cases (q == j)) [
  | inl h ↦ rw (h, ==-eq q j h) (same (j == k) (f (add_to_entry s e)) (f e) (tally f k d) (step e))
  | inr h ↦
      let other = if q == k then f e else 0 in
      rw h (
        ap (λ o. other + tally f k (insert j (add_to_entry s (entry_of o)) d))
          (lookup-cons j q e d h)
        ∙ ap (λ m. other + m) (tally-insert f n s k j d step start)
        ∙ swap other (if j == k then n else 0) (tally f k d))
]
  where
    same :
        (b : Bool) (x y t : ℕ)
        → x ≡ n + y
        → (if b then x else 0) + t ≡ (if b then n else 0) + ((if b then y else 0) + t)
    same b x y t h = ground arith

    swap : (a b c : ℕ) → a + (b + c) ≡ b + (a + c)
    swap a b c = omega arith

tally-add_entries :
    (f : BreakdownEntry → ℕ) (p : Submission → Bool) (key : Submission → String) (k : String)
    (ss : List Submission) (d : Dict String BreakdownEntry)
    → ((s : Submission) (e : BreakdownEntry) → f (add_to_entry s e) ≡ one_if (p s) + f e)
    → f (entry_of none) ≡ 0
    → tally f k (add_entries key ss d) ≡ count_if (λ s. key s == k && p s) ss + tally f k d
tally-add_entries f p key k [] d step start = omega arith
tally-add_entries f p key k (s ∷ ss) d step start =
    tally-add_entries f p key k ss _ step start
    ∙ ap (λ m. count_if (λ r. key r == k && p r) ss + m)
        (tally-insert f (one_if (p s)) s k (key s) d (step s) start)
    ∙ join (key s == k) (p s) (count_if (λ r. key r == k && p r) ss) (tally f k d)
  where
    join : (b c : Bool) (x y : ℕ) → x + ((if b then one_if c else 0) + y) ≡ one_if (b && c) + x + y
    join b c x y = ground arith

tally-insert_row :
    (f : BreakdownEntry → ℕ) (k : String) (r : Row) (rs : List Row)
    → tally f k (insert_row r rs) ≡ tally f k (r ∷ rs)
tally-insert_row f k r [] = refl
tally-insert_row f k r (q ∷ qs) = elim (Bool-cases (leb q.1.starts r.1.starts)) [
  | inl e ↦ rw e refl
  | inr e ↦
      rw (e, tally-insert_row f k r qs)
        (swap (if q.0 == k then f q.1 else 0) (if r.0 == k then f r.1 else 0) (tally f k qs))
]
  where
    swap : (a b c : ℕ) → a + (b + c) ≡ b + (a + c)
    swap a b c = omega arith

tally-sort_rows :
    (f : BreakdownEntry → ℕ) (k : String) (rs : List Row) → tally f k (sort_rows rs) ≡ tally f k rs
tally-sort_rows f k [] = refl
tally-sort_rows f k (r ∷ rs) =
    tally-insert_row f k r (sort_rows rs)
    ∙ ap (λ m. (if r.0 == k then f r.1 else 0) + m) (tally-sort_rows f k rs)

-- The rows of a key add up to its submissions and to those that completed; each key has one row,
-- and rows with more starts come first.
pub record IsBreakdown (key : Submission → String) (submissions : List Submission) (rows : List Row)
    : Type 0 where
  pub starts : (k : String) → tally (λ e. e.starts) k rows ≡ count_if (λ s. key s == k) submissions
  pub completions :
      (k : String)
      → tally (λ e. e.completions) k rows ≡ count_if (λ s. key s == k && s.completed) submissions
  pub distinct : has_duplicates (keys rows) ≡ false
  pub sorted : IsSorted rows

breakdown-IsBreakdown :
    (key : Submission → String) (submissions : List Submission)
    → IsBreakdown key submissions (breakdown key submissions)
breakdown-IsBreakdown key submissions = record {
  starts = λ k.
      tally-sort_rows (λ e. e.starts) k _
      ∙ tally-add_entries (λ e. e.starts) (λ s. true) key k submissions [] (λ s e. omega arith) refl
      ∙ trim_right _
      ∙ ap (λ p. count_if p submissions) (fun_ext (λ s. and_true (key s == k)));
  completions = λ k.
      tally-sort_rows (λ e. e.completions) k _
      ∙ tally-add_entries (λ e. e.completions) (λ s. s.completed) key k submissions []
          (λ s e. more s.completed e.completions) refl
      ∙ trim_right _;
  distinct =
      sort_rows-distinct (add_entries key submissions [])
        (add_entries-distinct key submissions [] refl);
  sorted = sort_rows-IsSorted (add_entries key submissions []);
}
  where
    trim_right : (m : ℕ) → m + 0 ≡ m
    trim_right m = omega arith

    and_true : (b : Bool) → (b && true) ≡ b
    and_true b = ground arith

    more : (b : Bool) (n : ℕ) → (if b then suc n else n) ≡ one_if b + n
    more b n = ground arith

-- Both breakdowns of the dashboard have one row for each source or market, with the number of its
-- submissions and of those that completed, most starts first.
pub compute_breakdowns-IsBreakdown :
    (inherited_label : String → String) (submissions : List Submission)
    → IsBreakdown utm_key submissions (compute_utm_breakdown submissions)
      × IsBreakdown
          (market_key inherited_label)
          submissions
          (compute_market_breakdown inherited_label submissions)
compute_breakdowns-IsBreakdown inherited_label submissions = (
  breakdown-IsBreakdown utm_key submissions,
  breakdown-IsBreakdown (market_key inherited_label) submissions,
)
