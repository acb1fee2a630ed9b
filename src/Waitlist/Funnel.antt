-- ===== src/Waitlist/Funnel.antt =====
-- What `computeFunnelCounts` of landing-page/lib/analytics.ts counts.
use fuel_cap.Base.{
  ℕ, zero, suc, ◌+◌, ◌≤◌, ◌≡◌, refl, ap, ap₂, fun_ext, ◌∙◌, Bool, true, false, List, [], ◌∷◌, map,
  leb, arith,
}
use fuel_cap.Waitlist.{Submission}
use fuel_cap.Waitlist.Analytics.{
  reached_index, count_up_to, add_submissions, compute_funnel_counts, size,
}

-- `length` numbers from `start`
abbrev pub range : ℕ → ℕ → List ℕ
range zero start = []
range (suc length) start = start ∷ range length (suc start)

abbrev pub one_if : Bool → ℕ
one_if true = 1
one_if false = 0

-- How many submissions reached a step, counting those that completed as having reached the last.
abbrev pub reaching : ℕ → List Submission → ℕ
reaching i [] = 0
reaching i (s ∷ ss) = one_if (leb i (reached_index s)) + reaching i ss

-- A step at most `n` gets one more.
abbrev bumped : (ℕ → ℕ) → ℕ → ℕ → ℕ
bumped f n i = f i + one_if (leb i n)

bumped-le : (f : ℕ → ℕ) (n i : ℕ) → i ≤ n → suc (f i) ≡ bumped f n i
bumped-le f n i h = ground arith

bumped-lt : (f : ℕ → ℕ) (n i : ℕ) → suc n ≤ i → f i ≡ bumped f n i
bumped-lt f n i h = ground arith

unchanged :
    (f : ℕ → ℕ) (length start n : ℕ)
    → suc n ≤ start
    → map f (range length start) ≡ map (bumped f n) (range length start)
unchanged f zero start n h = refl
unchanged f (suc length) start n h =
    ap₂ (λ c cs. c ∷ cs) (bumped-lt f n start h) (unchanged f length (suc start) n (omega arith))

counted :
    (f : ℕ → ℕ) (length start n : ℕ)
    → count_up_to n (map f (range length start)) ≡ map (bumped f (start + n)) (range length start)
counted f zero start zero = refl
counted f zero start (suc n) = refl
counted f (suc length) start zero =
    ap₂ (λ c cs. c ∷ cs) (bumped-le f (start + 0) start (omega arith))
      (unchanged f length (suc start) (start + 0) (omega arith))
counted f (suc length) start (suc n) =
    ap₂ (λ c cs. c ∷ cs) (bumped-le f (start + suc n) start (omega arith))
      (counted f length (suc start) n
        ∙ ap (λ m. map (bumped f m) (range length (suc start))) (shift start n))
  where
    shift : (m k : ℕ) → suc m + k ≡ m + suc k
    shift m k = omega arith

added :
    (f : ℕ → ℕ) (ss : List Submission)
    → add_submissions ss (map f (range 8 0)) ≡ map (λ i. f i + reaching i ss) (range 8 0)
added f [] = ap (λ g. map g (range 8 0)) (fun_ext (λ i. add_zero (f i)))
  where
    add_zero : (m : ℕ) → m ≡ m + 0
    add_zero m = omega arith
added f (s ∷ ss) =
    ap (add_submissions ss) (
      counted f 8 0 (reached_index s)
      ∙ ap (λ m. map (bumped f m) (range 8 0)) (zero_left (reached_index s)))
    ∙ added (bumped f (reached_index s)) ss
    ∙ ap (λ g. map g (range 8 0))
        (fun_ext (λ i. assoc (f i) (one_if (leb i (reached_index s))) (reaching i ss)))
  where
    assoc : (a b c : ℕ) → a + b + c ≡ a + (b + c)
    assoc a b c = omega arith

    zero_left : (m : ℕ) → 0 + m ≡ m
    zero_left m = omega arith

-- The funnel of some submissions, by the number that reached each step.
pub record IsFunnel (submissions : List Submission) (counts : List ℕ) : Type 0 where
  pub counted : counts ≡ map (λ i. reaching i submissions) (range 8 0)
  pub all_start : reaching 0 submissions ≡ size submissions
  pub falling : (i : ℕ) → reaching (suc i) submissions ≤ reaching i submissions

reaching-zero : (ss : List Submission) → reaching 0 ss ≡ size ss
reaching-zero [] = refl
reaching-zero (s ∷ ss) = one (reached_index s) (reaching 0 ss) (size ss) (reaching-zero ss)
  where
    one : (n a b : ℕ) → a ≡ b → one_if (leb 0 n) + a ≡ suc b
    one n a b h = ground arith

reaching-suc : (i : ℕ) (ss : List Submission) → reaching (suc i) ss ≤ reaching i ss
reaching-suc i [] = omega arith
reaching-suc i (s ∷ ss) = fall i (reached_index s) _ _ (reaching-suc i ss)
  where
    fall : (i n a b : ℕ) → a ≤ b → one_if (leb (suc i) n) + a ≤ one_if (leb i n) + b
    fall i n a b h = ground arith

-- The funnel of the dashboard gives for each of the eight steps the number of submissions that reached
-- it or completed: all of them the first one, and no later step more than an earlier one.
pub compute_funnel_counts-IsFunnel :
    (submissions : List Submission) → IsFunnel submissions (compute_funnel_counts submissions)
compute_funnel_counts-IsFunnel submissions = record {
  counted =
      added (λ i. 0) submissions
      ∙ ap (λ g. map g (range 8 0)) (fun_ext (λ i. zero_left (reaching i submissions)));
  all_start = reaching-zero submissions;
  falling = λ i. reaching-suc i submissions;
}
  where
    zero_left : (m : ℕ) → 0 + m ≡ m
    zero_left m = omega arith
