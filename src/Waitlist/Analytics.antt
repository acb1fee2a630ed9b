-- ===== src/Waitlist/Analytics.antt =====
-- The figures of the dashboard, in landing-page/lib/analytics.ts.
use Prim.Native.String.{◌++◌ as append}
use fuel_cap.Base.{
  ℕ, zero, suc, String, Option, none, some, List, [], ◌∷◌, filter, leb, Dict, lookup, insert, ◌==◌,
  string_eq, if◌then◌else◌,
}
use fuel_cap.Base.Text.{trim}
use fuel_cap.Waitlist.Types.{FunnelStep, Submission, PageView}
use fuel_cap.Waitlist.Merging.{step_index, or_option}
use fuel_cap.Waitlist.Markets.{no_market, inherited_member, a_market, get_market}

-- The counts of `computeFunnelCounts`, in the order of the steps.
abbrev pub no_counts : List ℕ
no_counts = 0 ∷ 0 ∷ 0 ∷ 0 ∷ 0 ∷ 0 ∷ 0 ∷ 0 ∷ []

-- `reached`, by its index
abbrev pub reached_index : Submission → ℕ
reached_index s = if s.completed then step_index FunnelStep.email else step_index s.furthest_step

-- `for (let i = 0; i <= reachedIdx; i++) counts[order[i]] += 1`
abbrev pub count_up_to : ℕ → List ℕ → List ℕ
count_up_to n [] = []
count_up_to zero (c ∷ cs) = suc c ∷ cs
count_up_to (suc n) (c ∷ cs) = suc c ∷ count_up_to n cs

abbrev pub add_submissions : List Submission → List ℕ → List ℕ
add_submissions [] counts = counts
add_submissions (s ∷ ss) counts = add_submissions ss (count_up_to (reached_index s) counts)

-- `computeFunnelCounts`
abbrev pub compute_funnel_counts : List Submission → List ℕ
compute_funnel_counts submissions = add_submissions submissions no_counts

pub record BreakdownEntry : Type 0 where
  pub starts : ℕ
  pub completions : ℕ

abbrev pub no_entry : BreakdownEntry
no_entry = record { starts = 0; completions = 0 }

-- `map.get(key) ?? { starts: 0, completions: 0 }`
abbrev pub entry_of : Option BreakdownEntry → BreakdownEntry
entry_of none = no_entry
entry_of (some e) = e

abbrev pub add_to_entry : Submission → BreakdownEntry → BreakdownEntry
add_to_entry s e = record {
  starts = suc e.starts;
  completions = if s.completed then suc e.completions else e.completions;
}

-- The loop that the two breakdowns share, with the key of a submission.
abbrev pub add_entries :
    (Submission → String)
    → List Submission
    → Dict String BreakdownEntry
    → Dict String BreakdownEntry
add_entries key [] d = d
add_entries key (s ∷ ss) d =
    add_entries key ss (insert (key s) (add_to_entry s (entry_of (lookup (key s) d))) d)

-- The stable sort with `b.starts - a.starts`.
abbrev pub insert_row :
    String × BreakdownEntry → List (String × BreakdownEntry) → List (String × BreakdownEntry)
insert_row r [] = r ∷ []
insert_row r (q ∷ qs) = if leb q.1.starts r.1.starts then r ∷ q ∷ qs else q ∷ insert_row r qs

abbrev pub sort_rows : List (String × BreakdownEntry) → List (String × BreakdownEntry)
sort_rows [] = []
sort_rows (r ∷ rs) = insert_row r (sort_rows rs)

abbrev pub breakdown : (Submission → String) → List Submission → List (String × BreakdownEntry)
breakdown key submissions = sort_rows (add_entries key submissions [])

-- `sub.utm.utm_source?.trim() || "(direct / no utm)"`
abbrev pub utm_key : Submission → String
utm_key s = elim s.utm.utm_source [
  | none ↦ "(direct / no utm)"
  | some source ↦ if trim source == "" then "(direct / no utm)" else trim source
]

-- `computeUtmBreakdown`
abbrev pub compute_utm_breakdown : List Submission → List (String × BreakdownEntry)
compute_utm_breakdown submissions = breakdown utm_key submissions

-- The label of a market; that of an inherited member is what JavaScript makes of it.
abbrev pub market_label : (String → String) → String → String
market_label inherited_label id = elim (get_market id) [
  | no_market ↦ "(unknown)"
  | inherited_member ↦ inherited_label id
  | a_market m ↦ append m.flag (append " " m.name)
]

-- The key of `computeMarketBreakdown`.
abbrev pub market_key : (String → String) → Submission → String
market_key inherited_label s = elim (or_option s.answers.country s.landing_market) [
  | none ↦ "(unknown)"
  | some id ↦ if id == "" then "(unknown)" else market_label inherited_label id
]

-- `computeMarketBreakdown`
abbrev pub compute_market_breakdown :
    (String → String) → List Submission → List (String × BreakdownEntry)
compute_market_breakdown inherited_label submissions =
    breakdown (market_key inherited_label) submissions

abbrev pub size {ℓ} : {A : Type ℓ} → List A → ℕ
size [] = 0
size (x ∷ xs) = suc (size xs)

-- The rates are in tenths of a percent.
pub record Summary : Type 0 where
  pub total_page_views : ℕ
  pub total_starts : ℕ
  pub total_completed : ℕ
  pub view_to_start_rate : ℕ
  pub start_to_complete_rate : ℕ
  pub view_to_complete_rate : ℕ

-- `pct`, where `per_mille n d` is `Math.round((n / d) * 1000)` in floating point
abbrev pub rate : (ℕ → ℕ → ℕ) → ℕ → ℕ → ℕ
rate per_mille n zero = 0
rate per_mille n (suc d) = per_mille n (suc d)

-- `computeSummary`
abbrev pub compute_summary : (ℕ → ℕ → ℕ) → List PageView → List Submission → Summary
compute_summary per_mille page_views submissions =
    let views = size page_views in
    let starts = size submissions in
    let completed = size (filter (λ s. s.completed) submissions) in
    record {
      total_page_views = views;
      total_starts = starts;
      total_completed = completed;
      view_to_start_rate = rate per_mille starts views;
      start_to_complete_rate = rate per_mille completed starts;
      view_to_complete_rate = rate per_mille completed views;
    }
