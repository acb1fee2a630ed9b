-- ===== src/Spread/Adjusted.antt =====
-- What the adjustments of packages/spread-engine/src/index.ts come to.
use fuel_cap.Base.{
  String, ◌≡◌, refl, sym, ap, subst, ◌∙◌, inl, inr, Bool, true, false, not, ◌||◌, List, [], ◌∷◌,
  map, includes, has_duplicates, ◌==◌, ==-eq, ==_refl, string_eq, if◌then◌else◌, Bool-cases, ok,
  >>-eq_ok, >>=-eq_ok, ok_eq, ||-eq_false, false≢true, arith,
}
use fuel_cap.Base.Int.{ℤ, pos, ◌+ℤ◌, ◌≤ℤ◌, sum_of, ltb_ℤ, int_laws}
use fuel_cap.Base.Text.{is_blank}
use fuel_cap.Spread.{
  SpreadComponents, SpreadPolicy, ComponentKey, protection_cost_key, margin_key, reserve_key,
  SpreadAdjustment, AdjustedComponents, SpreadError, total_spread_bps, valid_bps,
  validate_components, sort_adjustments, add_delta, apply_ordered, apply_spread_adjustments,
}
use fuel_cap.Spread.Precedence.{sum_of-sort_adjustments, IsSorted, sort_adjustments-IsSorted}

abbrev pub component_of : ComponentKey → SpreadComponents → ℤ
component_of protection_cost_key c = c.modelled_protection_cost_bps
component_of margin_key c = c.fuel_cap_margin_bps
component_of reserve_key c = c.reserve_buffer_bps

abbrev pub same_key : ComponentKey → ComponentKey → Bool
same_key protection_cost_key k = elim k [
  | protection_cost_key ↦ true
  | margin_key ↦ false
  | reserve_key ↦ false
]
same_key margin_key k = elim k [
  | protection_cost_key ↦ false
  | margin_key ↦ true
  | reserve_key ↦ false
]
same_key reserve_key k = elim k [
  | protection_cost_key ↦ false
  | margin_key ↦ false
  | reserve_key ↦ true
]

-- What an adjustment adds to a component.
abbrev pub delta_for : ComponentKey → SpreadAdjustment → ℤ
delta_for key a = if same_key key a.component then a.delta_bps else pos 0

add_delta-component :
    (key own : ComponentKey) (delta : ℤ) (c : SpreadComponents)
    → component_of key (add_delta own delta c)
      ≡ component_of key c +ℤ (if same_key key own then delta else pos 0)
add_delta-component protection_cost_key protection_cost_key delta c = refl
add_delta-component protection_cost_key margin_key delta c = omega int_laws
add_delta-component protection_cost_key reserve_key delta c = omega int_laws
add_delta-component margin_key protection_cost_key delta c = omega int_laws
add_delta-component margin_key margin_key delta c = refl
add_delta-component margin_key reserve_key delta c = omega int_laws
add_delta-component reserve_key protection_cost_key delta c = omega int_laws
add_delta-component reserve_key margin_key delta c = omega int_laws
add_delta-component reserve_key reserve_key delta c = refl

-- The loop adds the deltas of each component to it, and lets no identity pass twice.
apply_ordered-component :
    (key : ComponentKey) (seen : List String) (bs : List SpreadAdjustment) (c r : SpreadComponents)
    → apply_ordered seen bs c ≡ ok r
    → component_of key r ≡ component_of key c +ℤ sum_of (delta_for key) bs
unfolding apply_ordered
apply_ordered-component key seen [] c r h = ap (component_of key) (sym (ok_eq h)) ∙ add_zero _
  where
    add_zero : (n : ℤ) → n ≡ n +ℤ pos 0
    add_zero n = omega int_laws
apply_ordered-component key seen (b ∷ bs) c r h =
    let (_, h₁) =
      >>-eq_ok (is_blank b.adjustment_id || includes seen b.adjustment_id || is_blank b.reason_code)
        SpreadError.adjustment_invalid _ h in
    rw
      (
        apply_ordered-component key (b.adjustment_id ∷ seen) bs
            (add_delta b.component b.delta_bps c) r h₁,
        add_delta-component key b.component b.delta_bps c,
      )
      (omega int_laws)

fresh :
    (x : String) (seen : List String) (bs : List SpreadAdjustment) (c r : SpreadComponents)
    → apply_ordered seen bs c ≡ ok r
    → includes seen x ≡ true
    → includes (map (λ a. a.adjustment_id) bs) x ≡ false
unfolding apply_ordered
fresh x seen [] c r h old = refl
fresh x seen (b ∷ bs) c r h old =
    let (valid, h₁) =
      >>-eq_ok (is_blank b.adjustment_id || includes seen b.adjustment_id || is_blank b.reason_code)
        SpreadError.adjustment_invalid _ h in
    let (first, _) = ||-eq_false _ _ valid in
    let (_, new) = ||-eq_false _ _ first in
    let rest =
      fresh x (b.adjustment_id ∷ seen) bs (add_delta b.component b.delta_bps c) r h₁
        (rw old (ground arith)) in
    elim (Bool-cases (b.adjustment_id == x)) [
      | inl e ↦ absurd (false≢true (sym new ∙ ap (includes seen) (==-eq b.adjustment_id x e) ∙ old))
      | inr e ↦ rw e rest
    ]

apply_ordered-distinct :
    (seen : List String) (bs : List SpreadAdjustment) (c r : SpreadComponents)
    → apply_ordered seen bs c ≡ ok r
    → has_duplicates (map (λ a. a.adjustment_id) bs) ≡ false
unfolding apply_ordered
apply_ordered-distinct seen [] c r h = refl
apply_ordered-distinct seen (b ∷ bs) c r h =
    let (_, h₁) =
      >>-eq_ok (is_blank b.adjustment_id || includes seen b.adjustment_id || is_blank b.reason_code)
        SpreadError.adjustment_invalid _ h in
    let next = add_delta b.component b.delta_bps c in
    let own =
      fresh b.adjustment_id (b.adjustment_id ∷ seen) bs next r h₁
        (ap (λ q. q || includes seen b.adjustment_id) (==_refl b.adjustment_id)) in
    rw (own, apply_ordered-distinct (b.adjustment_id ∷ seen) bs next r h₁) refl

-- Components that a policy admits, with their sum.
pub record IsWithin (c : SpreadComponents) (policy : SpreadPolicy) (total : ℤ) : Type 0 where
  pub nonnegative : (key : ComponentKey) → pos 0 ≤ℤ component_of key c
  pub derived : total_spread_bps c ≡ total
  pub limited : total ≤ℤ policy.maximum_total_charge_bps

pub validate_components-IsWithin :
    (c : SpreadComponents) (policy : SpreadPolicy) (total : ℤ)
    → validate_components c policy ≡ ok total
    → IsWithin c policy total
unfolding validate_components
validate_components-IsWithin c policy total h =
    let (bps, h₁) = >>-eq_ok _ SpreadError.components_invalid _ h in
    let (limit, h₂) = >>-eq_ok _ SpreadError.limit_exceeded _ h₁ in
    let (two, third) = ||-eq_false _ _ bps in
    let (first, second) = ||-eq_false _ _ two in
    record {
      nonnegative = by_key (at_least _ first) (at_least _ second) (at_least _ third);
      derived = ok_eq h₂;
      limited =
          subst (λ n. n ≤ℤ policy.maximum_total_charge_bps) (ok_eq h₂)
            (at_most policy.maximum_total_charge_bps (total_spread_bps c) limit);
    }
  where
    by_key :
        pos 0 ≤ℤ c.modelled_protection_cost_bps
        → pos 0 ≤ℤ c.fuel_cap_margin_bps
        → pos 0 ≤ℤ c.reserve_buffer_bps
        → (key : ComponentKey) → pos 0 ≤ℤ component_of key c
    by_key x y z protection_cost_key = x
    by_key x y z margin_key = y
    by_key x y z reserve_key = z

    at_least : (n : ℤ) → not (valid_bps n) ≡ false → pos 0 ≤ℤ n
    at_least n h = ground arith

    at_most : (a b : ℤ) → ltb_ℤ a b ≡ false → b ≤ℤ a
    at_most a b h = ground arith

-- What adjusted components are, whatever order the adjustments came in.
pub record IsAdjusted (base : SpreadComponents) (adjustments ordered : List SpreadAdjustment)
    (policy : SpreadPolicy) (r : AdjustedComponents) : Type 0 where
  pub component :
      (key : ComponentKey)
      → component_of key r.components ≡ component_of key base +ℤ sum_of (delta_for key) adjustments
  pub within : IsWithin r.components policy (total_spread_bps r.components)
  pub ids : r.applied_adjustment_ids ≡ map (λ a. a.adjustment_id) ordered
  pub distinct : has_duplicates r.applied_adjustment_ids ≡ false
  pub sorted : IsSorted ordered
  pub kept : (f : SpreadAdjustment → ℤ) → sum_of f ordered ≡ sum_of f adjustments

-- Adjusting charges that returns adds to each component all the deltas meant for it, keeps within the
-- policy, and lists distinct identities in an order of the adjustments by precedence.
pub apply_spread_adjustments-IsAdjusted :
    (base : SpreadComponents) (adjustments : List SpreadAdjustment) (policy : SpreadPolicy)
    (r : AdjustedComponents)
    → apply_spread_adjustments base adjustments policy ≡ ok r
    → (ordered : List SpreadAdjustment) × IsAdjusted base adjustments ordered policy r
unfolding apply_spread_adjustments
apply_spread_adjustments-IsAdjusted base adjustments policy r h =
    let ordered = sort_adjustments adjustments in
    let (c, applied, h₁) = >>=-eq_ok (apply_ordered [] ordered base) _ h in
    let (total, valid, h₂) = >>=-eq_ok (validate_components c policy) _ h₁ in
    let w = validate_components-IsWithin c policy total valid in
    (
      ordered,
      subst (IsAdjusted base adjustments ordered policy) (ok_eq h₂) (record {
        component = λ key.
            apply_ordered-component key [] ordered base c applied
            ∙ ap (λ n. component_of key base +ℤ n)
                (sum_of-sort_adjustments (delta_for key) adjustments);
        within = subst (IsWithin c policy) (sym w.derived) w;
        ids = refl;
        distinct = apply_ordered-distinct [] ordered base c applied;
        sorted = sort_adjustments-IsSorted adjustments;
        kept = λ f. sum_of-sort_adjustments f adjustments;
      }),
    )
