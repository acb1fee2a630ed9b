-- ===== src/Rules/Order.antt =====
-- The stable sort that packages/rules-engine/src/index.ts evaluates rules in.
use fuel_cap.Base.{
  ℕ, ◌≤◌, ◌≡◌, refl, sym, subst, ap, ◌∙◌, inl, inr, ◌⊎◌, Bool, true, false, false≢true, ◌||◌, some,
  List, [], ◌∷◌, Memᴰ, All, find, any, Bool-cases, some_eq, none_ne_some, arith,
}
use fuel_cap.Rules.{Host, Rule, precedence_order}
use fuel_cap.Rules.Engine.{goes_first, insert_rule, sort_rules}

abbrev pub rank : Rule → ℕ
rank r = precedence_order r.precedence

-- No rule stands before one of a stronger precedence.
abbrev pub IsSorted : List Rule → Type 0
IsSorted [] = Unit {0}
IsSorted (x ∷ xs) = All (λ y. rank x ≤ rank y) xs × IsSorted xs

goes_first-rank : (host : Host) (l r : Rule) → goes_first host l r ≡ true → rank l ≤ rank r
unfolding goes_first
goes_first-rank host l r h = ground arith

goes_first-rank_not : (host : Host) (l r : Rule) → goes_first host l r ≡ false → rank r ≤ rank l
unfolding goes_first
goes_first-rank_not host l r h = ground arith

All-le :
    (r x : Rule) (xs : List Rule)
    → rank r ≤ rank x
    → All (λ y. rank x ≤ rank y) xs
    → All (λ y. rank r ≤ rank y) xs
All-le r x [] h k = tt
All-le r x (y ∷ ys) h k = (omega arith, All-le r x ys h k.1)

All-insert_rule :
    (host : Host) (P : Rule → Type 0) (r : Rule) (xs : List Rule)
    → P r
    → All P xs
    → All P (insert_rule host r xs)
unfolding insert_rule
All-insert_rule host P r [] h k = (h, tt)
All-insert_rule host P r (x ∷ xs) h k = elim (Bool-cases (goes_first host r x)) [
  | inl e ↦ rw e (h, k)
  | inr e ↦ rw e (k.0, All-insert_rule host P r xs h k.1)
]

insert_rule-IsSorted :
    (host : Host) (r : Rule) (xs : List Rule) → IsSorted xs → IsSorted (insert_rule host r xs)
unfolding insert_rule
insert_rule-IsSorted host r [] h = (tt, tt)
insert_rule-IsSorted host r (x ∷ xs) h = elim (Bool-cases (goes_first host r x)) [
  | inl e ↦ let le = goes_first-rank host r x e in rw e ((le, All-le r x xs le h.0), h)
  | inr e ↦ rw e (
    All-insert_rule host (λ y. rank x ≤ rank y) r xs (goes_first-rank_not host r x e) h.0,
    insert_rule-IsSorted host r xs h.1,
  )
]

pub sort_rules-IsSorted : (host : Host) (rs : List Rule) → IsSorted (sort_rules host rs)
unfolding sort_rules
sort_rules-IsSorted host [] = tt
sort_rules-IsSorted host (r ∷ rs) =
    insert_rule-IsSorted host r (sort_rules host rs) (sort_rules-IsSorted host rs)

any-insert_rule :
    (host : Host) (p : Rule → Bool) (r : Rule) (xs : List Rule)
    → any p (insert_rule host r xs) ≡ (p r || any p xs)
unfolding insert_rule
any-insert_rule host p r [] = refl
any-insert_rule host p r (x ∷ xs) = elim (Bool-cases (goes_first host r x)) [
  | inl e ↦ rw e refl
  | inr e ↦ rw e (ground (arith, any-insert_rule host p r xs))
]

-- The sort keeps what some rule satisfies.
pub any-sort_rules :
    (host : Host) (p : Rule → Bool) (rs : List Rule) → any p (sort_rules host rs) ≡ any p rs
unfolding sort_rules
any-sort_rules host p [] = refl
any-sort_rules host p (r ∷ rs) =
    any-insert_rule host p r (sort_rules host rs) ∙ ap (λ b. p r || b) (any-sort_rules host p rs)

Memᴰ-cases : {a x : Rule} {xs : List Rule} → Memᴰ a (x ∷ xs) → (a ≡ x) ⊎ Memᴰ a xs
Memᴰ-cases (Memᴰ.head e) = inl e
Memᴰ-cases (Memᴰ.tail m) = inr m

Memᴰ-insert_rule :
    (host : Host) (a r : Rule) (xs : List Rule)
    → Memᴰ a (insert_rule host r xs)
    → (a ≡ r) ⊎ Memᴰ a xs
unfolding insert_rule
Memᴰ-insert_rule host a r [] m = Memᴰ-cases m
Memᴰ-insert_rule host a r (x ∷ xs) m = elim (Bool-cases (goes_first host r x)) [
  | inl e ↦ Memᴰ-cases (rw e at m)
  | inr e ↦ elim (Memᴰ-cases (rw e at m)) [
    | inl f ↦ inr (Memᴰ.head f)
    | inr n ↦ elim (Memᴰ-insert_rule host a r xs n) [ inl f ↦ inl f | inr k ↦ inr (Memᴰ.tail k) ]
  ]
]

-- A rule of the sorted list is a rule of the list.
pub Memᴰ-sort_rules :
    (host : Host) (a : Rule) (rs : List Rule) → Memᴰ a (sort_rules host rs) → Memᴰ a rs
unfolding sort_rules
Memᴰ-sort_rules host a [] m = elim m [ ]
Memᴰ-sort_rules host a (r ∷ rs) m = elim (Memᴰ-insert_rule host a r (sort_rules host rs) m) [
  | inl e ↦ Memᴰ.head e
  | inr m' ↦ Memᴰ.tail (Memᴰ-sort_rules host a rs m')
]

Memᴰ-insert_rule_here : (host : Host) (r : Rule) (xs : List Rule) → Memᴰ r (insert_rule host r xs)
unfolding insert_rule
Memᴰ-insert_rule_here host r [] = Memᴰ.head refl
Memᴰ-insert_rule_here host r (x ∷ xs) = elim (Bool-cases (goes_first host r x)) [
  | inl e ↦ rw e (Memᴰ.head refl)
  | inr e ↦ rw e (Memᴰ.tail (Memᴰ-insert_rule_here host r xs))
]

Memᴰ-insert_rule_there :
    (host : Host) (a r : Rule) (xs : List Rule) → Memᴰ a xs → Memᴰ a (insert_rule host r xs)
unfolding insert_rule
Memᴰ-insert_rule_there host a r [] m = elim m [ ]
Memᴰ-insert_rule_there host a r (x ∷ xs) m = elim (Bool-cases (goes_first host r x)) [
  | inl e ↦ rw e (Memᴰ.tail m)
  | inr e ↦ rw e (elim (Memᴰ-cases m) [
    | inl f ↦ Memᴰ.head f
    | inr n ↦ Memᴰ.tail (Memᴰ-insert_rule_there host a r xs n)
  ])
]

-- A rule of the list is a rule of the sorted list.
pub sort_rules-Memᴰ :
    (host : Host) (a : Rule) (rs : List Rule) → Memᴰ a rs → Memᴰ a (sort_rules host rs)
unfolding sort_rules
sort_rules-Memᴰ host a [] m = elim m [ ]
sort_rules-Memᴰ host a (r ∷ rs) (Memᴰ.head e) =
    subst (λ b. Memᴰ b (insert_rule host r (sort_rules host rs))) (sym e)
      (Memᴰ-insert_rule_here host r (sort_rules host rs))
sort_rules-Memᴰ host a (r ∷ rs) (Memᴰ.tail m) =
    Memᴰ-insert_rule_there host a r (sort_rules host rs) (sort_rules-Memᴰ host a rs m)

All-Memᴰ : (P : Rule → Type 0) (a : Rule) (xs : List Rule) → All P xs → Memᴰ a xs → P a
All-Memᴰ P a [] h m = elim m [ ]
All-Memᴰ P a (x ∷ xs) h (Memᴰ.head e) = subst P (sym e) h.0
All-Memᴰ P a (x ∷ xs) h (Memᴰ.tail m) = All-Memᴰ P a xs h.1 m

-- The first match in a sorted list is the strongest match, and it is in the list.
pub find-strongest :
    (p : Rule → Bool) (xs : List Rule) {a : Rule}
    → IsSorted xs
    → find p xs ≡ some a
    → Memᴰ a xs × (p a ≡ true) × ((r : Rule) → Memᴰ r xs → p r ≡ true → rank a ≤ rank r)
find-strongest p [] h e = absurd (none_ne_some (sym e))
find-strongest p (x ∷ xs) {a} h e = elim (Bool-cases (p x)) [
  | inl q ↦
      let same = some_eq (rw q at e) in
      (Memᴰ.head (sym same), ap p (sym same) ∙ q, λ r m k. first same r m)
  | inr q ↦
      let (m, holds, strongest) = find-strongest p xs h.1 (rw q at e) in
      (Memᴰ.tail m, holds, λ r n k. later q strongest r n k)
]
  where
    first : x ≡ a → (r : Rule) → Memᴰ r (x ∷ xs) → rank a ≤ rank r
    first same r (Memᴰ.head f) = omega (arith, ap rank same, ap rank f)
    first same r (Memᴰ.tail m) =
        omega (arith, ap rank same, All-Memᴰ (λ y. rank x ≤ rank y) r xs h.0 m)

    later :
        p x ≡ false
        → ((r : Rule) → Memᴰ r xs → p r ≡ true → rank a ≤ rank r)
        → (r : Rule) → Memᴰ r (x ∷ xs)
        → p r ≡ true
        → rank a ≤ rank r
    later q strongest r (Memᴰ.head f) k = absurd (false≢true (sym q ∙ ap p (sym f) ∙ k))
    later q strongest r (Memᴰ.tail m) k = strongest r m k
