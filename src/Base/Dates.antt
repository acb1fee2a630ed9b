-- ===== src/Base/Dates.antt =====
-- Comparisons of `Date.parse` results, where a text that is no date gives NaN.
use Prim.Native.String.{String}
use mathlib.Core.Bool.{Bool, false}
use mathlib.Core.Option.{Option}
use fuel_cap.Base.Lists.{map_or}
use fuel_cap.Base.Int.{ℤ, ltb_ℤ, leb_ℤ}

-- `Date.parse(a) < Date.parse(b)`
abbrev pub is_earlier : (String → Option ℤ) → String → String → Bool
is_earlier parse a b = map_or false (λ m. map_or false (λ n. ltb_ℤ m n) (parse b)) (parse a)

-- `Date.parse(a) <= Date.parse(b)`
abbrev pub is_no_later : (String → Option ℤ) → String → String → Bool
is_no_later parse a b = map_or false (λ m. map_or false (λ n. leb_ℤ m n) (parse b)) (parse a)
