-- ===== src/Base/Text.antt =====
-- JavaScript strings: the test `!s.trim()`, and decimal numerals.
use Prim.Native.Nat.{ℕ, zero, suc, ◌+◌, ◌-◌, ◌/◌, ◌%◌}
use Prim.Native.Char.{code}
use Prim.Native.String.{String, ◌++◌, count}
use mathlib.Core.Path.{◌≡◌, sym, subst}
use mathlib.Core.Logic.{inl, inr}
use text.Mathlib.Text.{◌==◌ as str_eq}
use text.Mathlib.TextEquality.{eq_iff}
use mathlib.Core.Bool.{Bool, true, false, false≢true, ◌&&◌, ◌||◌}
use fuel_cap.Base.Tests.{ltb, leb, nat_beq, Bool-cases, if◌then◌else◌}

-- What `trim` removes: white space and line terminators of ECMAScript.
unfoldable pub is_space : ℕ → Bool
is_space c =
    (leb 9 c && leb c 13)
    || nat_beq c 32
    || nat_beq c 160
    || nat_beq c 0x1680
    || (leb 0x2000 c && leb c 0x200a)
    || nat_beq c 0x2028
    || nat_beq c 0x2029
    || nat_beq c 0x202f
    || nat_beq c 0x205f
    || nat_beq c 0x3000
    || nat_beq c 0xfeff

-- `!s.trim()`
unfoldable pub is_blank : String → Bool
unfolding is_space
is_blank String.[] = true
is_blank (String.◌∷◌ c s) = is_space (code c) && is_blank s

trim_start : String → String
unfolding is_space
trim_start String.[] = ""
trim_start (String.◌∷◌ c s) =
    let rest = trim_start s in if is_space (code c) then rest else String.◌∷◌ c s

trim_end : String → String
unfolding is_space
trim_end String.[] = ""
trim_end (String.◌∷◌ c s) =
    let rest = trim_end s in if is_space (code c) && str_eq rest "" then "" else String.◌∷◌ c rest

-- `s.trim()`
unfoldable pub trim : String → String
unfolding trim_start trim_end
trim s = trim_end (trim_start s)

digit : ℕ → String
digit n =
    if nat_beq n 0
    then "0"
    else if nat_beq n 1
    then "1"
    else if nat_beq n 2
    then "2"
    else if nat_beq n 3
    then "3"
    else if nat_beq n 4
    then "4"
    else if nat_beq n 5
    then "5"
    else if nat_beq n 6
    then "6"
    else if nat_beq n 7
    then "7"
    else if nat_beq n 8
    then "8"
    else "9"

-- The digits of `n` before `acc`; `n + 1` rounds are enough, since each divides by ten.
show_digits : ℕ → ℕ → String → String
show_digits zero n acc = acc
show_digits (suc fuel) n acc =
    let text = digit (n % 10) ++ acc in
    let rest = show_digits fuel (n / 10) text in if ltb n 10 then text else rest

-- `String(n)` of a natural number.
unfoldable pub show_ℕ : ℕ → String
unfolding digit show_digits
show_ℕ n = show_digits (n + 1) n ""

repeat : ℕ → String → String
repeat zero s = ""
repeat (suc n) s = s ++ repeat n s

-- `s.padStart(n, "0")`, for an ASCII text.
unfoldable pub pad_start : ℕ → String → String
unfolding repeat
pad_start n s = repeat (n - count s) "0" ++ s

pub ne_empty_of_not_blank : (s : String) → is_blank s ≡ false → str_eq s "" ≡ false
unfolding is_blank
ne_empty_of_not_blank s h = elim (Bool-cases (str_eq s "")) [
  | inl e ↦ absurd (false≢true (sym (subst (λ t. is_blank t ≡ false) ((eq_iff s "").0 e) h)))
  | inr e ↦ e
]

-- `s.startsWith(t)`
abbrev pub starts_with : String → String → Bool
starts_with s String.[] = true
starts_with String.[] (String.◌∷◌ d t) = false
starts_with (String.◌∷◌ c s) (String.◌∷◌ d t) = nat_beq (code c) (code d) && starts_with s t

-- `s.includes(t)`
abbrev pub includes_text : String → String → Bool
includes_text String.[] t = starts_with String.[] t
includes_text (String.◌∷◌ c s) t = starts_with (String.◌∷◌ c s) t || includes_text s t
