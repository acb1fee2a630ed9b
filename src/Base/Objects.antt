-- ===== src/Base/Objects.antt =====
-- Plain objects that the code reads by a computed name.
use Prim.Native.String.{String}
use mathlib.Core.Bool.{Bool}
use mathlib.Core.List.{List, [], ◌∷◌}
use fuel_cap.Base.Equality.{includes, string_eq}

-- The names that every object inherits from `Object.prototype`, which a read of a plain object finds.
abbrev prototype_keys : List String
prototype_keys =
    "constructor" ∷ "__defineGetter__" ∷ "__defineSetter__" ∷ "hasOwnProperty" ∷ "__lookupGetter__"
    ∷ "__lookupSetter__" ∷ "isPrototypeOf" ∷ "propertyIsEnumerable" ∷ "toString" ∷ "valueOf"
    ∷ "__proto__" ∷ "toLocaleString" ∷ []

unfoldable pub is_inherited : String → Bool
is_inherited key = includes prototype_keys key
