-- ===== src/Web/Text.antt =====
-- The length of a text in JavaScript: the number of its 16-bit units, two for a code point past 65535.
use linktheca.Prelude.{ℕ, ◌+◌, String, List, ◌∷◌, leb, ltb, if◌then◌else◌}
use Prim.Native.Char.{code}

unfoldable pub text_length : String → ℕ
text_length String.[] = 0
text_length (String.◌∷◌ c s) = (if leb 0x10000 (code c) then 2 else 1) + text_length s

-- A field of a `z.object`, whose text is to have from `min` to `max` units.
abbrev pub length_errors :
    String → ℕ → String → ℕ → String → String → List (String × String) → List (String × String)
length_errors name min too_small max too_big value rest =
    if ltb (text_length value) min
    then (name, too_small) ∷ rest
    else if ltb max (text_length value)
    then (name, too_big) ∷ rest
    else rest
