-- ===== src/Text.antt =====
-- The functions of Go's package strings that the code uses, on texts as lists of characters.
pub mod Lemmas
use Prim.Native.Char.{Char, code}
use Prim.Native.String.{[], ◌∷◌, ◌++◌}
use mathlib.Core.List
use wsapi_app.Common.{ℕ, Bool, true, false, ◌&&◌, ◌||◌, String, List, eqb, leb, if◌then◌else◌}

-- `unicode.IsSpace`
unfoldable pub is_space : ℕ → Bool
is_space c =
    (leb 9 c && leb c 13)
    || (eqb c 32
        || (eqb c 0x85
            || (eqb c 0xa0
                || (eqb c 0x1680
                    || ((leb 0x2000 c && leb c 0x200a)
                        || (eqb c 0x2028
                            || (eqb c 0x2029
                                || (eqb c 0x202f || (eqb c 0x205f || eqb c 0x3000)))))))))

-- `strings.TrimLeftFunc(s, unicode.IsSpace)`
unfoldable pub trim_left : String → String
trim_left [] = []
trim_left (c ∷ s) = let rest = trim_left s in if is_space (code c) then rest else c ∷ s

-- Is there nothing but space?
unfoldable pub is_blank : String → Bool
is_blank [] = true
is_blank (c ∷ s) = is_space (code c) && is_blank s

-- `strings.TrimRightFunc(s, unicode.IsSpace)`
unfoldable pub trim_right : String → String
trim_right [] = []
trim_right (c ∷ s) = let rest = trim_right s in if is_blank (c ∷ s) then [] else c ∷ rest

-- `strings.TrimSpace`
unfoldable pub trim_space : String → String
trim_space s = trim_right (trim_left s)

-- A character in front of the first part of a split.
unfoldable pub onto_first : Char → List String → List String
onto_first c List.[] = List.◌∷◌ (c ∷ []) List.[]
onto_first c (List.◌∷◌ part parts) = List.◌∷◌ (c ∷ part) parts

-- `strings.Split(s, sep)` for a separator of one character, given by its code.
unfoldable pub split : ℕ → String → List String
split sep [] = List.◌∷◌ [] List.[]
split sep (c ∷ s) =
    let parts = split sep s in if eqb (code c) sep then List.◌∷◌ [] parts else onto_first c parts

-- `strings.Join(parts, sep)`
unfoldable pub join : String → List String → String
join sep List.[] = []
join sep (List.◌∷◌ part List.[]) = part
join sep (List.◌∷◌ part (List.◌∷◌ next parts)) = part ++ (sep ++ join sep (List.◌∷◌ next parts))
