-- ===== src/Config/Limits.antt =====
-- internal/config/config.go: `MediaMaxFileSizeBytes`. An int64 is its residue modulo 2 ^ 64.
pub mod Units
use Prim.Native.Char.{Char, code}
use Prim.Native.String.{[], ◌∷◌}
use wsapi_app.Common.{
  ℕ, ◌+◌, ◌-◌, ◌*◌, ◌%◌, ◌^◌, Bool, true, false, not, ◌&&◌, ◌||◌, String, ◌==◌, Option, none, some,
  eqb, leb, ltb, if◌then◌else◌,
}
use wsapi_app.Text.{trim_space}
use wsapi_app.Validate.{is_digit}
use wsapi_app.Config.{Config}

-- The value of decimal digits after a value; `none` if there is another character.
unfoldable pub digits_value : ℕ → String → Option ℕ
digits_value n [] = some n
digits_value n (c ∷ s) =
    let rest = digits_value (n * 10 + (code c - 48)) s in if is_digit (code c) then rest else none

unfoldable pub number_value : String → Option ℕ
number_value [] = none
number_value (c ∷ s) = digits_value 0 (c ∷ s)

-- `strconv.ParseInt(s, 10, 64)` followed by `err != nil || n < 0`: `none` if that holds.
unfoldable pub parse_size : String → Option ℕ
parse_size [] = none
parse_size (c ∷ s) =
    if eqb (code c) b'-'
    then elim (number_value s) [ none ↦ none | some n ↦ if eqb n 0 then some 0 else none ]
    else elim (number_value (if eqb (code c) b'+' then s else c ∷ s)) [
      | none ↦ none
      | some n ↦ if ltb n (2 ^ 63) then some n else none
    ]

-- The text without its last two characters, and the codes of these.
unfoldable pub cut_last_two : String → Option (String × ℕ × ℕ)
cut_last_two [] = none
cut_last_two (c ∷ []) = none
cut_last_two (c ∷ (d ∷ [])) = some ([], code c, code d)
cut_last_two (c ∷ (d ∷ (e ∷ s))) = elim (cut_last_two (d ∷ (e ∷ s))) [
  | none ↦ none
  | some (front, x, y) ↦ some (c ∷ front, x, y)
]

-- A letter of `strings.ToUpper(s)`, given by the code of the capital.
abbrev pub is_letter : ℕ → ℕ → Bool
is_letter capital c = eqb c capital || eqb c (capital + 32)

-- The switch over the suffix.
unfoldable pub unit_multiplier : ℕ → ℕ → Option ℕ
unit_multiplier x y =
    if not (is_letter b'B' y)
    then none
    else if is_letter b'G' x
    then some (2 ^ 30)
    else if is_letter b'M' x
    then some (2 ^ 20)
    else if is_letter b'K' x
    then some (2 ^ 10)
    else none

-- The number and the multiplier.
unfoldable pub split_unit : String → String × ℕ
split_unit s = elim (cut_last_two s) [
  | none ↦ (s, 1)
  | some (front, x, y) ↦ elim (unit_multiplier x y) [
    | none ↦ (s, 1)
    | some m ↦ (trim_space front, m)
  ]
]

abbrev pub default_media_size : ℕ
default_media_size = 104857600

-- `n * multiplier`, or the default.
unfoldable pub size_of : String × ℕ → ℕ
size_of (number, multiplier) = elim (parse_size number) [
  | none ↦ default_media_size
  | some n ↦ (n * multiplier) % 2 ^ 64
]

-- `MediaMaxFileSizeBytes`
unfoldable pub media_max_file_size_bytes : Config → ℕ
media_max_file_size_bytes cfg =
    let s = trim_space cfg.media_max_file_size in
    if s == "" then default_media_size else size_of (split_unit s)
