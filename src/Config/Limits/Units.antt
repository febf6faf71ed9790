-- ===== src/Config/Limits/Units.antt =====
-- A size in the configuration that has a unit.
use Prim.Native.Char.{Char, code}
use Prim.Native.String.{[], ◌∷◌, ◌++◌}
use text.Mathlib.TextLemmas.{nil-append, cons-append}
use native.Mathlib.Nat.{pow-suc}
use wsapi_app.Common.{
  ℕ, suc, ◌+◌, ◌-◌, ◌⊎◌, ◌*◌, ◌%◌, ◌^◌, ◌<◌, ◌≡◌, ◌≢◌, refl, ap, ◌∙◌, true, false, String, some,
  eqb, arith, eq_false, lt→ltb,
}
use wsapi_app.Text.{is_space, trim_space}
use wsapi_app.Text.Lemmas.{AllChars, AllChars-append, is_dark, trim_space-dark}
use wsapi_app.Validate.{is_digit}
use wsapi_app.Config.{Config}
use wsapi_app.Config.Limits.{
  size_of, digits_value, number_value, parse_size, cut_last_two, unit_multiplier, split_unit,
  media_max_file_size_bytes,
}

digit-is_dark : (c : ℕ) → is_digit c ≡ true → is_dark c ≡ true
unfolding is_space
digit-is_dark c h = ground arith

digits_dark : (s : String) → AllChars is_digit s → AllChars is_dark s
digits_dark [] h = tt
digits_dark (c ∷ s) h = (digit-is_dark (code c) h.0, digits_dark s h.1)

cut_last_two-append :
    (s : String) (c d : Char) → cut_last_two (s ++ (c ∷ (d ∷ []))) ≡ some (s, code c, code d)
unfolding cut_last_two
cut_last_two-append [] c d = rw nil-append
cut_last_two-append (b ∷ []) c d = rw (cons-append, nil-append)
cut_last_two-append (b ∷ (e ∷ [])) c d = rw (cons-append, cons-append, nil-append)
cut_last_two-append (b ∷ (e ∷ (f ∷ s))) c d =
    let shorter = rw (cons-append, cons-append) at (cut_last_two-append (e ∷ (f ∷ s)) c d) in
    rw (cons-append, cons-append, cons-append) (rw (shorter, cut_last_two) refl)

too_short : (r : String × ℕ × ℕ) → cut_last_two [] ≡ some r → ⊥
unfolding cut_last_two
too_short r h = cc

cut_last_two-ne-nil : (s : String) (r : String × ℕ × ℕ) → cut_last_two s ≡ some r → s ≢ ""
cut_last_two-ne-nil s r h e = too_short r (rw e at h)

no_value : (n : ℕ) → number_value [] ≡ some n → ⊥
unfolding number_value
no_value n h = cc

-- A number has no sign.
parse_size-digits :
    (s : String) (n : ℕ)
    → AllChars is_digit s
    → number_value s ≡ some n
    → n < 2 ^ 63
    → parse_size s ≡ some n
unfolding parse_size
parse_size-digits [] n h v fits = absurd (no_value n v)
parse_size-digits (c ∷ s) n h v fits =
    let minus : eqb (code c) b'-' ≡ false = ground (arith, h.0) in
    let plus : eqb (code c) b'+' ≡ false = ground (arith, h.0) in
    rw (minus, plus, v, lt→ltb n (2 ^ 63) fits)

-- The units, the power of 1024 that each stands for, and its first letter.
pub data SizeUnit : Type 0 where
  kilobytes megabytes gigabytes : SizeUnit

abbrev pub bytes_in : SizeUnit → ℕ
bytes_in kilobytes = 1024
bytes_in megabytes = 1024 * 1024
bytes_in gigabytes = 1024 * 1024 * 1024

abbrev pub initial : SizeUnit → ℕ
initial kilobytes = b'K'
initial megabytes = b'M'
initial gigabytes = b'G'

-- Two characters that spell a unit, each as a capital or as a small letter.
abbrev pub Spells : SizeUnit → Char → Char → Type 0
Spells u c d =
    ((code c ≡ initial u) ⊎ (code c ≡ initial u + 32)) × ((code d ≡ b'B') ⊎ (code d ≡ b'B' + 32))

-- The value of a text of decimal digits: each digit times a power of ten.
abbrev pub digit_count : String → ℕ
digit_count [] = 0
digit_count (c ∷ s) = suc (digit_count s)

abbrev pub decimal : String → ℕ
decimal [] = 0
decimal (c ∷ s) = (code c - b'0') * 10 ^ digit_count s + decimal s

scaled_lem : (n x p r : ℕ) → (n * 10 + x) * p + r ≡ n * (p * 10) + (x * p + r)
scaled_lem n x p r = omega arith

shift_lem : (n x k r : ℕ) → (n * 10 + x) * 10 ^ k + r ≡ n * 10 ^ suc k + (x * 10 ^ k + r)
shift_lem n x k r = rw pow-suc (scaled_lem n x (10 ^ k) r)

digits_value_lem :
    (s : String) (n : ℕ)
    → AllChars is_digit s
    → digits_value n s ≡ some (n * 10 ^ digit_count s + decimal s)
unfolding digits_value
digits_value_lem [] n h = ap some (omega arith)
digits_value_lem (c ∷ s) n h =
    rw (h.0, digits_value_lem s (n * 10 + (code c - 48)) h.1)
      (ap some (shift_lem n (code c - 48) (digit_count s) (decimal s)))

number_value_lem : (s : String) → s ≢ "" → AllChars is_digit s → number_value s ≡ some (decimal s)
unfolding number_value
number_value_lem [] filled h = absurd (filled refl)
number_value_lem (c ∷ s) filled h = digits_value_lem (c ∷ s) 0 h ∙ ap some (omega arith)

multiplier_lem :
    (u : SizeUnit) (c d : Char)
    → Spells u c d
    → unit_multiplier (code c) (code d) ≡ some (bytes_in u)
unfolding unit_multiplier
multiplier_lem kilobytes c d (x, y) = ground arith
multiplier_lem megabytes c d (x, y) = ground arith
multiplier_lem gigabytes c d (x, y) = ground arith

-- The letters of a unit are no space.
unit_dark :
    (x y unit : ℕ) → unit_multiplier x y ≡ some unit → (is_dark x ≡ true) × (is_dark y ≡ true)
unfolding unit_multiplier is_space
unit_dark x y unit h = ground arith

split_unit_lem :
    (digits : String) (c d : Char) (unit : ℕ)
    → AllChars is_digit digits
    → unit_multiplier (code c) (code d) ≡ some unit
    → split_unit (digits ++ (c ∷ (d ∷ []))) ≡ (digits, unit)
unfolding split_unit
split_unit_lem digits c d unit number known = rw (
  cut_last_two-append digits c d,
  split_unit,
  known,
  trim_space-dark digits (digits_dark digits number),
)

size_of_lem :
    (s : String) (n unit : ℕ) → parse_size s ≡ some n → size_of (s, unit) ≡ (n * unit) % 2 ^ 64
unfolding size_of
size_of_lem s n unit h = rw (h, size_of)

-- A size of decimal digits and a unit, KB, MB or GB with each letter a capital or not, is the value of the
-- digits times 1024, 1024 ^ 2 or 1024 ^ 3, modulo 2 ^ 64, where the number alone fits into an int64: a
-- product that does not fit wraps around.
pub media_size_of_unit :
    (cfg : Config) (digits : String) (c d : Char) (u : SizeUnit)
    → cfg.media_max_file_size ≡ digits ++ (c ∷ (d ∷ []))
    → digits ≢ ""
    → AllChars is_digit digits
    → decimal digits < 2 ^ 63
    → Spells u c d
    → media_max_file_size_bytes cfg ≡ (decimal digits * bytes_in u) % 2 ^ 64
unfolding media_max_file_size_bytes
media_size_of_unit cfg digits c d u text filled number fits spelt =
    let n = decimal digits in
    let unit = bytes_in u in
    let value = number_value_lem digits filled number in
    let known = multiplier_lem u c d spelt in
    let whole = digits ++ (c ∷ (d ∷ [])) in
    let (dark_c, dark_d) = unit_dark (code c) (code d) unit known in
    let dark = digits_dark digits number in
    let trimmed : trim_space cfg.media_max_file_size ≡ whole = rw text (
      trim_space-dark whole
        (AllChars-append is_dark digits (c ∷ (d ∷ [])) dark (dark_c, (dark_d, tt)))) in
    let set = eq_false whole "" (cut_last_two-ne-nil whole _ (cut_last_two-append digits c d)) in
    rw (trimmed, set)
      (ap size_of (split_unit_lem digits c d unit number known)
        ∙ size_of_lem digits n unit (parse_size-digits digits n number value fits))
