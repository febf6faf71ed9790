-- ===== src/Validate.antt =====
-- internal/validate/validate.go: the rules for instance IDs, phone numbers and recipients, each
-- regular expression as the function that decides it.
pub mod Recipients
mod Tests
use Prim.Native.Char.{Char, code}
use Prim.Native.String.{[], ◌∷◌}
use wsapi_app.Common.{
  ℕ, suc, Bool, true, false, not, ◌&&◌, ◌||◌, String, ◌==◌, Option, none, some, eqb, leb,
  if◌then◌else◌,
}

-- `\d`
abbrev pub is_digit : ℕ → Bool
is_digit c = leb 48 c && leb c 57

abbrev pub is_alphanumeric : ℕ → Bool
is_alphanumeric c = is_digit c || ((leb 65 c && leb c 90) || (leb 97 c && leb c 122))

-- `[a-zA-Z0-9._-]`
abbrev pub is_id_char : ℕ → Bool
is_id_char c = is_alphanumeric c || (eqb c b'.' || (eqb c b'_' || eqb c b'-'))

-- `^c*$` for a class of characters
unfoldable pub all_chars : (ℕ → Bool) → String → Bool
all_chars p [] = true
all_chars p (c ∷ s) = p (code c) && all_chars p s

unfoldable pub char_count : String → ℕ
char_count [] = 0
char_count (c ∷ s) = suc (char_count s)

-- `strings.TrimPrefix(s, "+")`
unfoldable pub trim_plus : String → String
trim_plus [] = []
trim_plus (c ∷ s) = if eqb (code c) b'+' then s else c ∷ s

-- `strings.Cut(s, "@")`; `none` if there is none.
unfoldable pub cut_at : String → Option (String × String)
cut_at [] = none
cut_at (c ∷ s) =
    let rest = cut_at s in
    if eqb (code c) b'@'
    then some ([], s)
    else elim rest [ none ↦ none | some (user, server) ↦ some (c ∷ user, server) ]

-- `instanceIDRegex`
unfoldable pub is_instance_id : String → Bool
is_instance_id [] = false
is_instance_id (c ∷ s) =
    is_alphanumeric (code c) && (all_chars is_id_char s && leb (char_count s) 63)

-- `[1-9]\d{6,14}`
unfoldable pub is_international : String → Bool
is_international [] = false
is_international (c ∷ s) =
    (leb 49 (code c) && leb (code c) 57)
    && (all_chars is_digit s && (leb 6 (char_count s) && leb (char_count s) 14))

-- `Phone`
unfoldable pub phone : String → Bool
phone s = is_international (trim_plus s)

-- `\d+`
unfoldable pub is_digits : String → Bool
is_digits [] = false
is_digits (c ∷ s) = is_digit (code c) && all_chars is_digit s

-- The rest of `jidUserRegex` after a digit of its first group.
unfoldable pub jid_user_rest : String → Bool
jid_user_rest [] = true
jid_user_rest (c ∷ s) =
    let longer = jid_user_rest s in
    if is_digit (code c) then longer else eqb (code c) b'-' && is_digits s

-- `jidUserRegex`
unfoldable pub is_jid_user : String → Bool
is_jid_user [] = false
is_jid_user (c ∷ s) = is_digit (code c) && jid_user_rest s

-- `strings.Contains(s, "@")`
unfoldable pub has_at : String → Bool
has_at [] = false
has_at (c ∷ s) = eqb (code c) b'@' || has_at s

-- `Recipient`
unfoldable pub recipient : String → Bool
recipient s = if s == "" then false else elim (cut_at s) [
  | none ↦ phone s
  | some (user, server) ↦
      if server == "" || has_at server then false else is_jid_user (trim_plus user)
]
