-- ===== src/Text/Lemmas.antt =====
-- Trimming and splitting texts that have no space and no separator.
use Prim.Native.Char.{Char, code}
use Prim.Native.String.{[], ◌∷◌, ◌++◌}
use text.Mathlib.TextLemmas.{nil-append, cons-append}
use wsapi_app.Common.{
  All, ℕ, ◌≡◌, refl, ap, Bool, true, false, String, List, eqb, if◌then◌else◌, arith,
}
use wsapi_app.Text.{is_space, is_blank, trim_left, trim_right, trim_space, onto_first, split, join}

-- Every character passes the test.
abbrev pub AllChars : (ℕ → Bool) → String → Type 0
AllChars p [] = Unit
AllChars p (c ∷ s) = (p (code c) ≡ true) × AllChars p s

abbrev pub is_dark : ℕ → Bool
is_dark c = if is_space c then false else true

dark-is_space : (c : ℕ) → is_dark c ≡ true → is_space c ≡ false
dark-is_space c h = ground arith

trim_left-dark : (s : String) → AllChars is_dark s → trim_left s ≡ s
unfolding trim_left
trim_left-dark [] h = refl
trim_left-dark (c ∷ s) h = rw (dark-is_space (code c) h.0)

trim_right-dark : (s : String) → AllChars is_dark s → trim_right s ≡ s
unfolding trim_right is_blank
trim_right-dark [] h = refl
trim_right-dark (c ∷ s) h = rw (dark-is_space (code c) h.0, trim_right-dark s h.1)

-- A text without space is its own trimming.
pub trim_space-dark : (s : String) → AllChars is_dark s → trim_space s ≡ s
unfolding trim_space
trim_space-dark s h = rw (trim_left-dark s h, trim_right-dark s h)

pub AllChars-append :
    (p : ℕ → Bool) (s t : String) → AllChars p s → AllChars p t → AllChars p (s ++ t)
AllChars-append p [] t hs ht = rw nil-append ht
AllChars-append p (c ∷ s) t hs ht = rw cons-append (hs.0, AllChars-append p s t hs.1 ht)

module _ (sep : Char) where
  abbrev pub is_other : ℕ → Bool
  is_other c = if eqb c (code sep) then false else true

  other_lem : (c : ℕ) → is_other c ≡ true → eqb c (code sep) ≡ false
  other_lem c h = ground arith

  self_lem : eqb (code sep) (code sep) ≡ true
  self_lem = ground arith

  split_one : (s : String) → AllChars is_other s → split (code sep) s ≡ List.◌∷◌ s List.[]
  unfolding split onto_first
  split_one [] h = refl
  split_one (c ∷ s) h = rw (other_lem (code c) h.0, split_one s h.1)

  split-append :
      (s rest : String)
      → AllChars is_other s
      → split (code sep) (s ++ (sep ∷ rest)) ≡ List.◌∷◌ s (split (code sep) rest)
  unfolding split onto_first
  split-append [] rest h = rw (nil-append, self_lem)
  split-append (c ∷ s) rest h = rw (cons-append, other_lem (code c) h.0, split-append s rest h.1)

  -- Splitting what was joined gives the parts back, if no part has the separator.
  pub split-join :
      (part : String) (parts : List String)
      → All (AllChars is_other) (List.◌∷◌ part parts)
      → split (code sep) (join (sep ∷ []) (List.◌∷◌ part parts)) ≡ List.◌∷◌ part parts
  unfolding join
  split-join part List.[] h = split_one part h.0
  split-join part (List.◌∷◌ next parts) h =
      rw (cons-append, nil-append, split-append part _ h.0)
        (ap (List.◌∷◌ part) (split-join next parts h.1))

-- What is joined has only the characters of the parts and of the separator.
pub AllChars-join :
    (p : ℕ → Bool) (sep : String) (parts : List String)
    → AllChars p sep
    → All (AllChars p) parts
    → AllChars p (join sep parts)
unfolding join
AllChars-join p sep List.[] hs h = tt
AllChars-join p sep (List.◌∷◌ part List.[]) hs h = h.0
AllChars-join p sep (List.◌∷◌ part (List.◌∷◌ next parts)) hs h =
    AllChars-append p part _ h.0
      (AllChars-append p sep _ hs (AllChars-join p sep (List.◌∷◌ next parts) hs h.1))
