-- ===== src/Validate/Recipients.antt =====
-- What a validated recipient is sent to.
use Prim.Native.Char.{Char, code}
use Prim.Native.String.{[], ◌∷◌, ◌++◌}
use text.Mathlib.TextLemmas.{nil-append, cons-append}
use text.Mathlib.TextEquality.{Char-path}
use wsapi_app.Common.{
  ◌≡◌, ◌≢◌, refl, ap, true, false, String, none, some, eqb, Bool-cases, Option-cases, inl, inr, ◌⊎◌,
  arith, eq_iff, eqb_iff,
}
use wsapi_app.Whatsmeow.{jid_of, WaTypes}
use wsapi_app.Validate.{trim_plus, cut_at, is_international, phone, is_jid_user, has_at, recipient}
use wsapi_app.Jid.{format_recipient}

has_at-cut_at : (s : String) → cut_at s ≡ none → has_at s ≡ false
unfolding cut_at has_at
has_at-cut_at [] h = refl
has_at-cut_at (c ∷ s) h = ground (arith, has_at-cut_at s)

-- The cases of a cut.
cut_at-cons :
    (c : Char) (s user server : String)
    → cut_at (c ∷ s) ≡ some (user, server)
    → ((eqb (code c) b'@' ≡ true) × (user ≡ []) × (server ≡ s))
      ⊎ ((eqb (code c) b'@' ≡ false)
          × (user' : String) × (cut_at s ≡ some (user', server))
          × (user ≡ c ∷ user'))
unfolding cut_at
cut_at-cons c s user server h = elim (Bool-cases (eqb (code c) b'@')) [
  | inl e ↦ inl (e, ground arith, ground arith)
  | inr e ↦ elim (Option-cases (cut_at s)) [
    | inl n ↦ absurd (ground arith)
    | inr ((user', server'), found) ↦ inr (e, user', ground arith, ground arith)
  ]
]

abbrev at_sign : Char
at_sign = "@"

-- A cut gives the two sides of an `@`.
cut_at_lem :
    (s user server : String)
    → cut_at s ≡ some (user, server)
    → (s ≡ user ++ ("@" ++ server)) × (has_at s ≡ true)
unfolding cut_at has_at
cut_at_lem [] user server h = absurd (ground arith)
cut_at_lem (c ∷ s) user server h = elim (cut_at-cons c s user server h) [
  | inl (e, u, v) ↦ (
    rw (u, v, nil-append, cons-append, nil-append)
        (ap (λ (d : Char). d ∷ s) (Char-path c at_sign ((eqb_iff (code c) b'@').0 e))),
    rw e,
  )
  | inr (e, user', found, u) ↦
      let (whole, at) = cut_at_lem s user' server found in
      (rw (u, cons-append) (ap (λ t. c ∷ t) whole), rw e at)
]

-- Stripping the plus commutes with the cut.
cut_at-trim_plus :
    (s user server : String)
    → cut_at s ≡ some (user, server)
    → cut_at (trim_plus s) ≡ some (trim_plus user, server)
unfolding cut_at trim_plus
cut_at-trim_plus [] user server h = absurd (ground arith)
cut_at-trim_plus (c ∷ s) user server h = elim (cut_at-cons c s user server h) [
  | inl (e, u, v) ↦ rw (u, v) (ground arith)
  | inr (e, user', found, u) ↦ rw u (ground arith)
]

has_at-trim_plus : (s : String) → has_at s ≡ false → has_at (trim_plus s) ≡ false
unfolding has_at trim_plus
has_at-trim_plus [] h = refl
has_at-trim_plus (c ∷ s) h = ground arith

-- A valid number is a number; a valid address is cut into a local part and a server.
recipient_cases :
    (s : String)
    → recipient s ≡ true
    → ((cut_at s ≡ none) × (phone s ≡ true))
      ⊎ ((user : String) × (server : String) × (cut_at s ≡ some (user, server))
          × (is_jid_user (trim_plus user) ≡ true)
          × (server ≢ "")
          × (has_at server ≡ false))
unfolding recipient
recipient_cases s h = elim (Option-cases (cut_at s)) [
  | inl n ↦ inl (n, ground arith)
  | inr ((user, server), found) ↦
      inr (user, server, found, ground arith, ground (arith, eq_iff server ""), ground arith)
]

-- A recipient that passes the validation reaches WhatsApp as something that can exist: without a
-- plus, it is either an international number, which is addressed at the default server, or a local
-- part of digits (with one group of digits after a dash at most) and a server that is not empty and
-- has no `@`; the latter text is what is parsed, and only if that fails is it taken as a whole.
pub recipient_routable :
    (wt : WaTypes) (s : String)
    → recipient s ≡ true
    → ((is_international (trim_plus s) ≡ true)
        × (format_recipient wt s ≡ jid_of (trim_plus s) wt.default_user_server))
      ⊎ ((user : String) × (server : String) × (trim_plus s ≡ user ++ ("@" ++ server))
          × (is_jid_user user ≡ true)
          × (server ≢ "")
          × (has_at server ≡ false)
          × (format_recipient wt s ≡ elim (wt.parse_jid (trim_plus s)) [
            | none ↦ jid_of (trim_plus s) wt.default_user_server
            | some jid ↦ jid
          ]))
unfolding format_recipient phone
recipient_routable wt s h = elim (recipient_cases s h) [
  | inl (whole, valid) ↦ inl (valid, rw (has_at-trim_plus s (has_at-cut_at s whole)))
  | inr (user, server, found, digits, nonempty, single) ↦
      let (text, at) =
        cut_at_lem (trim_plus s) (trim_plus user) server (cut_at-trim_plus s user server found) in
      inr (trim_plus user, server, text, digits, nonempty, single, rw at)
]
