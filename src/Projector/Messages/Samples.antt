-- ===== src/Projector/Messages/Samples.antt =====
-- A text for every list of bytes, a context of a projector and the report of a message, for tests.
use Prim.Native.Char.{code}
use Prim.Native.String.{[], ◌∷◌}
use wsapi_app.Common.{
  ℕ, zero, suc, ◌+◌, ◌≡◌, refl, ap, ◌∙◌, String, true, false, none, List, eqb, arith,
}
use wsapi_app.Whatsmeow.{jid_of, empty_jid}
use wsapi_app.Event.MediaId.Reader.{Bytes}
use wsapi_app.Projector.{ProjectorContext}
use wsapi_app.Projector.Messages.{MessageInfo}
use wsapi_app.Projector.Messages.Media.{Texts}

-- A byte is as many letters a as its value, and a letter b.
unfoldable pub spell : ℕ → String → String
spell zero s = "b" ∷ s
spell (suc n) s = "a" ∷ spell n s

unfoldable pub spelled : Bytes → String
spelled List.[] = ""
spelled (List.◌∷◌ n bs) = spell n (spelled bs)

unfoldable pub read_from : ℕ → String → Bytes
read_from n [] = List.[]
read_from n (c ∷ s) = elim (eqb (code c) b'a') [
  | true ↦ read_from (suc n) s
  | false ↦ List.◌∷◌ n (read_from 0 s)
]

abbrev pub sample_texts : Texts
sample_texts = record { bytes_of = read_from 0; text_of = spelled }

read_from-spell :
    (k n : ℕ) (s : String) → read_from k (spell n s) ≡ List.◌∷◌ (n + k) (read_from 0 s)
unfolding read_from spell
read_from-spell k zero s = ap (λ (i : ℕ). List.◌∷◌ i (read_from 0 s)) (omega arith)
read_from-spell k (suc n) s =
    read_from-spell (suc k) n s ∙ ap (λ (i : ℕ). List.◌∷◌ i (read_from 0 s)) (omega arith)

pub read_from-spelled : (bs : Bytes) → read_from 0 (spelled bs) ≡ bs
unfolding spelled read_from
read_from-spelled List.[] = refl
read_from-spelled (List.◌∷◌ n bs) =
    read_from-spell 0 n (spelled bs)
    ∙ ap (λ (i : ℕ). List.◌∷◌ i (read_from 0 (spelled bs))) (omega arith)
    ∙ ap (λ (r : Bytes). List.◌∷◌ n r) (read_from-spelled bs)

abbrev pub context : ProjectorContext
context = record { lids = none; own_id = none; own_lid = empty_jid; instance_id = "a" }

abbrev pub report : MessageInfo
report = record {
  id = "M1";
  type = "text";
  category = "";
  chat = jid_of "120" "g.us";
  sender = jid_of "234567" "s.whatsapp.net";
  sender_alt = empty_jid;
  is_from_me = false;
  is_group = true;
  timestamp = 9;
}
