-- ===== src/History/Chunks.antt =====
-- The chunks of one chat.
use mathlib.Core.List.{append_assoc}
use wsapi_app.Common.{
  ℕ, suc, ◌+◌, ◌≤◌, ◌<◌, ◌≡◌, refl, ap, ◌∙◌, false, String, ◌==◌, List, [], ◌∷◌, ◌++◌, length,
  contains, All, leb, eqb, arith, length-append, if◌then◌else◌, Bool-cases, inl, inr, eq_iff,
}
use wsapi_app.Event.Types.{MessageEvent}
use wsapi_app.History.{chunk_messages}

-- The first message of each ID, in order, but for the IDs seen before.
pub first_of_each : List String → List MessageEvent → List MessageEvent
first_of_each seen [] = []
first_of_each seen (msg ∷ msgs) =
    let skip = first_of_each seen msgs in
    let later = first_of_each (msg.id ∷ seen) msgs in
    if contains msg.id seen then skip else msg ∷ later

abbrev pub concat : List (List MessageEvent) → List MessageEvent
concat [] = []
concat (chunk ∷ chunks) = chunk ++ concat chunks

abbrev pub IsChunk : List MessageEvent → Type 0
IsChunk chunk = (1 ≤ length chunk) × (length chunk ≤ 500)

nonempty : (m : MessageEvent) (buffer : List MessageEvent) → eqb (length (m ∷ buffer)) 0 ≡ false
nonempty m buffer = ground arith

concat-chunk_messages :
    (seen : List String) (buffer msgs : List MessageEvent)
    → concat (chunk_messages seen buffer msgs) ≡ buffer ++ first_of_each seen msgs
unfolding chunk_messages first_of_each
concat-chunk_messages seen [] [] = refl
concat-chunk_messages seen (m ∷ buffer) [] = rw (nonempty m buffer)
concat-chunk_messages seen buffer (msg ∷ msgs) =
    let grown = buffer ++ (msg ∷ []) in
    elim (Bool-cases (contains msg.id seen)) [
      | inl e ↦ rw e (concat-chunk_messages seen buffer msgs)
      | inr e ↦ elim (Bool-cases (leb 500 (length grown))) [
        | inl full ↦ rw (e, full, concat-chunk_messages (msg.id ∷ seen) [] msgs, append_assoc)
        | inr room ↦ rw (e, room, concat-chunk_messages (msg.id ∷ seen) grown msgs, append_assoc)
      ]
    ]

sizes-chunk_messages :
    (seen : List String) (buffer msgs : List MessageEvent)
    → length buffer < 500
    → All IsChunk (chunk_messages seen buffer msgs)
unfolding chunk_messages
sizes-chunk_messages seen [] [] h = tt
sizes-chunk_messages seen (m ∷ buffer) [] h =
    rw (nonempty m buffer) ((omega arith, omega (arith, h)), tt)
sizes-chunk_messages seen buffer (msg ∷ msgs) h =
    let grown = buffer ++ (msg ∷ []) in
    let size : length grown ≡ length buffer + 1 = length-append buffer (msg ∷ []) in
    elim (Bool-cases (contains msg.id seen)) [
      | inl e ↦ rw e (sizes-chunk_messages seen buffer msgs h)
      | inr e ↦ elim (Bool-cases (leb 500 (length grown))) [
        | inl full ↦
            rw (e, full)
              (
                (omega (arith, size), omega (arith, size, h)),
                sizes-chunk_messages (msg.id ∷ seen) [] msgs (omega arith),
              )
        | inr room ↦
            rw (e, room) (sizes-chunk_messages (msg.id ∷ seen) grown msgs (ground (arith, size)))
      ]
    ]

-- The chunks of a chat together are its messages, in order, each message ID once, the first of
-- several messages with one ID being kept; no chunk is empty, and none has more than 500 messages.
pub chunks_lem :
    (msgs : List MessageEvent)
    → (concat (chunk_messages [] [] msgs) ≡ first_of_each [] msgs)
      × All IsChunk (chunk_messages [] [] msgs)
chunks_lem msgs = (concat-chunk_messages [] [] msgs, sizes-chunk_messages [] [] msgs (omega arith))

-- How often an ID occurs.
occurrences : String → List MessageEvent → ℕ
occurrences id [] = 0
occurrences id (msg ∷ msgs) =
    if msg.id == id then suc (occurrences id msgs) else occurrences id msgs

-- Of each ID that occurs, one message is kept if the ID is new, and none if it was seen.
occurrences_lem :
    (id : String) (seen : List String) (msgs : List MessageEvent)
    → occurrences id (first_of_each seen msgs)
      ≡ (if contains id seen then 0 else if eqb (occurrences id msgs) 0 then 0 else 1)
unfolding occurrences first_of_each
occurrences_lem id seen [] = ground arith
occurrences_lem id seen (msg ∷ msgs) =
    ground (
      arith,
      eq_iff msg.id id,
      occurrences_lem id seen msgs,
      occurrences_lem id (msg.id ∷ seen) msgs,
    )

-- Each message ID that a chat has is flushed in exactly one message, and no other.
flushed_once :
    (id : String) (msgs : List MessageEvent)
    → occurrences id (concat (chunk_messages [] [] msgs))
      ≡ (if eqb (occurrences id msgs) 0 then 0 else 1)
flushed_once id msgs =
    ap (occurrences id) (concat-chunk_messages [] [] msgs) ∙ occurrences_lem id [] msgs
