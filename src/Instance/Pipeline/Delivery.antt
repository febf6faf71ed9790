-- ===== src/Instance/Pipeline/Delivery.antt =====
-- Which events reach the publisher.
use wsapi_app.Common.{
  ℕ, ◌+◌, ◌∙◌, All, ◌≤◌, ◌≡◌, refl, Bool, true, false, not, ◌&&◌, ◌||◌, String, ◌==◌, Option, none,
  some, List, [], ◌∷◌, length, keep, contains, arith, eqb, eq_iff, Bool-cases, inl, inr,
}
use wsapi_app.Event.Types.{Event, Time}
use wsapi_app.Event.Constants.{is_system_event}
use wsapi_app.Event.Dedup.{Dedup, update, tick}
use wsapi_app.Event.Dedup
use wsapi_app.Instance.Pipeline.{
  passes_filters, message_id, discard_duplicate, admit, Input, arrives, cleans, delivered,
}

-- A system event that is not a message reaches the publisher whatever the filters are and whatever
-- was seen before, and leaves the deduplication set as it was; and an event of another type that
-- non-empty filters do not name never reaches it.
admit_lem :
    (filters : List String) (evt : Event) (now : Time) (d : Dedup)
    → message_id evt.event_data ≡ none
    → admit filters evt now d ≡ (
      is_system_event evt.event_type || (eqb (length filters) 0 || contains evt.event_type filters),
      d,
    )
unfolding admit passes_filters discard_duplicate
admit_lem filters evt now d h = ground arith

abbrev pub is_id : String → Option String → Bool
is_id id none = false
is_id id (some i) = i == id

-- An event that is a message with the ID.
abbrev pub is_message : String → Event → Bool
is_message id evt = is_id id (message_id evt.event_data)

module _ (now : Time) (d : Dedup) (id : String) where
  seen-discard :
      (o : Option String) (t : Time)
      → d.entries id ≡ some t
      → ((discard_duplicate o now d).1.entries id ≡ some t)
        × ((is_id id o && not (discard_duplicate o now d).0) ≡ false)
  unfolding discard_duplicate Dedup.contains
  seen-discard none t h = (h, refl)
  seen-discard (some i) t h = ground (arith, eq_iff i id)

  new-discard :
      (o : Option String)
      → is_id id o ≡ true
      → (discard_duplicate o now d).0 ≡ false
      → (discard_duplicate o now d).1.entries id ≡ some now
  unfolding discard_duplicate Dedup.contains
  new-discard none m h = absurd (ground arith)
  new-discard (some i) m h = ground (arith, eq_iff i id)

-- A recorded ID stays recorded, and its messages are not admitted.
seen-admit :
    (filters : List String) (evt : Event) (now : Time) (d : Dedup) (id : String) (t : Time)
    → d.entries id ≡ some t
    → ((admit filters evt now d).1.entries id ≡ some t)
      × ((is_message id evt && (admit filters evt now d).0) ≡ false)
unfolding admit
seen-admit filters evt now d id t h =
    ground (arith, seen-discard now d id (message_id evt.event_data) t h)

-- A message that is admitted is recorded.
admitted-entry :
    (filters : List String) (evt : Event) (now : Time) (d : Dedup) (id : String)
    → is_message id evt ≡ true
    → (admit filters evt now d).0 ≡ true
    → (admit filters evt now d).1.entries id ≡ some now
unfolding admit
admitted-entry filters evt now d id m h =
    ground (arith, new-discard now d id (message_id evt.event_data) m)

ttl-discard_duplicate :
    (o : Option String) (now : Time) (d : Dedup) → (discard_duplicate o now d).1.ttl ≡ d.ttl
unfolding discard_duplicate Dedup.contains
ttl-discard_duplicate none now d = refl
ttl-discard_duplicate (some id) now d = ground arith

ttl-tick : (d : Dedup) (now : Time) → (tick d now).ttl ≡ d.ttl
unfolding tick
ttl-tick d now = refl

-- The ticks come at or before `from + ttl`, and the events at or after `from`.
abbrev pub IsWithin : Time → ℕ → Input → Type 0
IsWithin from ttl (arrives evt now) = from ≤ now
IsWithin from ttl (cleans now) = now ≤ from + ttl

ttl-admit :
    (filters : List String) (evt : Event) (now : Time) (d : Dedup)
    → (admit filters evt now d).1.ttl ≡ d.ttl
unfolding admit
ttl-admit filters evt now d =
    ground (arith, ttl-discard_duplicate (message_id evt.event_data) now d)

tick-entry :
    (d : Dedup) (id : String) (t now : Time)
    → d.entries id ≡ some t
    → now ≤ t + d.ttl
    → (tick d now).entries id ≡ some t
unfolding tick
tick-entry d id t now h b = rw h (ground arith)

seen-delivered :
    (filters : List String) (d : Dedup) (inputs : List Input) (id : String) (from t : Time)
    (ttl : ℕ)
    → d.ttl ≡ ttl
    → d.entries id ≡ some t
    → from ≤ t
    → All (IsWithin from ttl) inputs
    → keep (is_message id) (delivered filters d inputs) ≡ []
unfolding delivered
seen-delivered filters d [] id from t ttl e h old w = refl
seen-delivered filters d (cleans now ∷ rest) id from t ttl e h old w =
    let limit : now ≤ t + d.ttl = omega (arith, e, w.0) in
    seen-delivered filters (tick d now) rest id from t ttl (ttl-tick d now ∙ e)
      (tick-entry d id t now h limit) old w.1
seen-delivered filters d (arrives evt now ∷ rest) id from t ttl e h old w =
    let (still, dropped) = seen-admit filters evt now d id t h in
    let later =
      seen-delivered filters (admit filters evt now d).1 rest id from t ttl
        (ttl-admit filters evt now d ∙ e) still old w.1 in
    ground arith

once_lem :
    (filters : List String) (d : Dedup) (inputs : List Input) (id : String) (from : Time) (ttl : ℕ)
    → d.ttl ≡ ttl
    → All (IsWithin from ttl) inputs
    → length (keep (is_message id) (delivered filters d inputs)) ≤ 1
unfolding delivered
once_lem filters d [] id from ttl e w = omega arith
once_lem filters d (cleans now ∷ rest) id from ttl e w =
    once_lem filters (tick d now) rest id from ttl (ttl-tick d now ∙ e) w.1
once_lem filters d (arrives evt now ∷ rest) id from ttl e w =
    let d' = (admit filters evt now d).1 in
    let same = ttl-admit filters evt now d ∙ e in
    let later = once_lem filters d' rest id from ttl same w.1 in
    elim (Bool-cases (is_message id evt && (admit filters evt now d).0)) [
      | inl h ↦
          let none_later =
            seen-delivered filters d' rest id from now ttl same
              (admitted-entry filters evt now d id (ground arith) (ground arith)) w.0 w.1 in
          ground arith
      | inr h ↦ ground arith
    ]

-- However often a message arrives, and among whatever other events and ticks of the cleaning loop: in
-- a stretch of time in which no tick comes later than the TTL after the start of the stretch, the
-- message reaches the publisher at most once.
pub message_at_most_once :
    (filters : List String) (d : Dedup) (inputs : List Input) (id : String) (from : Time)
    → All (IsWithin from d.ttl) inputs
    → length (keep (is_message id) (delivered filters d inputs)) ≤ 1
message_at_most_once filters d inputs id from w = once_lem filters d inputs id from d.ttl refl w
