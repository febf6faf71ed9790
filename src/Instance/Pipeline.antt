-- ===== src/Instance/Pipeline.antt =====
-- internal/instance/manager.go: the last part of the event handler of `initService`, from the
-- projected event to the publisher. The filters are those of the configuration that it captured.
pub mod Delivery
use wsapi_app.Common.{
  ℕ, Bool, true, false, not, ◌&&◌, ◌||◌, String, ◌==◌, Option, none, some, List, [], ◌∷◌, length,
  map, contains, eqb, if◌then◌else◌,
}
use wsapi_app.Event.Types.{Event, EventData, MessageEvent, Time, message}
use wsapi_app.Event.Constants.{is_system_event}
use wsapi_app.Event.Dedup.{Dedup, tick}
use wsapi_app.Event.Dedup
use wsapi_app.Publisher.{Publisher}
use wsapi_app.Instance.{Service}

-- The test of `cfg.EventFilters`, and its loop.
unfoldable pub passes_filters : List String → Event → Bool
passes_filters filters evt =
    if not (eqb (length filters) 0) && not (is_system_event evt.event_type)
    then contains evt.event_type filters
    else true

-- `projected.Data.(event.MessageEvent)`: the ID of a message.
abbrev pub message_id : EventData → Option String
message_id (message msg) = some msg.id
message_id _ = none

-- `dedup.Contains(msg.ID)` for a message; other events are no duplicates.
unfoldable pub discard_duplicate : Option String → Time → Dedup → Bool × Dedup
discard_duplicate none now d = (false, d)
discard_duplicate (some id) now d = Dedup.contains d id now

-- Whether the projected event is handed to the publisher.
unfoldable pub admit : List String → Event → Time → Dedup → Bool × Dedup
admit filters evt now d =
    if not (passes_filters filters evt)
    then (false, d)
    else let (duplicate, d') = discard_duplicate (message_id evt.event_data) now d in
      (not duplicate, d')

-- What happens to the handler: a projected event at the time of its handling, or a tick of the loop that
-- cleans its deduplication set.
pub data Input : Type 0 where
  arrives : Event → Time → Input
  cleans : Time → Input

-- The events that reach the publisher, in order.
unfoldable pub delivered : List String → Dedup → List Input → List Event
delivered filters d [] = []
delivered filters d (cleans now ∷ rest) = delivered filters (tick d now) rest
delivered filters d (arrives evt now ∷ rest) =
    let (admitted, d') = admit filters evt now d in
    let later = delivered filters d' rest in if admitted then evt ∷ later else later

-- The events that the handler of a service hands over, each with the publisher that it goes to: the
-- publisher and the configuration are those that `initService` captured.
unfoldable pub handled_by : Service → Dedup → List Input → List (Option Publisher × Event)
handled_by s d inputs =
    map (λ evt. (s.handler_publisher, evt)) (delivered s.handler_config.event_filters d inputs)
