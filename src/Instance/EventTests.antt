-- ===== src/Instance/EventTests.antt =====
-- The theorems about the event handler, at small sequences of events.
use wsapi_app.Common.{
  ◌≡◌, ◌≤◌, refl, true, false, none, some, List, [], ◌∷◌, length, map, keep, arith,
}
use wsapi_app.Event.Types.{Event, session_logged_out}
use wsapi_app.Event.Samples.{message_event}
use wsapi_app.Event.Dedup.{new_dedup}
use wsapi_app.Config.{InstanceConfig}
use wsapi_app.Instance.{Service, Answers, Manager, effective_config, publisher_for}
use wsapi_app.Instance.Samples.{config, no_config, fresh, answers}
use wsapi_app.Common.Dict.{lookup}
use wsapi_app.Store.Instances.{save_instance}
use wsapi_app.Instance.Lifecycle.{create_instance, create_new, register, update_instance_config}
use wsapi_app.Instance.Lifecycle.Handler.{updates, handler_misses_update}
use wsapi_app.Instance.AppState.{Attempts, failed, on_sync, sync_failed, requests}
use wsapi_app.Instance.AppState.Cooldown.{is_for, recovery_cooldown}
use wsapi_app.Instance.Pipeline.{Input, arrives, cleans, delivered, handled_by}
use wsapi_app.Instance.Pipeline.Delivery.{is_message, message_at_most_once}

abbrev one : Manager
one = (create_instance (answers true) "a" config fresh).1

abbrev unattempted : Attempts
unattempted = record { full_sync = λ n. none; recovery = λ n. none }

recovery_cooldown_example :
    keep (is_for "regular") (
      requests
        (on_sync unattempted (failed 100 "regular" true)).1
        (failed 200 "regular" false ∷ failed 300 "regular" true ∷ []))
    ≡ []
unfolding on_sync sync_failed
recovery_cooldown_example =
    recovery_cooldown unattempted 100 "regular" true
      (failed 200 "regular" false ∷ failed 300 "regular" true ∷ []) refl
      (omega arith, (omega arith, tt))

abbrev logout : Event
logout = record {
  event_id = "ev_1";
  instance_id = "a";
  event_type = "logged_out";
  received_at = 100;
  event_data = session_logged_out (record { reason = "test" });
}

abbrev inputs : List Input
inputs =
    arrives (message_event "m") 100
    ∷ arrives logout 120
    ∷ cleans 150
    ∷ arrives (message_event "m") 200
    ∷ []

message_at_most_once_example :
    length (keep (is_message "m") (delivered [] (new_dedup 50) inputs)) ≤ 1
unfolding new_dedup
message_at_most_once_example =
    message_at_most_once [] (new_dedup 50) inputs "m" 100
      (omega arith, (omega arith, (omega arith, (omega arith, tt))))

abbrev twice : List (Answers × InstanceConfig)
twice = (answers false, config) ∷ (answers true, config) ∷ []

-- The instance is created with filters, and updated twice.
handler_misses_update_example :
    let made = (create_instance (answers true) "a" config fresh).1 in
    let inst =
      (update_instance_config (answers true) "a" no_config (updates "a" twice made)).1.objects 0 in
    let old = effective_config fresh.defaults config in
    let new = effective_config fresh.defaults no_config in
    (inst.config ≡ new)
    × (inst.publisher ≡ some (publisher_for fresh.factory "a" new))
    × ((s : Service) × (inst.service ≡ some s)
        × (handled_by s (new_dedup 50) inputs
            ≡ map
                (λ evt. (some (publisher_for fresh.factory "a" old), evt))
                (delivered old.event_filters (new_dedup 50) inputs)))
unfolding create_instance create_new save_instance register lookup
handler_misses_update_example =
    handler_misses_update (answers true) (answers true) "a" config no_config fresh twice
      (new_dedup 50) inputs refl refl
