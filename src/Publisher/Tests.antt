-- ===== src/Publisher/Tests.antt =====
-- The theorems about publishers at two events, with a network that answers 204.
use Prim.Native.String.{◌++◌}
use wsapi_app.Common.{◌≡◌, refl, true, String, none, some, length}
use wsapi_app.Event.Types.{Event, initial_sync_finished}
use wsapi_app.Event.Constants.{is_system_event}
use wsapi_app.Publisher.{
  webhook, system_events_only, World, Factory, publish, webhook_publish, check_status,
}
use wsapi_app.Publisher.Sending.{system_event_sent}

abbrev world : World
world = record {
  marshal = λ e. some ("{" ++ e.event_type ++ "}");
  marshal_data = λ d. some "{}";
  format_time = λ t. "now";
  hmac_hex = λ b s. s;
  is_valid_request = λ u. true;
  respond = λ r. some 204;
  xadd_ok = λ s v. true;
}

abbrev event_of : String → Event
event_of event_type = record {
  event_id = "ev_1";
  instance_id = "a";
  event_type = event_type;
  received_at = 100;
  event_data = initial_sync_finished (record {});
}

abbrev factory : Factory
factory = record { events_publish_via = "webhook"; redis = none }

system_event_sent_example :
    length (publish world (system_events_only (webhook "a" "u" "s")) (event_of "logged_out")).sent
    ≡ 1
unfolding publish webhook_publish check_status is_system_event
system_event_sent_example =
    system_event_sent world (system_events_only (webhook "a" "u" "s")) (event_of "logged_out") tt
      refl refl
