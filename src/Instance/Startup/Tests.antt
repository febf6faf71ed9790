-- ===== src/Instance/Startup/Tests.antt =====
-- A start of the service after one instance was created.
use wsapi_app.Common.{ℕ, ◌≡◌, refl, true, none, some, [], ◌∷◌, arith, eq_iff}
use wsapi_app.Common.Dict.{lookup}
use wsapi_app.Event.Constants.{strip_system_events, is_system_event}
use wsapi_app.Text.{is_space}
use wsapi_app.Store.Instances.{Row, save_instance}
use wsapi_app.Store.Instances.RoundTrip.{IsFilter}
use wsapi_app.Instance.{Manager, get_instance, apply_defaults, effective_config}
use wsapi_app.Instance.Samples.{config, no_config, fresh, answers}
use wsapi_app.Instance.Lifecycle.{create_new, create_instance}
use wsapi_app.Instance.Startup.{restore_instances}
use wsapi_app.Instance.Startup.Restart.{completed_again, create-restore}

abbrev row : Row
row = record {
  device_id = "7@s.whatsapp.net";
  api_key = "key";
  webhook_url = "";
  signing_secret = "";
  event_filters = "message";
  history_sync = none;
  publish_events = none;
  created_at = 1;
  updated_at = 1;
  logged_in_at = some 1;
  logged_out_at = none;
}

abbrev stored : Manager
stored = record fresh { rows = ("a", row) ∷ [] }

message-IsFilter : IsFilter "message"
unfolding is_space
message-IsFilter = record {
  not_empty = ground (arith, eq_iff "message" "");
  no_comma = (refl, (refl, (refl, (refl, (refl, (refl, (refl, tt)))))));
  no_space = (refl, (refl, (refl, (refl, (refl, (refl, (refl, tt)))))));
}

abbrev started : Manager
started = record fresh { rows = (create_instance (answers true) "a" config fresh).1.rows }

create-restore_example :
    let m' = (restore_instances true (λ _. answers true) started).1 in
    (p : ℕ) × (get_instance m' "a" ≡ some p)
    × ((m'.objects p).config ≡ completed_again no_config (effective_config no_config config))
unfolding create_instance create_new save_instance lookup effective_config apply_defaults
    strip_system_events is_system_event
create-restore_example =
    create-restore (answers true) "a" config fresh started refl tt (message-IsFilter, tt)
      (λ _. answers true) refl refl refl
