-- ===== src/Instance/Login/Tests.antt =====
-- A login after a logout that was not written, and a start of the process.
use wsapi_app.Common.{ℕ, ◌≡◌, refl, true, false, none, some, List, [], ◌∷◌}
use wsapi_app.Common.Dict.{lookup}
use wsapi_app.Publisher.{Publisher}
use wsapi_app.Store.Instances.{Row}
use wsapi_app.Instance.{Service, Manager, Answers, get_instance, publisher_for}
use wsapi_app.Instance.Samples.{config, fresh, answers}
use wsapi_app.Instance.Startup.{restore_instances}
use wsapi_app.Instance.Login.{LoginEvent, pair_success, logged_out, on_login_event}
use wsapi_app.Instance.Login.Device.{on_login_events, restored_device}

abbrev row : Row
row = record {
  device_id = "";
  api_key = "key";
  webhook_url = "";
  signing_secret = "";
  event_filters = "message";
  history_sync = none;
  publish_events = none;
  created_at = 1;
  updated_at = 1;
  logged_in_at = none;
  logged_out_at = none;
}

abbrev before : Manager
before = record fresh { rows = ("a", row) ∷ [] }

abbrev webhook : Publisher
webhook = publisher_for fresh.factory "a" config

abbrev earlier : List (Answers × Publisher × LoginEvent)
earlier = (answers false, webhook, logged_out "401") ∷ []

abbrev started : Manager
started = record fresh {
  rows =
      (on_login_event (answers true) "a" webhook (pair_success "7@s.whatsapp.net")
        (on_login_events "a" earlier before)).rows;
}

restored_device_example :
    let m' = (restore_instances true (λ _. answers true) started).1 in
    (p : ℕ) × (get_instance m' "a" ≡ some p)
    × ((s : Service) × ((m'.objects p).service ≡ some s) × (s.device_id ≡ "7@s.whatsapp.net"))
unfolding lookup
restored_device_example =
    restored_device "a" before started earlier (answers true) webhook
      (pair_success "7@s.whatsapp.net") (λ _. answers true) (row, refl, (refl, tt), refl) refl refl
      refl
