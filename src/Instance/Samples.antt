-- ===== src/Instance/Samples.antt =====
-- A configuration, an empty manager and the answers of a working environment, for tests.
use wsapi_app.Common.{Bool, true, false, none, some, [], ◌∷◌}
use wsapi_app.Config.{InstanceConfig}
use wsapi_app.Instance.{Instance, Manager, Answers}

abbrev pub config : InstanceConfig
config = record {
  api_key = "key";
  webhook_url = "https://example.org/hook";
  signing_secret = "secret";
  event_filters = "message" ∷ "logged_out" ∷ [];
  history_sync = none;
  publish_events = some true;
}

abbrev pub no_config : InstanceConfig
no_config = record {
  api_key = "";
  webhook_url = "";
  signing_secret = "";
  event_filters = [];
  history_sync = some false;
  publish_events = none;
}

abbrev nothing : Instance
nothing = record {
  id = "";
  config = no_config;
  service = none;
  publisher = none;
  has_dedup = false;
  deleting = false;
}

abbrev pub fresh : Manager
fresh = record {
  instances = [];
  objects = λ p. nothing;
  next = 0;
  has_store = true;
  rows = [];
  defaults = no_config;
  factory = record { events_publish_via = "webhook"; redis = none };
  log = [];
}

abbrev pub answers : Bool → Answers
answers db_ok = record {
  now = 100;
  event_id = "ev_1";
  db_ok = db_ok;
  service_ok = true;
  is_logged_in = true;
  logout_ok = true;
  device_jid = "234567:1@s.whatsapp.net";
}
