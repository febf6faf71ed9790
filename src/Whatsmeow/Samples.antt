-- ===== src/Whatsmeow/Samples.antt =====
-- A concrete instance of the parameters of Whatsmeow, for tests.
use Prim.Native.String.{◌++◌}
use wsapi_app.Common.{◌==◌, none, some, if◌then◌else◌, eq_iff, arith}
use wsapi_app.Whatsmeow.{jid_of, WaTypes, IsWaTypes}

abbrev pub sample_types : WaTypes
sample_types = record {
  default_user_server = "s.whatsapp.net";
  hidden_user_server = "lid";
  group_server = "g.us";
  broadcast_server = "broadcast";
  status_broadcast_jid = jid_of "status" "broadcast";
  to_string = λ j. j.user ++ ("@" ++ j.server);
  is_empty = λ j. j.server == "";
  parse_jid =
      λ s. if s == "234567@s.whatsapp.net" then some (jid_of "234567" "s.whatsapp.net") else none;
}

pub sample_types-IsWaTypes : IsWaTypes sample_types
sample_types-IsWaTypes = record {
  hidden-ne-default = ground (arith, eq_iff "lid" "s.whatsapp.net");
}
