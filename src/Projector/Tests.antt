-- ===== src/Projector/Tests.antt =====
-- The theorems about projectors at a user with the phone 234567 and the LID 99.
use wsapi_app.Common.{◌≡◌, refl, String, some, arith, eq_iff}
use wsapi_app.Whatsmeow.{jid_of, empty_jid, LidStore}
use wsapi_app.Whatsmeow.Samples.{sample_types, sample_types-IsWaTypes}
use wsapi_app.Identity.{resolve}
use wsapi_app.Event.Types.{Event, new_event, session_logged_out}
use wsapi_app.Event.Samples.{codec}
use wsapi_app.Projector.{project_chat_id}
use wsapi_app.Projector.Messages.Samples.{sample_texts, context}
use wsapi_app.Projector.Sessions.{project_logged_out}
use wsapi_app.Projector.Dispatch.{device_logged_out, project_event, envelope, project_all}
use wsapi_app.Projector.TypeOf.{type_of}
use wsapi_app.Projector.Typed.{projected_is_typed}
use wsapi_app.Projector.ChatIds.{Prints, chat_id_is_identity}

abbrev logout : Event
logout = record {
  event_id = "ev_1";
  instance_id = "a";
  event_type = "logged_out";
  received_at = 100;
  event_data = session_logged_out (record { reason = "test" });
}

projected_is_typed_example :
    (◌≡◌ {A = String} "logged_out" (type_of (session_logged_out (record { reason = "test" }))))
    × (◌≡◌ {A = String} "a" "a")
unfolding project_all project_event project_logged_out envelope new_event
projected_is_typed_example =
    projected_is_typed sample_types sample_texts codec (λ n. "") "ev_1" 100
      (device_logged_out "test") context logout refl

abbrev lids : LidStore
lids = record {
  get_pn_for_lid = λ j. some (jid_of "234567" "s.whatsapp.net");
  get_lid_for_pn = λ j. some (jid_of "99" "lid");
}

sample_types-Prints : Prints sample_types
sample_types-Prints user server h = refl

chat_id_is_identity_example :
    (project_chat_id sample_types (jid_of "99" "s.whatsapp.net") (some lids)
      ≡ (resolve sample_types (jid_of "99" "s.whatsapp.net") empty_jid (some lids)).id)
    × (project_chat_id sample_types (jid_of "99" "lid") (some lids)
        ≡ (resolve sample_types (jid_of "99" "lid") empty_jid (some lids)).id)
chat_id_is_identity_example =
    chat_id_is_identity sample_types "99" (some lids) sample_types-IsWaTypes sample_types-Prints
      (ground (arith, eq_iff "99" ""))
