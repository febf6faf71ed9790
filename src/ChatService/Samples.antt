-- ===== src/ChatService/Samples.antt =====
-- A paired device with three chats, and a client on which every call succeeds.
use wsapi_app.Common.{none, some, [], ◌∷◌, true, false, ok}
use wsapi_app.Whatsmeow.{jid_of}
use wsapi_app.Store.Chats.{ChatTable}
use wsapi_app.ChatService.{DeviceStore, ContactInfo}
use wsapi_app.ChatService.Actions.{Client}

abbrev pub ann : ContactInfo
ann = record { found = true; push_name = "Ann"; business_name = ""; full_name = "Ann B." }

abbrev pub store : DeviceStore
store = record {
  id = some (jid_of "1" "s.whatsapp.net");
  all_contacts = λ jid. some ann;
  contact = λ jid. some ann;
  chat_settings =
      λ jid. some (record { found = true; muted_until = 90; pinned = true; archived = false });
  lids =
      some
        (record { get_pn_for_lid = λ jid. none; get_lid_for_pn = λ jid. some (jid_of "77" "lid") });
  rfc3339 = λ t. "a time";
}

abbrev pub rows : ChatTable
rows =
    (
      "1@s.whatsapp.net",
      ("x@g.us", record { is_group = true; last_activity = none })
          ∷ ("234567@s.whatsapp.net", record { is_group = false; last_activity = some 5 })
          ∷ ("y@g.us", record { is_group = true; last_activity = some 9 })
          ∷ [],
    )
    ∷ []

abbrev pub client : Client
client = record {
  profile_picture = λ jid. ok (record { picture_id = "1"; picture_url = "u" });
  perform = λ c. none;
  own_user = some "1";
  index_mark_chat_as_read = "markChatAsRead";
  index_delete_chat = "deleteChat";
  index_clear_chat = "clearChat";
}
