-- ===== src/ChatService/Tests.antt =====
-- The chats of the sample device, and operations on one of them.
use mathlib.Core.List.{Memᴰ}
use wsapi_app.Common.{◌≡◌, refl, some, List, [], ◌∷◌, true, false, ok}
use wsapi_app.Common.Dict.{lookup}
use wsapi_app.Whatsmeow.Samples.{sample_types}
use wsapi_app.Store.Chats.{ChatRecord, chats_of, find_chat, scan, get}
use wsapi_app.Store.Chats.Listing.{is_before, insert_row, by_activity, scan_all, list}
use wsapi_app.Store.Chats.Ordered.{IsLatestFirst, listed-IsLatestFirst}
use wsapi_app.Jid.{parse_jid}
use wsapi_app.Validate.{has_at}
use wsapi_app.ChatService.{
  ChatListItem, set_contact, found_contact, get_our_jid, get_chat_settings, set_lid, set_settings,
  set_activity, info_item, get_chat_info, list_chats,
}
use wsapi_app.ChatService.Atomic.{mute_for, run, IsAtomic, operation-IsAtomic}
use wsapi_app.ChatService.Listed.{known_is_listed}
use wsapi_app.ChatService.Samples.{store, rows, client}

abbrev recs : List ChatRecord
recs =
    record { our_jid = "1@s.whatsapp.net"; chat_jid = "y@g.us"; is_group = true; last_activity = 9 }
    ∷ record {
      our_jid = "1@s.whatsapp.net";
      chat_jid = "234567@s.whatsapp.net";
      is_group = false;
      last_activity = 5;
    }
    ∷ record {
      our_jid = "1@s.whatsapp.net";
      chat_jid = "x@g.us";
      is_group = true;
      last_activity = 0;
    }
    ∷ []

listed-IsLatestFirst_example : IsLatestFirst recs
unfolding list scan_all scan by_activity insert_row is_before chats_of lookup
listed-IsLatestFirst_example = listed-IsLatestFirst "1@s.whatsapp.net" rows recs refl

abbrev muted_chat : ChatListItem
muted_chat = record {
  id = "234567@s.whatsapp.net";
  lid = "77@lid";
  is_group = false;
  is_archived = false;
  is_pinned = true;
  is_muted = true;
  mute_end_time = some "a time";
  push_name = "Ann";
  business_name = "";
  full_name = "Ann B.";
  last_activity = some "a time";
}

known_is_listed_example :
    (items : List ChatListItem) × (list_chats sample_types store true 60 rows ≡ ok items)
    × Memᴰ muted_chat items
unfolding get_chat_info get_our_jid get find_chat chats_of lookup scan info_item parse_jid has_at
    set_contact found_contact set_lid set_settings get_chat_settings set_activity
known_is_listed_example =
    known_is_listed sample_types store (λ jid. refl) 60 "234567@s.whatsapp.net" rows muted_chat refl

operation-IsAtomic_example :
    IsAtomic sample_types client 60 "234567@s.whatsapp.net"
      (run sample_types client 60 "234567@s.whatsapp.net" (mute_for "8h"))
operation-IsAtomic_example =
    operation-IsAtomic sample_types client 60 "234567@s.whatsapp.net" (mute_for "8h")
