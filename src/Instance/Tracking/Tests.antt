-- ===== src/Instance/Tracking/Tests.antt =====
-- The chats recorded at a history sync and a message.
use wsapi_app.Common.{◌≡◌, true, String, Option, none, some, List, [], ◌∷◌, Bool, ok}
use wsapi_app.Whatsmeow.{Jid, jid_of}
use wsapi_app.Whatsmeow.Samples.{sample_types}
use wsapi_app.Whatsmeow.Proto.{SyncType}
use wsapi_app.Store.Chats.{ChatRow, get}
use wsapi_app.Instance.Tracking.{WaEvent, carries_chats, resolve_lid, skip_chat}
use wsapi_app.Instance.Tracking.Recorded.{track_all}
use wsapi_app.Instance.Tracking.Refines.{observe, chats_refine_observations}

-- A sync with a LID that resolves and one ID that is no JID, and a later message in a group.
abbrev events : List (Bool × String × WaEvent)
events =
    (
      true,
      "me",
      WaEvent.history_sync (some SyncType.recent) (
          (true, some (record { id = "234567@s.whatsapp.net"; timestamp = 7 }))
          ∷ (true, none)
          ∷ (true, some (record { id = "?"; timestamp = 7 }))
          ∷ []),
    )
    ∷ (true, "me", WaEvent.message (jid_of "120" "g.us") 9)
    ∷ (true, "me", WaEvent.message (jid_of "status" "broadcast") 9)
    ∷ []

abbrev group_row : ChatRow
group_row = record { is_group = true; last_activity = some 9 }

abbrev resolve_all : Jid → Option Jid
resolve_all jid = some (jid_of "234567" "s.whatsapp.net")

chats_refine_observations_example :
    get true "me" "120@g.us" (track_all sample_types resolve_all events ([], [])).0
    ≡ ok (record { our_jid = "me"; chat_jid = "120@g.us"; is_group = true; last_activity = 9 })
unfolding observe skip_chat resolve_lid carries_chats
chats_refine_observations_example =
    chats_refine_observations sample_types resolve_all "me" "120@g.us" events
