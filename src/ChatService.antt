-- ===== src/ChatService.antt =====
-- internal/whatsapp/chat.go: the service for chats. This file has the chats that the API shows, from
-- the table of chats and what the store of the WhatsApp client knows of them.
use wsapi_app.Common.{
  ℕ, Bool, true, false, not, ◌&&◌, String, ◌==◌, Option, none, some, List, [], ◌∷◌, ltb,
  if◌then◌else◌, Result, ok, err,
}
pub mod Actions
pub mod Atomic
pub mod Business
pub mod Listed
pub mod Samples
mod Tests
use Prim.Native.String.{◌++◌}
use wsapi_app.Whatsmeow.{Jid, empty_jid, WaTypes, LidStore}
use wsapi_app.Event.Types.{Time, is_zero}
use wsapi_app.Store.Chats.{ChatRecord, ChatTable, ChatStoreError, get}
use wsapi_app.Store.Chats.Listing.{list}
use wsapi_app.Jid.{JidError, parse_jid}

-- `ChatListItem`
pub record ChatListItem : Type 0 where
  pub id : String
  pub lid : String
  pub is_group : Bool
  pub is_archived : Bool
  pub is_pinned : Bool
  pub is_muted : Bool
  pub mute_end_time : Option String
  pub push_name : String
  pub business_name : String
  pub full_name : String
  pub last_activity : Option String

-- `types.ContactInfo` and `types.LocalChatSettings`, as far as they are read.
pub record ContactInfo : Type 0 where
  pub found : Bool
  pub push_name : String
  pub business_name : String
  pub full_name : String

pub record LocalChatSettings : Type 0 where
  pub found : Bool
  pub muted_until : Time
  pub pinned : Bool
  pub archived : Bool

-- `client.Store`, and `Format` of a time in UTC; `none` is an error. `all_contacts` reads the map that
-- `GetAllContacts` returns, also beside an error, which is only logged.
pub record DeviceStore : Type 0 where
  pub id : Option Jid
  pub all_contacts : Jid → Option ContactInfo
  pub contact : Jid → Option ContactInfo
  pub chat_settings : Jid → Option LocalChatSettings
  pub lids : Option LidStore
  pub rfc3339 : Time → String

pub data ChatError : Type 0 where
  not_paired : ChatError
  list_failed not_found : ChatStoreError → ChatError

-- `ChatListItem{ID: rec.ChatJID, IsGroup: rec.IsGroup}`
abbrev pub plain_item : ChatRecord → ChatListItem
plain_item rec = record {
  id = rec.chat_jid;
  lid = "";
  is_group = rec.is_group;
  is_archived = false;
  is_pinned = false;
  is_muted = false;
  mute_end_time = none;
  push_name = "";
  business_name = "";
  full_name = "";
  last_activity = none;
}

-- The names of a contact, if there is one.
unfoldable pub set_contact : Option ContactInfo → ChatListItem → ChatListItem
set_contact none item = item
set_contact (some contact) item = record item {
  push_name = contact.push_name;
  business_name = contact.business_name;
  full_name = contact.full_name;
}

-- The contact that `GetContact` finds.
unfoldable pub found_contact : Option ContactInfo → Option ContactInfo
found_contact none = none
found_contact (some contact) = if contact.found then some contact else none

-- A JID beside an ignored error.
abbrev jid_or_empty : Option Jid → Jid
jid_or_empty none = empty_jid
jid_or_empty (some jid) = jid

module _ (wt : WaTypes) (store : DeviceStore) where
  -- `getOurJID`
  unfoldable pub get_our_jid : String
  get_our_jid = elim store.id [ none ↦ "" | some jid ↦ wt.to_string jid ]

  -- The alternate identifier of a JID.
  unfoldable pub alternate : LidStore → Jid → Jid
  alternate lids jid =
      if jid.server == wt.default_user_server
      then jid_or_empty (lids.get_lid_for_pn jid)
      else if jid.server == wt.hidden_user_server
      then jid_or_empty (lids.get_pn_for_lid jid)
      else empty_jid

  -- `getChatSettings`
  unfoldable pub get_chat_settings : Jid → Option LocalChatSettings
  get_chat_settings jid = elim (store.chat_settings jid) [
    | none ↦ none
    | some settings ↦ if settings.found then some settings else elim store.lids [
      | none ↦ some settings
      | some lids ↦
          let alt = alternate lids jid in
          if not (alt.user == "") then store.chat_settings alt else some settings
    ]
  ]

  -- The LID of a phone number.
  unfoldable pub set_lid : Jid → ChatListItem → ChatListItem
  set_lid jid item = elim store.lids [
    | none ↦ item
    | some lids ↦
        if jid.server == wt.default_user_server
        then elim (lids.get_lid_for_pn jid) [
          | none ↦ item
          | some l ↦
              if not (l.user == "")
              then record item { lid = l.user ++ "@" ++ wt.hidden_user_server }
              else item
        ]
        else item
  ]

  -- The settings of the chat, if they are found, at the time `now`.
  unfoldable pub set_settings : Time → Jid → ChatListItem → ChatListItem
  set_settings now jid item = elim (get_chat_settings jid) [
    | none ↦ item
    | some settings ↦
        if settings.found
        then (let is_muted = not (is_zero settings.muted_until) && ltb now settings.muted_until in
            record item {
              is_pinned = settings.pinned;
              is_archived = settings.archived;
              is_muted = is_muted;
              mute_end_time =
                  if is_muted
                  then some (store.rfc3339 settings.muted_until)
                  else item.mute_end_time;
            })
        else item
  ]

  unfoldable pub set_activity : ChatRecord → ChatListItem → ChatListItem
  set_activity rec item =
      if not (is_zero rec.last_activity)
      then record item { last_activity = some (store.rfc3339 rec.last_activity) }
      else item

  -- A turn of the loop of `ListChats`.
  unfoldable pub list_item : Time → ChatRecord → ChatListItem
  list_item now rec = set_activity rec (elim (parse_jid wt rec.chat_jid) [
    | err _ ↦ plain_item rec
    | ok jid ↦
        set_settings now jid (set_lid jid (set_contact (store.all_contacts jid) (plain_item rec)))
  ])

  unfoldable pub list_items : Time → List ChatRecord → List ChatListItem
  list_items now [] = []
  list_items now (rec ∷ recs) = list_item now rec ∷ list_items now recs

  -- `ListChats`; the clock stands still during a call.
  unfoldable pub list_chats : Bool → Time → ChatTable → Result ChatError (List ChatListItem)
  list_chats db_ok now rows =
      if get_our_jid == "" then err not_paired else elim (list db_ok get_our_jid rows) [
        | err e ↦ err (list_failed e)
        | ok recs ↦ ok (list_items now recs)
      ]

  -- The rest of `GetChatInfo`, for a record.
  unfoldable pub info_item : Time → ChatRecord → ChatListItem
  info_item now rec = set_activity rec (elim (parse_jid wt rec.chat_jid) [
    | err _ ↦ plain_item rec
    | ok jid ↦
        set_settings now jid
          (set_lid jid (set_contact (found_contact (store.contact jid)) (plain_item rec)))
  ])

  -- `GetChatInfo`
  unfoldable pub get_chat_info : Bool → Time → String → ChatTable → Result ChatError ChatListItem
  get_chat_info db_ok now chat_id rows =
      if get_our_jid == "" then err not_paired else elim (get db_ok get_our_jid chat_id rows) [
        | err e ↦ err (not_found e)
        | ok rec ↦ ok (info_item now rec)
      ]
