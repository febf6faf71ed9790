-- ===== src/Instance/Tracking.antt =====
-- internal/instance/manager.go: the first part of the event handler of `initService`, which records
-- the chats and the contacts that the account's events name, before they are projected. The cache of
-- the messages of a history sync is not part of it. The errors of the two stores are ignored by the
-- code; whether a write of the database succeeds is an argument beside what is written.
pub mod Recorded
pub mod Refines
mod Tests
use wsapi_app.Common.{
  ℕ, ◌*◌, ◌^◌, Bool, true, false, ◌||◌, String, ◌==◌, Option, none, some, List, [], ◌∷◌, ltb,
  if◌then◌else◌, Result, ok, err,
}
use wsapi_app.Event.Types.{Time}
use wsapi_app.Whatsmeow.{Jid, WaTypes}
use wsapi_app.Whatsmeow.Proto.{SyncType, initial_bootstrap, full, recent, on_demand, other}
use wsapi_app.Store.Chats.{ChatRecord, ChatTable}
use wsapi_app.Store.Chats
use wsapi_app.Store.Contacts.{ContactRecord, ContactTable}
use wsapi_app.Store.Contacts

-- `waHistorySync.Conversation`: `GetID` and `GetConversationTimestamp`
pub record Conversation : Type 0 where
  pub id : String
  pub timestamp : ℕ

-- `waSyncAction.ContactAction`, by its getters
pub record ContactAction : Type 0 where
  pub first_name : String
  pub full_name : String
  pub lid_jid : String
  pub save_on_primary_addressbook : Bool

-- The events that the switch has a case for. A nil pointer is `none`; each conversation stands with
-- whether its write succeeds.
pub data WaEvent : Type 0 where
  history_sync : Option SyncType → List (Bool × Option Conversation) → WaEvent
  message : Jid → Time → WaEvent
  delete_chat : Jid → WaEvent
  contact : Jid → Option ContactAction → WaEvent
  unknown : WaEvent

-- `_ = call`: the table stays as it was when the call fails.
unfoldable pub ignore_error {ℓ κ} : {E : Type ℓ} {A : Type κ} → A → Result E A → A
ignore_error old (ok new) = new
ignore_error old (err _) = old

-- `time.Unix(int64(ts), 0)`
abbrev pub unix : ℕ → Time
unix seconds = seconds * 10 ^ 9

-- The syncs whose conversations are recorded.
unfoldable pub carries_chats : Option SyncType → Bool
carries_chats none = false
carries_chats (some initial_bootstrap) = true
carries_chats (some full) = true
carries_chats (some recent) = true
carries_chats (some on_demand) = false
carries_chats (some other) = false

module _ (wt : WaTypes) where
  -- `skipChat`
  unfoldable pub skip_chat : Jid → Bool
  skip_chat jid = jid.server == wt.broadcast_server || jid.user == "0"

  -- The guard before an upsert of a chat, and the upsert.
  unfoldable pub track_chat : Bool → String → Jid → Time → ChatTable → ChatTable
  track_chat db_ok our_jid jid last_activity chats =
      let rec : ChatRecord = record {
        our_jid = our_jid;
        chat_jid = wt.to_string jid;
        is_group = jid.server == wt.group_server;
        last_activity = last_activity;
      } in
      if jid.server == wt.hidden_user_server || skip_chat jid
      then chats
      else ignore_error chats (Chats.upsert db_ok rec chats)

-- `alt_jid` is `Store.GetAltJID`, of which `none` is an error.
module _ (wt : WaTypes) (alt_jid : Jid → Option Jid) where
  -- `resolveLID`
  unfoldable pub resolve_lid : Jid → Jid
  resolve_lid jid =
      if jid.server == wt.hidden_user_server
      then elim (alt_jid jid) [ none ↦ jid | some pn ↦ if pn.user == "" then jid else pn ]
      else jid

  -- The body of the loop over the conversations.
  unfoldable pub track_conversation : Bool → String → Option Conversation → ChatTable → ChatTable
  track_conversation db_ok our_jid none chats = chats
  track_conversation db_ok our_jid (some conv) chats = elim (wt.parse_jid conv.id) [
    | none ↦ chats
    | some jid ↦
        track_chat wt db_ok our_jid (resolve_lid jid)
          (if ltb 0 conv.timestamp then unix conv.timestamp else 0) chats
  ]

  unfoldable pub track_conversations :
      String → List (Bool × Option Conversation) → ChatTable → ChatTable
  track_conversations our_jid [] chats = chats
  track_conversations our_jid ((db_ok, conv) ∷ convs) chats =
      track_conversations our_jid convs (track_conversation db_ok our_jid conv chats)

  -- What the switch does to the table of chats.
  unfoldable pub track_chats : Bool → String → WaEvent → ChatTable → ChatTable
  track_chats db_ok our_jid (history_sync sync_type convs) chats =
      if carries_chats sync_type then track_conversations our_jid convs chats else chats
  track_chats db_ok our_jid (message chat timestamp) chats =
      track_chat wt db_ok our_jid (resolve_lid chat) timestamp chats
  track_chats db_ok our_jid (delete_chat chat) chats =
      let jid = resolve_lid chat in
      if jid.server == wt.hidden_user_server
      then chats
      else ignore_error chats (Chats.delete db_ok our_jid (wt.to_string jid) chats)
  track_chats db_ok our_jid (contact _ _) chats = chats
  track_chats db_ok our_jid unknown chats = chats

  -- What the switch does to the table of contacts.
  unfoldable pub track_contacts : Bool → String → WaEvent → ContactTable → ContactTable
  track_contacts db_ok our_jid (contact named (some action)) contacts =
      let jid = resolve_lid named in
      let rec : ContactRecord = record {
        our_jid = our_jid;
        contact_jid = wt.to_string jid;
        contact_lid = action.lid_jid;
        first_name = action.first_name;
        full_name = action.full_name;
        in_phone_address_book = action.save_on_primary_addressbook;
      } in
      if jid.server == wt.hidden_user_server
      then contacts
      else ignore_error contacts (Contacts.upsert db_ok rec contacts)
  track_contacts db_ok our_jid (contact _ none) contacts = contacts
  track_contacts db_ok our_jid (history_sync _ _) contacts = contacts
  track_contacts db_ok our_jid (message _ _) contacts = contacts
  track_contacts db_ok our_jid (delete_chat _) contacts = contacts
  track_contacts db_ok our_jid unknown contacts = contacts

  -- The switch: nothing is recorded before the device is paired.
  unfoldable pub track :
      Bool → String → WaEvent → ChatTable × ContactTable → ChatTable × ContactTable
  track db_ok our_jid evt (chats, contacts) =
      if our_jid == ""
      then (chats, contacts)
      else (track_chats db_ok our_jid evt chats, track_contacts db_ok our_jid evt contacts)
