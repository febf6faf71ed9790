-- ===== src/Projector/Chats.antt =====
-- internal/event/projector_chat.go
use wsapi_app.Common.{ℕ, Bool, false, String, ◌==◌, Option, none, some, ltb, if◌then◌else◌}
use wsapi_app.Whatsmeow.{Jid, empty_jid, WaTypes}
use wsapi_app.Event.Types.{
  Time, ChatSettingEvent, chat_setting, chat_presence, chat_push_name, chat_picture, chat_status,
  presence,
}
use wsapi_app.Event.Constants.{
  type_chat_setting, type_chat_presence, type_chat_push_name, type_chat_picture, type_user_presence,
  type_chat_status,
}
use wsapi_app.Projector.{
  unix_to_rfc3339, ProjectorContext, Projection, discard, project, project_chat_id,
  resolve_identity, resolve_sender,
}

-- `waEvents.Mute`; the end is a number of milliseconds that may be negative, which is `none` then.
pub record Mute : Type 0 where
  pub jid : Jid
  pub from_full_sync : Bool
  pub muted : Bool
  pub mute_end_timestamp : Option ℕ

-- `waEvents.Pin`, `Archive` and `MarkChatAsRead`, whose action is one flag.
pub record ChatAction : Type 0 where
  pub jid : Jid
  pub from_full_sync : Bool
  pub flag : Bool

-- `waTypes.ChatPresence` and `waTypes.ChatPresenceMedia`, by their constants.
pub data PresenceState : Type 0 where
  composing paused other_state : PresenceState

pub data PresenceMedia : Type 0 where
  audio other_media : PresenceMedia

pub record ChatPresence : Type 0 where
  pub chat : Jid
  pub sender : Jid
  pub sender_alt : Jid
  pub is_from_me : Bool
  pub state : PresenceState
  pub media : PresenceMedia

pub record PushName : Type 0 where
  pub jid : Jid
  pub new_push_name : String

pub record Picture : Type 0 where
  pub jid : Jid
  pub author : Jid
  pub picture_id : String

pub record Presence : Type 0 where
  pub from : Jid
  pub unavailable : Bool
  pub last_seen : Time

pub record UserAbout : Type 0 where
  pub jid : Jid
  pub status : String

-- A setting with none of the parts.
abbrev setting : String → String → ChatSettingEvent
setting id setting_type = record {
  id = id;
  setting_type = setting_type;
  mute = none;
  pin = none;
  archive = none;
  read = none;
  ephemeral = none;
}

-- The switch over `evt.State`
unfoldable pub presence_state : PresenceState → PresenceMedia → String
presence_state composing audio = "recording"
presence_state composing other_media = "typing"
presence_state paused media = "paused"
presence_state other_state media = ""

module _ (wt : WaTypes) (rfc3339 : Time → String) where
  -- `ProjectMute`; `UnixToRFC3339` is a parameter.
  unfoldable pub project_mute : Mute → ProjectorContext → Projection
  project_mute evt pctx =
      let end_time : String = elim evt.mute_end_timestamp [
        | none ↦ ""
        | some t ↦ if ltb 0 t then unix_to_rfc3339 rfc3339 t else ""
      ] in
      if evt.from_full_sync
      then discard
      else project type_chat_setting (
          chat_setting (record (setting (project_chat_id wt evt.jid pctx.lids) "mute") {
            mute = some (record { is_muted = evt.muted; mute_end_time = end_time });
          }))

module _ (wt : WaTypes) where
  -- `ProjectPin`
  unfoldable pub project_pin : ChatAction → ProjectorContext → Projection
  project_pin evt pctx =
      if evt.from_full_sync
      then discard
      else project type_chat_setting (
          chat_setting (record (setting (project_chat_id wt evt.jid pctx.lids) "pin") {
            pin = some (record { is_pinned = evt.flag });
          }))

  -- `ProjectArchive`
  unfoldable pub project_archive : ChatAction → ProjectorContext → Projection
  project_archive evt pctx =
      if evt.from_full_sync
      then discard
      else project type_chat_setting (
          chat_setting (record (setting (project_chat_id wt evt.jid pctx.lids) "archive") {
            archive = some (record { is_archived = evt.flag });
          }))

  -- `ProjectMarkChatAsRead`
  unfoldable pub project_mark_chat_as_read : ChatAction → ProjectorContext → Projection
  project_mark_chat_as_read evt pctx =
      if evt.from_full_sync
      then discard
      else project type_chat_setting (
          chat_setting (record (setting (project_chat_id wt evt.jid pctx.lids) "read") {
            read = some (record { is_read = evt.flag });
          }))

  -- `ProjectChatPresence`
  unfoldable pub project_chat_presence : ChatPresence → ProjectorContext → Projection
  project_chat_presence evt pctx = project type_chat_presence (
      chat_presence (record {
        id = project_chat_id wt evt.chat pctx.lids;
        sender = resolve_sender wt evt.sender evt.is_from_me evt.sender_alt pctx;
        state = presence_state evt.state evt.media;
      }))

  -- `ProjectPushName`
  unfoldable pub project_push_name : PushName → ProjectorContext → Projection
  project_push_name evt pctx =
      let user = resolve_identity wt evt.jid pctx in
      if user.id == ""
      then discard
      else project type_chat_push_name
          (chat_push_name (record { user = user; push_name = evt.new_push_name }))

  -- `ProjectBusinessName`
  abbrev pub project_business_name : Projection
  project_business_name = discard

  -- `ProjectPicture`
  unfoldable pub project_picture : Picture → ProjectorContext → Projection
  project_picture evt pctx =
      let chat_id = project_chat_id wt evt.jid pctx.lids in
      let is_me : Bool = elim pctx.own_id [
        | none ↦ false
        | some own ↦ evt.author.user == own.user
      ] in
      if chat_id == ""
      then discard
      else project type_chat_picture (
          chat_picture (record {
            id = chat_id;
            sender = resolve_sender wt evt.author is_me empty_jid pctx;
            picture_id = evt.picture_id;
          }))

  -- `ProjectPresence`
  unfoldable pub project_presence : Presence → ProjectorContext → Projection
  project_presence evt pctx = project type_user_presence (
      presence (record {
        user = resolve_identity wt evt.from pctx;
        status = if evt.unavailable then "unavailable" else "available";
        last_seen = evt.last_seen;
      }))

  -- `ProjectUserAbout`
  unfoldable pub project_user_about : UserAbout → ProjectorContext → Projection
  project_user_about evt pctx =
      let user = resolve_identity wt evt.jid pctx in
      if user.id == ""
      then discard
      else project type_chat_status (chat_status (record { user = user; status = evt.status }))
