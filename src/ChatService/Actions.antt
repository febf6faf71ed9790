-- ===== src/ChatService/Actions.antt =====
-- The operations on a chat: presence, the timer of disappearing messages, and what the app state says
-- of the chat. The WhatsApp client is a parameter; each operation yields the calls it made.
use wsapi_app.Common.{
  ℕ, ◌-◌, ◌*◌, ◌/◌, ◌^◌, ℤ, Bool, true, false, String, ◌==◌, Option, none, some, List, [], ◌∷◌,
  if◌then◌else◌, Result, ok, err,
}
use wsapi_app.Whatsmeow.{Jid, WaTypes}
use wsapi_app.Event.Types.{Time, is_zero}
use wsapi_app.Jid.{JidError, parse_jid, format_recipient}

-- `types.ChatPresence` and `types.ChatPresenceMedia`
pub data ChatPresence : Type 0 where
  composing paused : ChatPresence

pub data PresenceMedia : Type 0 where
  text audio : PresenceMedia

-- `appstate.PatchInfo`, with the three actions that are built here. The times are in seconds.
pub data PatchType : Type 0 where
  critical_block critical_unblock_low regular_high regular regular_low : PatchType

pub data SyncAction : Type 0 where
  mark_chat_as_read_action : Bool → ℕ → SyncAction
  delete_chat_action clear_chat_action : ℕ → SyncAction

pub record MutationInfo : Type 0 where
  pub index : List String
  pub version : ℕ
  pub value : SyncAction

pub record PatchInfo : Type 0 where
  pub type : PatchType
  pub mutations : List MutationInfo

-- `types.MessageInfo`, as far as it is filled.
pub record MessageInfo : Type 0 where
  pub chat : Jid
  pub sender : Jid
  pub is_from_me : Bool
  pub is_group : Bool
  pub id : String

-- The patches that `appstate.BuildMute`, `BuildPin` and `BuildArchive` build, by their arguments, and
-- those of this file.
pub data Patch : Type 0 where
  mute : Jid → Bool → ℕ → Patch
  pin : Jid → Bool → Patch
  archive : Jid → Bool → Time → Patch
  built : PatchInfo → Patch

-- The calls of the client. A request of messages is the one that `BuildHistorySyncRequest` builds.
pub data Call : Type 0 where
  picture_read presence_subscribed : Jid → Call
  presence_sent : Jid → ChatPresence → PresenceMedia → Call
  timer_set : Jid → ℕ → Time → Call
  patched : Patch → Call
  messages_requested : MessageInfo → ℤ → Call

-- `ChatPictureResponse`, whose fields are those of `types.ProfilePictureInfo`.
pub record ChatPictureResponse : Type 0 where
  pub picture_id : String
  pub picture_url : String

-- `*whatsmeow.Client`. `perform` is the error of a call, if any; `own_user` the user of the device, if
-- it is paired. The names of the indexes are parameters too.
pub record Client : Type 0 where
  pub profile_picture : Jid → Result String ChatPictureResponse
  pub perform : Call → Option String
  pub own_user : Option String
  pub index_mark_chat_as_read : String
  pub index_delete_chat : String
  pub index_clear_chat : String

-- The errors of the operations; `nil_device` is the panic at a device that is not paired.
pub data ActionError : Type 0 where
  invalid_jid : JidError → ActionError
  invalid_state invalid_expiration invalid_duration : String → ActionError
  picture_failed client_error request_failed : String → ActionError
  nil_device : ActionError

pub record Outcome (A : Type 0) : Type 0 where
  pub calls : List Call
  pub result : Result ActionError A

abbrev pub fail : {A : Type 0} → ActionError → Outcome A
fail e = record { calls = []; result = err e }

abbrev hour : ℕ
hour = 60 * 60 * 10 ^ 9

-- The three switches, with `none` for the default case.
unfoldable pub presence_of : String → Option (ChatPresence × PresenceMedia)
presence_of state =
    if state == "typing"
    then some (composing, text)
    else if state == "paused"
    then some (paused, text)
    else if state == "recording"
    then some (composing, audio)
    else none

unfoldable pub ephemeral_duration : String → Option ℕ
ephemeral_duration expiration =
    if expiration == "24h"
    then some (24 * hour)
    else if expiration == "7d"
    then some (7 * 24 * hour)
    else if expiration == "90d"
    then some (90 * 24 * hour)
    else if expiration == "off"
    then some 0
    else none

unfoldable pub mute_duration : String → Option (ℕ × Bool)
mute_duration duration =
    if duration == "8h"
    then some (8 * hour, true)
    else if duration == "1w"
    then some (7 * 24 * hour, true)
    else if duration == "always"
    then some (2 ^ 63 - 1, true)
    else if duration == "off"
    then some (0, false)
    else none

-- `time.Time.Unix`
abbrev unix_of : Time → ℕ
unix_of t = t / 10 ^ 9

-- The time, or the clock's where it is zero.
abbrev or_now : Time → Time → Time
or_now clock ts = if is_zero ts then clock else ts

abbrev single : List String → SyncAction → PatchInfo
single index value = record {
  type = regular_low;
  mutations = record { index = index; version = 3; value = value } ∷ [];
}

module _ (wt : WaTypes) (client : Client) where
  -- `buildMarkChatAsRead`, `buildDeleteChat` and `buildClearChat`
  unfoldable pub build_mark_chat_as_read : Time → Jid → Bool → Time → PatchInfo
  build_mark_chat_as_read clock target is_read ts =
      single (client.index_mark_chat_as_read ∷ wt.to_string target ∷ [])
        (mark_chat_as_read_action is_read (unix_of (or_now clock ts)))

  unfoldable pub build_delete_chat : Time → Jid → Time → PatchInfo
  build_delete_chat clock target ts =
      single (client.index_delete_chat ∷ wt.to_string target ∷ [])
        (delete_chat_action (unix_of (or_now clock ts)))

  unfoldable pub build_clear_chat : Time → Jid → Time → PatchInfo
  build_clear_chat clock target ts =
      single (client.index_clear_chat ∷ wt.to_string target ∷ "1" ∷ "1" ∷ [])
        (clear_chat_action (unix_of (or_now clock ts)))

  -- A call whose error is the operation's.
  unfoldable pub call : Call → Outcome (Unit {0})
  call c = record {
    calls = c ∷ [];
    result = elim (client.perform c) [ none ↦ ok tt | some e ↦ err (client_error e) ];
  }

  -- The parsing of the ID that every operation begins with.
  unfoldable pub with_chat : {A : Type 0} → String → (Jid → Outcome A) → Outcome A
  with_chat chat_id next = elim (parse_jid wt chat_id) [
    | err e ↦ fail (invalid_jid e)
    | ok jid ↦ next jid
  ]

  -- `GetChatPicture`
  unfoldable pub get_chat_picture : String → Outcome ChatPictureResponse
  get_chat_picture chat_id = with_chat chat_id (λ jid. record {
    calls = picture_read jid ∷ [];
    result = elim (client.profile_picture jid) [
      | err e ↦ err (picture_failed e)
      | ok picture ↦ ok picture
    ];
  })

  -- `SendChatPresence`
  unfoldable pub send_chat_presence : String → String → Outcome (Unit {0})
  send_chat_presence chat_id state = with_chat chat_id (λ jid. elim (presence_of state) [
    | none ↦ fail (invalid_state state)
    | some (presence, media) ↦ call (presence_sent jid presence media)
  ])

  -- `SubscribeChatPresence`
  unfoldable pub subscribe_chat_presence : String → Outcome (Unit {0})
  subscribe_chat_presence chat_id = with_chat chat_id (λ jid. call (presence_subscribed jid))

  -- `SetEphemeralExpiration` at the time `now`.
  unfoldable pub set_ephemeral_expiration : Time → String → String → Outcome (Unit {0})
  set_ephemeral_expiration now chat_id expiration = with_chat chat_id (λ jid.
      elim (ephemeral_duration expiration) [
        | none ↦ fail (invalid_expiration expiration)
        | some duration ↦ call (timer_set jid duration now)
      ])

  -- `MuteChat`
  unfoldable pub mute_chat : String → String → Outcome (Unit {0})
  mute_chat chat_id duration = with_chat chat_id (λ jid. elim (mute_duration duration) [
    | none ↦ fail (invalid_duration duration)
    | some (dur, muted) ↦ call (patched (mute jid muted dur))
  ])

  -- `PinChat`
  unfoldable pub pin_chat : String → Bool → Outcome (Unit {0})
  pin_chat chat_id pinned = with_chat chat_id (λ jid. call (patched (pin jid pinned)))

  -- `ArchiveChat`
  unfoldable pub archive_chat : Time → String → Bool → Outcome (Unit {0})
  archive_chat now chat_id archived =
      with_chat chat_id (λ jid. call (patched (archive jid archived now)))

  -- `MarkChatAsRead`, `ClearChat` and `DeleteChat`
  unfoldable pub mark_chat_as_read : Time → String → Bool → Outcome (Unit {0})
  mark_chat_as_read now chat_id is_read =
      with_chat chat_id
        (λ jid. call (patched (built (build_mark_chat_as_read now jid is_read now))))

  unfoldable pub clear_chat : Time → String → Outcome (Unit {0})
  clear_chat now chat_id =
      with_chat chat_id (λ jid. call (patched (built (build_clear_chat now jid now))))

  unfoldable pub delete_chat : Time → String → Outcome (Unit {0})
  delete_chat now chat_id =
      with_chat chat_id (λ jid. call (patched (built (build_delete_chat now jid now))))

  -- `RequestMessages`
  unfoldable pub request_messages : String → String → String → ℤ → Outcome (Unit {0})
  request_messages chat_id last_message_id last_message_sender_id count = with_chat chat_id (λ chat.
      let sender = format_recipient wt last_message_sender_id in
      elim client.own_user [
        | none ↦ fail nil_device
        | some own_user ↦
            let request =
              messages_requested
                (record {
                  chat = chat;
                  sender = sender;
                  is_from_me = sender.user == own_user;
                  is_group = chat.server == wt.group_server;
                  id = last_message_id;
                })
                count in
            record {
              calls = request ∷ [];
              result = elim (client.perform request) [
                | none ↦ ok tt
                | some e ↦ err (request_failed e)
              ];
            }
      ])
