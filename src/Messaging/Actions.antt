-- ===== src/Messaging/Actions.antt =====
-- The operations on a message that exists: editing, deleting, marking, pinning and starring.
use wsapi_app.Common.{
  ℕ, ◌*◌, ◌/◌, ◌^◌, Bool, true, false, not, ◌&&◌, String, ◌==◌, none, some, [], ◌∷◌, if◌then◌else◌,
  ok, err,
}
use wsapi_app.Whatsmeow.{Jid, WaTypes}
use wsapi_app.Whatsmeow.Proto.{empty_message, message_edit, pin_for_all, unpin_for_all, static}
use wsapi_app.Event.Types.{Time}
use wsapi_app.Jid.{parse_jid, is_group, format_recipient}
use wsapi_app.Messaging.{
  SendOptions, ReceiptKind, delivered, sender, read, played, zero_receipt, delete_message_for_me,
  star, PatchInfo, patched, marked_read, Client, sender_required, delete_conflict, delete_failed,
  star_not_built, nil_device, invalid_jid, client_error, star_failed, Outcome, fail,
  build_context_info, send,
}
use wsapi_app.Messaging.Send.{text_message}

-- `strIsFromMe`
abbrev flag : Bool → String
flag true = "1"
flag false = "0"

-- The switch over the receipt type.
unfoldable pub receipt_kind : String → ReceiptKind
receipt_kind type =
    if type == "delivered"
    then delivered
    else if type == "sender"
    then sender
    else if type == "read"
    then read
    else if type == "played"
    then played
    else zero_receipt

-- The switch over the expiration of a pin.
unfoldable pub pin_expiration : String → ℕ
pin_expiration expiration =
    if expiration == "24h"
    then 24 * 60 * 60
    else if expiration == "7d"
    then 7 * 24 * 60 * 60
    else if expiration == "30d"
    then 30 * 24 * 60 * 60
    else 0

-- `time.Time.Unix`
abbrev unix_of : Time → ℕ
unix_of t = t / 10 ^ 9

-- An operation on a chat whose ID is parsed first.
unfoldable pub with_chat : WaTypes → String → (Jid → Outcome) → Outcome
with_chat wt chat_id next = elim (parse_jid wt chat_id) [
  | err e ↦ fail (invalid_jid e)
  | ok chat ↦ next chat
]

-- A result without a message ID.
abbrev pub without_id : Outcome → Outcome
without_id o = record { calls = o.calls; result = elim o.result [ err e ↦ err e | ok _ ↦ ok "" ] }

module _ (wt : WaTypes) (client : Client) where
  -- `EditMessage` at the time `now`.
  unfoldable pub edit_message : Time → String → String → String → SendOptions → Outcome
  edit_message now to message_id text opts =
      let chat = format_recipient wt to in
      let inner = text_message text (build_context_info wt chat opts) in
      send client chat (record empty_message {
        protocol_message = some (record {
          type = some message_edit;
          key = some (record { remote_jid = some to; from_me = some true; id = some message_id });
          edited_message = some (record {
            conversation = inner.conversation;
            extended_text = inner.extended_text_message;
          });
          timestamp_ms = some (unix_of now);
          ephemeral_expiration = none;
        });
      })

  -- `DeleteMessage`
  unfoldable pub delete_message : String → String → String → Outcome
  delete_message chat_id sender_id message_id = with_chat wt chat_id λ chat.
      without_id
        (send client chat (client.build_revoke chat (format_recipient wt sender_id) message_id))

  -- `buildDeleteForMe`
  unfoldable pub build_delete_for_me : String → String → String → Bool → Time → PatchInfo
  build_delete_for_me chat sender_id message_id is_from_me timestamp = record {
    mutations =
        record {
          index =
              client.index_delete_message_for_me
              ∷ chat
              ∷ message_id
              ∷ flag is_from_me
              ∷ sender_id
              ∷ [];
          version = 2;
          value = delete_message_for_me false (unix_of timestamp);
        }
        ∷ [];
  }

  -- `buildStar`
  unfoldable pub build_star : String → String → String → Bool → Bool → PatchInfo
  build_star chat sender_id message_id is_from_me starred = record {
    mutations =
        record {
          index = client.index_star ∷ chat ∷ message_id ∷ flag is_from_me ∷ sender_id ∷ [];
          version = 2;
          value = star starred;
        }
        ∷ [];
  }

  -- The end of `DeleteMessageForMe`.
  unfoldable pub send_deletion : PatchInfo → Outcome
  send_deletion patch = record {
    calls = patched patch ∷ [];
    result = elim (client.send_app_state patch) [
      | none ↦ ok ""
      | some e ↦ if client.contains e "regular_high" then err delete_conflict else err delete_failed
    ];
  }

  -- `DeleteMessageForMe`
  unfoldable pub delete_message_for_self : String → String → Bool → String → Time → Outcome
  delete_message_for_self chat_id sender_id is_from_me message_id timestamp =
      with_chat wt chat_id λ chat.
        if is_group wt chat && not is_from_me
        then (if sender_id == ""
            then fail sender_required
            else send_deletion (
                build_delete_for_me chat_id (wt.to_string (format_recipient wt sender_id))
                  message_id is_from_me timestamp))
        else send_deletion (build_delete_for_me chat_id "0" message_id is_from_me timestamp)

  -- `MarkAsRead`
  unfoldable pub mark_as_read : ℕ → String → String → String → String → Outcome
  mark_as_read now chat_id sender_id message_id receipt_type =
      let from = format_recipient wt sender_id in
      let kind = receipt_kind receipt_type in
      with_chat wt chat_id λ chat. record {
        calls = marked_read (message_id ∷ []) now chat from kind ∷ [];
        result = elim (client.mark_read (message_id ∷ []) chat from kind) [
          | none ↦ ok ""
          | some e ↦ err (client_error e)
        ];
      }

  -- `PinMessage` at the time `now`.
  unfoldable pub pin_message : Time → String → String → String → Bool → String → Outcome
  pin_message now chat_id sender_id message_id pinned expiration = with_chat wt chat_id λ chat.
      without_id (
        send client chat (record empty_message {
          pin_in_chat_message = some (record {
            key = some (client.build_message_key chat (format_recipient wt sender_id) message_id);
            type = if pinned then pin_for_all else unpin_for_all;
            sender_timestamp_ms = some (unix_of now);
          });
          message_context_info = some (record {
            add_on_duration_in_secs = some (if pinned then pin_expiration expiration else 0);
            add_on_expiry_type = some static;
          });
        }))

  -- `StarMessage`; the patch that is built has a mutation, so that the test for none fails.
  unfoldable pub send_star : PatchInfo → Outcome
  send_star patch = elim patch.mutations [
    | [] ↦ fail star_not_built
    | _ ∷ _ ↦ record {
      calls = patched patch ∷ [];
      result = elim (client.send_app_state patch) [ none ↦ ok "" | some e ↦ err (star_failed e) ];
    }
  ]

  unfoldable pub star_message : String → String → String → Bool → Outcome
  star_message chat_id sender_id message_id starred =
      let from = format_recipient wt sender_id in
      with_chat wt chat_id λ chat. elim client.own_user [
        | none ↦ fail nil_device
        | some me ↦ send_star (
            build_star chat_id (if is_group wt chat then wt.to_string from else "0") message_id
              (from.user == me) starred)
      ]
