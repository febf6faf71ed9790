-- ===== src/Projector.antt =====
-- internal/event: from what the WhatsApp client reports to the payload of an event. Here is what all
-- projectors use (resolve.go, utils.go, projector.go). The structs of whatsmeow are records with the
-- fields that the code reads, and a protobuf getter is the field with its default.
pub mod Calls
pub mod Messages
pub mod History
pub mod Chats
pub mod Groups
pub mod Receipts
pub mod Sessions
pub mod Dispatch
pub mod TypeOf
pub mod Typed
pub mod ChatIds
mod Tests
use wsapi_app.Common.{
  ℕ, Bool, true, false, not, String, ◌==◌, Option, none, some, List, [], ◌∷◌, map, eqb, ◌^◌,
  if◌then◌else◌, ◌*◌,
}
use wsapi_app.Whatsmeow.{Jid, jid_of, empty_jid, WaTypes, LidStore}
use wsapi_app.Identity.{Identity, Sender, resolve}
use wsapi_app.Identity
use wsapi_app.Event.Types.{EventData, Time}

-- `ProjectorContext`: the LID store, the JID and the LID of the own device, and the instance.
pub record ProjectorContext : Type 0 where
  pub lids : Option LidStore
  pub own_id : Option Jid
  pub own_lid : Jid
  pub instance_id : String

-- What a projector returns; `panics` is a nil pointer that is dereferenced.
pub data Projection : Type 0 where
  discard : Projection
  project : String → EventData → Projection
  panics : Projection

-- `GetEphemeralExpirationString`
unfoldable pub ephemeral_expiration_string : ℕ → String
ephemeral_expiration_string expiration =
    if eqb expiration 0
    then "off"
    else if eqb expiration 86400
    then "24h"
    else if eqb expiration 604800
    then "7d"
    else if eqb expiration 7776000
    then "90d"
    else "off"

-- `UnixToRFC3339` of a number of milliseconds. `Format(time.RFC3339)` of a time in UTC is a parameter, on
-- nanoseconds.
unfoldable pub unix_to_rfc3339 : (Time → String) → ℕ → String
unix_to_rfc3339 rfc3339 ts = rfc3339 (ts * 10 ^ 6)

module _ (wt : WaTypes) where
  -- `if pn, err := lids.GetPNForLID(…); err == nil && pn.User != ""`
  unfoldable pub phone_or : Option Jid → String → String
  phone_or none other = other
  phone_or (some pn) other =
      if not (pn.user == "") then wt.to_string (jid_of pn.user wt.default_user_server) else other

  -- `projectChatID`
  unfoldable pub project_chat_id : Jid → Option LidStore → String
  project_chat_id jid lids =
      let clean = if not (eqb jid.device 0) then jid_of jid.user jid.server else jid in
      if clean.server == wt.hidden_user_server
      then elim lids [
        | none ↦ wt.to_string clean
        | some store ↦ phone_or (store.get_pn_for_lid clean) (wt.to_string clean)
      ]
      else wt.to_string clean

  -- `resolveIdentity` and `resolveSender`
  unfoldable pub resolve_identity : Jid → ProjectorContext → Identity
  resolve_identity jid pctx = resolve wt jid empty_jid pctx.lids

  unfoldable pub resolve_sender : Jid → Bool → Jid → ProjectorContext → Sender
  resolve_sender jid is_me alt pctx = Identity.resolve_sender wt jid is_me alt pctx.lids

  -- One mention of the loop of `resolveMentions`.
  unfoldable pub resolve_mention : LidStore → String → String
  resolve_mention store s = elim (wt.parse_jid s) [
    | none ↦ s
    | some jid ↦
        if not (jid.server == wt.hidden_user_server)
        then s
        else phone_or (store.get_pn_for_lid jid) s
  ]

  -- `resolveMentions`
  unfoldable pub resolve_mentions : List String → ProjectorContext → List String
  resolve_mentions jids pctx = elim pctx.lids [
    | none ↦ jids
    | some store ↦ map (resolve_mention store) jids
  ]

  -- `resolveMembers`
  unfoldable pub resolve_members : List Jid → ProjectorContext → List Identity
  resolve_members jids pctx = map (λ jid. resolve wt jid empty_jid pctx.lids) jids
