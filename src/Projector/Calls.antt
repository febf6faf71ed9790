-- ===== src/Projector/Calls.antt =====
-- internal/event/projector_call.go
use wsapi_app.Common.{not, String, ◌==◌, Option, none, some, List, contains, if◌then◌else◌}
use wsapi_app.Whatsmeow.{Jid, WaTypes}
use wsapi_app.Event.Types.{Time, call_offer, call_terminate, call_accept}
use wsapi_app.Event.Constants.{type_call_offer, type_call_terminate, type_call_accept}
use wsapi_app.Projector.{
  ProjectorContext, Projection, project, panics, project_chat_id, resolve_identity,
}

-- The value of the attribute "group-jid": absent or nil, a text, a JID, or of another type.
pub data GroupJid : Type 0 where
  no_group other_value : GroupJid
  group_text : String → GroupJid
  group_jid : Jid → GroupJid

-- `*binary.Node`: that attribute, and the tags of the children.
pub record CallNode : Type 0 where
  pub group : GroupJid
  pub child_tags : List String

pub record CallOffer : Type 0 where
  pub call_id : String
  pub call_creator : Jid
  pub timestamp : Time
  pub node : Option CallNode

pub record CallTerminate : Type 0 where
  pub call_id : String
  pub call_creator : Jid
  pub timestamp : Time
  pub reason : String

pub record CallAccept : Type 0 where
  pub call_id : String
  pub call_creator : Jid
  pub timestamp : Time

-- The switch over `evt.Reason`.
unfoldable pub call_reason : String → String
call_reason reason =
    if reason == "rejected_elsewhere"
    then "rejected"
    else if reason == "accepted_elsewhere"
    then "ended"
    else if reason == "group_call_ended"
    then "ended"
    else "unknown"

module _ (wt : WaTypes) where
  unfoldable pub group_of : GroupJid → ProjectorContext → String
  group_of no_group pctx = ""
  group_of other_value pctx = ""
  group_of (group_text s) pctx = s
  group_of (group_jid jid) pctx = project_chat_id wt jid pctx.lids

  -- `ProjectCallOffer`. The attributes are read before the node is tested for nil.
  unfoldable pub project_call_offer : CallOffer → ProjectorContext → Projection
  project_call_offer evt pctx = elim evt.node [
    | none ↦ panics
    | some node ↦
        let caller = resolve_identity wt evt.call_creator pctx in
        let group = group_of node.group pctx in
        project type_call_offer (
          call_offer (record {
            id = evt.call_id;
            caller = caller;
            chat_id = if not (group == "") then group else caller.id;
            is_group = not (group == "");
            time = evt.timestamp;
            is_video = contains "video" node.child_tags;
          }))
  ]

  -- `ProjectCallTerminated`
  unfoldable pub project_call_terminated : CallTerminate → ProjectorContext → Projection
  project_call_terminated evt pctx = project type_call_terminate (
      call_terminate (record {
        id = evt.call_id;
        caller = resolve_identity wt evt.call_creator pctx;
        time = evt.timestamp;
        reason = call_reason evt.reason;
      }))

  -- `ProjectCallAccepted`
  unfoldable pub project_call_accepted : CallAccept → ProjectorContext → Projection
  project_call_accepted evt pctx = project type_call_accept (
      call_accept (record {
        id = evt.call_id;
        caller = resolve_identity wt evt.call_creator pctx;
        time = evt.timestamp;
      }))
