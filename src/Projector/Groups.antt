-- ===== src/Projector/Groups.antt =====
-- internal/event/projector_group.go
use wsapi_app.Common.{
  ℕ, Bool, true, false, String, ◌==◌, Option, none, some, List, [], ◌∷◌, if◌then◌else◌,
}
use wsapi_app.Whatsmeow.{Jid, empty_jid, WaTypes}
use wsapi_app.Identity.{Identity, Sender, resolve}
use wsapi_app.Event.Types.{Time, is_zero, GroupEvent, group, chat_setting}
use wsapi_app.Event.Constants.{type_group, type_chat_setting}
use wsapi_app.Projector.{
  ProjectorContext, Projection, discard, project, project_chat_id, resolve_sender, resolve_members,
  ephemeral_expiration_string,
}

-- `waEvents.GroupInfo`. A nil pointer and a nil slice are `none`.
pub record GroupInfo : Type 0 where
  pub jid : Jid
  pub sender : Option Jid
  pub sender_pn : Option Jid
  pub timestamp : Time
  pub ephemeral : Option ℕ
  pub topic : Option (String × Time)
  pub name : Option String
  pub locked : Option Bool
  pub announce : Option Bool
  pub leave : Option (List Jid)
  pub join : Option (List Jid)
  pub promote : Option (List Jid)
  pub demote : Option (List Jid)
  pub link : Option (String × Jid × String × Bool)
  pub unlink : Option (String × String × Jid)
  pub approval : Option Bool
  pub delete_reason : Option String
  pub suspended : Bool
  pub unsuspended : Bool
  pub join_reason : String

pub record JoinedGroup : Type 0 where
  pub jid : Jid
  pub sender : Option Jid
  pub sender_pn : Option Jid
  pub reason : String
  pub type : String
  pub is_parent : Bool
  pub linked_parent_jid : Jid
  pub is_default_sub_group : Bool

-- `resolveSenderJID`
unfoldable pub resolve_sender_jid : Option Jid → Option Jid → Jid
resolve_sender_jid (some sender) pn = sender
resolve_sender_jid none (some pn) = pn
resolve_sender_jid none none = empty_jid

-- The zero value of `Sender`.
abbrev pub no_sender : Sender
no_sender = record {
  identity = record { id = ""; lid = ""; phone = ""; device = 0 };
  is_me = false;
}

-- A `GroupEvent` with nothing but its ID and its sender.
abbrev pub bare_group : String → Sender → GroupEvent
bare_group id sender = record {
  id = id;
  sender = sender;
  timestamp = 0;
  description = none;
  name = none;
  locked = none;
  announce = none;
  membership_approval = none;
  delete = none;
  suspended = none;
  leave = [];
  join = [];
  promote = [];
  demote = [];
  link = none;
  unlink = none;
  join_reason = "";
  group_type = "";
  is_community = false;
  community_id = "";
  is_announcement_group = false;
}

-- `data.Timestamp`: the event's, or else that of the topic.
unfoldable pub group_timestamp : Time → Option (String × Time) → Time
group_timestamp timestamp none = timestamp
group_timestamp timestamp (some (topic, set_at)) = if is_zero timestamp then set_at else timestamp

-- The later of the two tests wins.
unfoldable pub suspension : Bool → Bool → Option Bool
suspension suspended unsuspended =
    if unsuspended then some false else if suspended then some true else none

module _ (wt : WaTypes) where
  -- A sender by its JID and its phone JID, each the alternate of the other.
  unfoldable pub group_sender : Option Jid → Option Jid → ProjectorContext → Sender
  group_sender sender pn pctx =
      resolve_sender wt (resolve_sender_jid sender pn) false (resolve_sender_jid pn sender) pctx

  unfoldable pub members_of : Option (List Jid) → ProjectorContext → List Identity
  members_of none pctx = []
  members_of (some jids) pctx = resolve_members wt jids pctx

  -- `projectGroupEphemeral`
  unfoldable pub project_group_ephemeral : GroupInfo → ℕ → ProjectorContext → Projection
  project_group_ephemeral evt timer pctx = project type_chat_setting (
      chat_setting (record {
        id = project_chat_id wt evt.jid pctx.lids;
        setting_type = "ephemeral";
        mute = none;
        pin = none;
        archive = none;
        read = none;
        ephemeral = some (record {
          expiration = ephemeral_expiration_string timer;
          sender = group_sender evt.sender evt.sender_pn pctx;
        });
      }))

  -- The `GroupEvent` of `ProjectGroupInfo`.
  unfoldable pub group_changes : GroupInfo → ProjectorContext → GroupEvent
  group_changes evt pctx =
      record (bare_group (project_chat_id wt evt.jid pctx.lids)
        (group_sender evt.sender evt.sender_pn pctx)) {
          timestamp = group_timestamp evt.timestamp evt.topic;
          description = elim evt.topic [
            | none ↦ none
            | some (topic, _) ↦ some (record { topic = topic })
          ];
          name = elim evt.name [ none ↦ none | some name ↦ some (record { name = name }) ];
          locked = elim evt.locked [ none ↦ none | some b ↦ some (record { is_locked = b }) ];
          announce = elim evt.announce [ none ↦ none | some b ↦ some (record { is_announce = b }) ];
          leave = members_of evt.leave pctx;
          join = members_of evt.join pctx;
          promote = members_of evt.promote pctx;
          demote = members_of evt.demote pctx;
          link = elim evt.link [
            | none ↦ none
            | some (type, jid, name, is_default) ↦ some (record {
              type = type;
              group_id = wt.to_string jid;
              group_name = name;
              is_announcement_group = is_default;
            })
          ];
          unlink = elim evt.unlink [
            | none ↦ none
            | some (type, reason, jid) ↦
                some (record { type = type; reason = reason; group_id = wt.to_string jid })
          ];
          membership_approval = elim evt.approval [
            | none ↦ none
            | some b ↦ some (record { is_required = b })
          ];
          delete = elim evt.delete_reason [ none ↦ none | some r ↦ some (record { reason = r }) ];
          suspended = suspension evt.suspended evt.unsuspended;
          join_reason = evt.join_reason;
        }

  -- `ProjectGroupInfo`
  unfoldable pub project_group_info : GroupInfo → ProjectorContext → Projection
  project_group_info evt pctx =
      if project_chat_id wt evt.jid pctx.lids == "" then discard else elim evt.ephemeral [
        | some timer ↦ project_group_ephemeral evt timer pctx
        | none ↦ project type_group (group (group_changes evt pctx))
      ]

  -- The `GroupEvent` of `ProjectJoinedGroup`.
  unfoldable pub joined_group : JoinedGroup → ProjectorContext → GroupEvent
  joined_group evt pctx =
      let sender =
        if wt.is_empty (resolve_sender_jid evt.sender evt.sender_pn)
        then no_sender
        else group_sender evt.sender evt.sender_pn pctx in
      record (bare_group (project_chat_id wt evt.jid pctx.lids) sender) {
        join_reason = evt.reason;
        group_type = evt.type;
        join = elim pctx.own_id [
          | none ↦ []
          | some own ↦ resolve wt own pctx.own_lid pctx.lids ∷ []
        ];
        is_community = evt.is_parent;
        community_id =
            if wt.is_empty evt.linked_parent_jid then "" else wt.to_string evt.linked_parent_jid;
        is_announcement_group = evt.is_default_sub_group;
      }

  -- `ProjectJoinedGroup`
  unfoldable pub project_joined_group : JoinedGroup → ProjectorContext → Projection
  project_joined_group evt pctx =
      if project_chat_id wt evt.jid pctx.lids == ""
      then discard
      else project type_group (group (joined_group evt pctx))
