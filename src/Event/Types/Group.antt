-- ===== src/Event/Types/Group.antt =====
-- internal/event/types.go: the payloads about groups. A pointer is an `Option`.
use wsapi_app.Common.{Bool, String, Option, List}
use wsapi_app.Identity.{Identity, Sender}
use wsapi_app.Event.Types.GoTime.{Time}

pub record GroupDescriptionInfo : Type 0 where
  pub topic : String

pub record GroupNameInfo : Type 0 where
  pub name : String

pub record GroupLockedInfo : Type 0 where
  pub is_locked : Bool

pub record GroupAnnounceInfo : Type 0 where
  pub is_announce : Bool

pub record GroupLinkInfo : Type 0 where
  pub type : String
  pub group_id : String
  pub group_name : String
  pub is_announcement_group : Bool

pub record GroupUnlinkInfo : Type 0 where
  pub type : String
  pub reason : String
  pub group_id : String

pub record GroupMembershipApprovalInfo : Type 0 where
  pub is_required : Bool

pub record GroupDeleteInfo : Type 0 where
  pub reason : String

pub record GroupEvent : Type 0 where
  pub id : String
  pub sender : Sender
  pub timestamp : Time
  pub description : Option GroupDescriptionInfo
  pub name : Option GroupNameInfo
  pub locked : Option GroupLockedInfo
  pub announce : Option GroupAnnounceInfo
  pub membership_approval : Option GroupMembershipApprovalInfo
  pub delete : Option GroupDeleteInfo
  pub suspended : Option Bool
  pub leave : List Identity
  pub join : List Identity
  pub promote : List Identity
  pub demote : List Identity
  pub link : Option GroupLinkInfo
  pub unlink : Option GroupUnlinkInfo
  pub join_reason : String
  pub group_type : String
  pub is_community : Bool
  pub community_id : String
  pub is_announcement_group : Bool
