-- ===== src/ChatService/Business.antt =====
-- `GetBusinessProfile` of internal/whatsapp/chat.go. The nodes of WhatsApp's answer and the methods that
-- read them are parameters. A float is the text of its value, which `parse_float` yields.
use wsapi_app.Common.{
  String, ◌==◌, Option, none, some, List, [], ◌∷◌, if◌then◌else◌, Result, ok, err,
}
use wsapi_app.Common.Dict.{Dict, insert}
use wsapi_app.Whatsmeow.{Jid, WaTypes}
use wsapi_app.Jid.{JidError, parse_jid}

-- `BusinessCategory`, `BusinessHours` and `BusinessProfileResponse`
pub record BusinessCategory : Type 0 where
  pub id : String
  pub name : String

pub record BusinessHours : Type 0 where
  pub day_of_week : String
  pub mode : String
  pub open_time : String
  pub close_time : String

pub record BusinessProfileResponse : Type 0 where
  pub id : String
  pub address : String
  pub email : String
  pub description : String
  pub website : String
  pub latitude : String
  pub longitude : String
  pub member_since : String
  pub categories : List BusinessCategory
  pub business_hours : List BusinessHours
  pub business_hours_time_zone : String
  pub profile_options : Dict String

-- The `Content` of a node, which is an interface value.
pub data Content : Type 0 where
  nil_content other_content : Content
  string_content bytes_content : String → Content

-- `waBinary.Node`: its fields, `GetOptionalChildByTag`, `GetChildByTag`, `GetChildren`, and `String` and
-- `GetJID` of its `AttrGetter`.
pub record Nodes (Node : Type 0) : Type 0 where
  pub tag : Node → String
  pub content : Node → Content
  pub get_optional_child_by_tag : Node → String → Option Node
  pub get_child_by_tag : Node → String → Node
  pub get_children : Node → List Node
  pub string_attr : Node → String → String
  pub jid_attr : Node → String → Option Jid

pub data ProfileError : Type 0 where
  invalid_jid : JidError → ProfileError
  query_failed : String → ProfileError
  no_business_profile missing_jid : ProfileError

module _ {Node : Type 0} (nodes : Nodes Node) where
  -- `getStringContent`
  unfoldable pub get_string_content : Node → String
  get_string_content node = elim (nodes.content node) [
    | nil_content ↦ ""
    | string_content s ↦ s
    | bytes_content s ↦ s
    | other_content ↦ ""
  ]

  -- The three loops over children.
  unfoldable pub hours_of : List Node → List BusinessHours
  hours_of [] = []
  hours_of (config ∷ rest) =
      let hours = hours_of rest in
      if nodes.tag config == "business_hours_config"
      then record {
        day_of_week = nodes.string_attr config "day_of_week";
        mode = nodes.string_attr config "mode";
        open_time = nodes.string_attr config "open_time";
        close_time = nodes.string_attr config "close_time";
      }
        ∷ hours
      else hours

  unfoldable pub categories_of : List Node → List BusinessCategory
  categories_of [] = []
  categories_of (cat ∷ rest) =
      let categories = categories_of rest in
      if nodes.tag cat == "category"
      then record { id = nodes.string_attr cat "id"; name = get_string_content cat } ∷ categories
      else categories

  unfoldable pub options_of : Dict String → List Node → Dict String
  options_of options [] = options
  options_of options (option ∷ rest) =
      options_of (insert (nodes.tag option) (get_string_content option) options) rest

  -- The content of a child.
  abbrev child_text : Node → String → String
  child_text node tag = get_string_content (nodes.get_child_by_tag node tag)

  module _ (parse_float : String → String) where
    unfoldable pub profile_of : Jid → Node → BusinessProfileResponse
    profile_of profile_jid profile =
        let hours = nodes.get_child_by_tag profile "business_hours" in
        record {
          id = profile_jid.user;
          address = child_text profile "address";
          email = child_text profile "email";
          description = child_text profile "description";
          website = child_text profile "website";
          latitude = parse_float (child_text profile "latitude");
          longitude = parse_float (child_text profile "longitude");
          member_since = child_text profile "member_since_text";
          categories =
              categories_of (nodes.get_children (nodes.get_child_by_tag profile "categories"));
          business_hours = hours_of (nodes.get_children hours);
          business_hours_time_zone = nodes.string_attr hours "timezone";
          profile_options =
              options_of [] (nodes.get_children (nodes.get_child_by_tag profile "profile_options"));
        }

    -- What `getBusinessProfileIQ` does with the answer to its query.
    unfoldable pub read_profile : Node → Result ProfileError BusinessProfileResponse
    read_profile resp = elim (nodes.get_optional_child_by_tag resp "business_profile") [
      | none ↦ err no_business_profile
      | some business ↦
          let profile = nodes.get_child_by_tag business "profile" in
          elim (nodes.jid_attr profile "jid") [
            | none ↦ err missing_jid
            | some profile_jid ↦ ok (profile_of profile_jid profile)
          ]
    ]

    -- `GetBusinessProfile`; `query` is the `SendIQ` for a JID, with its error or the answer.
    unfoldable pub get_business_profile :
        WaTypes → (Jid → Result String Node) → String → Result ProfileError BusinessProfileResponse
    get_business_profile wt query chat_id = elim (parse_jid wt chat_id) [
      | err e ↦ err (invalid_jid e)
      | ok jid ↦ elim (query jid) [ err e ↦ err (query_failed e) | ok resp ↦ read_profile resp ]
    ]
