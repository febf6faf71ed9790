-- ===== src/Redact.antt =====
-- internal/logging/redact.go: the fields that are hidden from the log. encoding/json is a parameter.
pub mod Hidden
pub mod Attributes
mod Tests
use wsapi_app.Common.{
  Bool, true, false, String, ◌==◌, Option, none, some, List, [], ◌∷◌, contains, if◌then◌else◌,
}

-- What `json.Unmarshal` makes: Go's maps and slices as lists of members and of items.
mutual
  pub data Json : Type 0 where
    null : Json
    boolean : Bool → Json
    number : String → Json
    text : String → Json
    array : Items → Json
    object : Members → Json

  pub data Items : Type 0 where
    no_item : Items
    item : Json → Items → Items

  pub data Members : Type 0 where
    no_member : Members
    member : String → Json → Members → Members

abbrev pub placeholder : String
placeholder = "[REDACTED]"

-- `DefaultDeepRedactKeys`
abbrev pub default_deep_redact_keys : List String
default_deep_redact_keys = "eventData" ∷ []

-- `DefaultSensitiveFields`
abbrev pub default_sensitive_fields : List String
default_sensitive_fields =
    "text" ∷ "caption" ∷ "contact" ∷ "contactArray" ∷ "jpegThumbnail" ∷ "filename" ∷ "matchedText"
    ∷ "title" ∷ "description" ∷ "topic" ∷ "pushName" ∷ "fullName" ∷ []

-- `redactValue`, whose writes through the map are its result.
mutual
  pub redact_value : List String → Json → Json
  redact_value fields null = null
  redact_value fields (boolean b) = boolean b
  redact_value fields (number n) = number n
  redact_value fields (text s) = text s
  redact_value fields (array items) = array (redact_items fields items)
  redact_value fields (object members) = object (redact_members fields members)

  pub redact_items : List String → Items → Items
  redact_items fields no_item = no_item
  redact_items fields (item v items) = item (redact_value fields v) (redact_items fields items)

  pub redact_members : List String → Members → Members
  redact_members fields no_member = no_member
  redact_members fields (member k v members) =
      let deeper = redact_value fields v in
      member k (if contains k fields then text placeholder else deeper)
        (redact_members fields members)
