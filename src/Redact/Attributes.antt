-- ===== src/Redact/Attributes.antt =====
-- internal/logging/redact.go: the handler's treatment of the attributes of a log record.
pub mod Safe
use wsapi_app.Common.{Bool, String, Option, none, some, List, contains, if◌then◌else◌}
use wsapi_app.Redact.{Json, text, placeholder, redact_value}

-- `slog.Attr` and the kinds of `slog.Value` that are told apart. A `slog.LogValuer`
-- stands with the value to which `Resolve` leads.
mutual
  pub data Value : Type 0 where
    nil : Value
    raw_message : Option String → Value  -- `json.RawMessage`
    bytes : String → Value
    str : String → Value
    -- any other value, with what `json.Marshal` returns for it
    other : Option String → Value
    group : Attrs → Value
    log_valuer : Value → Value

  pub data Attrs : Type 0 where
    no_attr : Attrs
    attr : String → Value → Attrs → Attrs

-- What is called of encoding/json; `none` is an error.
pub record JsonCodec : Type 0 where
  pub unmarshal : String → Option Json
  pub marshal : Json → Option String
  pub is_valid : String → Bool
  pub marshal_group : Attrs → Option String

-- `"` + redactedPlaceholder + `"`
abbrev pub quoted_placeholder : String
quoted_placeholder = "\"[REDACTED]\""

module _ (codec : JsonCodec) where
  -- `RedactJSON`
  unfoldable pub redact_json : List String → String → String
  redact_json fields payload = elim (codec.unmarshal payload) [
    | none ↦ quoted_placeholder
    | some parsed ↦ elim (codec.marshal (redact_value fields parsed)) [
      | none ↦ quoted_placeholder
      | some out ↦ out
    ]
  ]

  -- The end of `deepRedactAttr`, where `none` is a nil `raw`.
  unfoldable pub redact_raw : List String → Option String → Value
  redact_raw fields none = str placeholder
  redact_raw fields (some raw) = raw_message (some (redact_json fields raw))

  -- The value that `deepRedactAttr` gives an attribute.
  unfoldable pub deep_redact : List String → Value → Value
  deep_redact fields nil = nil
  deep_redact fields (raw_message raw) = redact_raw fields raw
  deep_redact fields (bytes b) = redact_raw fields (if codec.is_valid b then some b else none)
  deep_redact fields (str s) = redact_raw fields (codec.marshal (text s))
  deep_redact fields (other marshalled) = redact_raw fields marshalled
  deep_redact fields (group attrs) = redact_raw fields (codec.marshal_group attrs)
  deep_redact fields (log_valuer v) = deep_redact fields v

  -- `redactAttr`, on all attributes of a record as `Handle` does, or of `WithAttrs`, or of a group.
  mutual
    unfolding deep_redact redact_raw redact_json

    pub redact_attrs : List String → List String → Attrs → Attrs
    redact_attrs deep fields no_attr = no_attr
    redact_attrs deep fields (attr k v attrs) =
        let inside = redact_group deep fields v in
        attr k (if contains k deep then deep_redact fields v else inside)
          (redact_attrs deep fields attrs)

    pub redact_group : List String → List String → Value → Value
    redact_group deep fields nil = nil
    redact_group deep fields (raw_message raw) = raw_message raw
    redact_group deep fields (bytes b) = bytes b
    redact_group deep fields (str s) = str s
    redact_group deep fields (other marshalled) = other marshalled
    redact_group deep fields (group attrs) = group (redact_attrs deep fields attrs)
    -- `Kind` does not resolve the value.
    redact_group deep fields (log_valuer v) = log_valuer v
