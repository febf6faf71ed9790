-- ===== src/Redact/Attributes/Safe.antt =====
-- What the log shows of the attributes that are redacted in depth.
use wsapi_app.Common.{
  ◌≡◌, refl, ◌⊎◌, inl, inr, Bool, true, false, String, Option, none, some, List, contains, arith,
  if◌then◌else◌, Bool-cases, Option-cases,
}
use wsapi_app.Redact.{Json, text, placeholder, redact_value}
use wsapi_app.Redact.Hidden.{IsHidden, redact_hides}
use wsapi_app.Redact.Attributes.{
  Value, nil, raw_message, bytes, str, other, group, log_valuer, Attrs, no_attr, attr, JsonCodec,
  quoted_placeholder, redact_json, redact_raw, deep_redact, redact_attrs, redact_group,
}

module _ (codec : JsonCodec) where
  -- Nothing, the placeholder, or a document whose sensitive fields are hidden.
  abbrev pub IsSafeValue : List String → Value → Type 0
  IsSafeValue fields nil = Unit
  IsSafeValue fields (raw_message none) = ⊥
  IsSafeValue fields (raw_message (some d)) =
      (d ≡ quoted_placeholder) ⊎ ((v : Json) × (codec.marshal v ≡ some d) × IsHidden fields v)
  IsSafeValue fields (bytes b) = ⊥
  IsSafeValue fields (str s) = s ≡ placeholder
  IsSafeValue fields (other m) = ⊥
  IsSafeValue fields (group attrs) = ⊥
  IsSafeValue fields (log_valuer v) = IsSafeValue fields v

  -- Every attribute with such a key is safe, inside groups too, also those that a `LogValuer` yields.
  mutual
    pub AreSafe : List String → List String → Attrs → Type 0
    AreSafe deep fields no_attr = Unit
    AreSafe deep fields (attr k v attrs) =
        (contains k deep ≡ true → IsSafeValue fields v)
        × (contains k deep ≡ false → IsSafeGroup deep fields v)
        × AreSafe deep fields attrs

    pub IsSafeGroup : List String → List String → Value → Type 0
    IsSafeGroup deep fields nil = Unit
    IsSafeGroup deep fields (raw_message raw) = Unit
    IsSafeGroup deep fields (bytes b) = Unit
    IsSafeGroup deep fields (str s) = Unit
    IsSafeGroup deep fields (other m) = Unit
    IsSafeGroup deep fields (group attrs) = AreSafe deep fields attrs
    IsSafeGroup deep fields (log_valuer v) = IsSafeGroup deep fields v

  -- Does a `LogValuer` with this value yield a group?
  unfoldable pub yields_group : Value → Bool
  yields_group nil = false
  yields_group (raw_message raw) = false
  yields_group (bytes b) = false
  yields_group (str s) = false
  yields_group (other m) = false
  yields_group (group attrs) = true
  yields_group (log_valuer v) = yields_group v

  -- Outside the attributes that are redacted in depth, no `LogValuer` yields a group.
  unfoldable mutual
    pub AreResolved : List String → Attrs → Type 0
    AreResolved deep no_attr = Unit
    AreResolved deep (attr k v attrs) =
        (contains k deep ≡ false → IsResolved deep v) × AreResolved deep attrs

    pub IsResolved : List String → Value → Type 0
    IsResolved deep nil = Unit
    IsResolved deep (raw_message raw) = Unit
    IsResolved deep (bytes b) = Unit
    IsResolved deep (str s) = Unit
    IsResolved deep (other m) = Unit
    IsResolved deep (group attrs) = AreResolved deep attrs
    IsResolved deep (log_valuer v) = yields_group v ≡ false

  valuer_lem :
      (deep fields : List String) (v : Value) → yields_group v ≡ false → IsSafeGroup deep fields v
  unfolding yields_group AreSafe
  valuer_lem deep fields nil h = tt
  valuer_lem deep fields (raw_message raw) h = tt
  valuer_lem deep fields (bytes b) h = tt
  valuer_lem deep fields (str s) h = tt
  valuer_lem deep fields (other m) h = tt
  valuer_lem deep fields (group attrs) h = cc
  valuer_lem deep fields (log_valuer v) h = valuer_lem deep fields v h

  json_lem :
      (fields : List String) (payload : String)
      → (redact_json codec fields payload ≡ quoted_placeholder)
        ⊎ ((v : Json) × (codec.marshal v ≡ some (redact_json codec fields payload))
            × IsHidden fields v)
  unfolding redact_json
  json_lem fields payload = elim (Option-cases (codec.unmarshal payload)) [
    | inl bad ↦ rw (bad, redact_json) (inl refl)
    | inr (v, parsed) ↦
        rw (parsed, redact_json)
          (elim (Option-cases (codec.marshal (redact_value fields v))) [
            | inl bad ↦ rw (bad) (inl refl)
            | inr (d, printed) ↦
                rw (printed) (inr (redact_value fields v, printed, redact_hides fields v))
          ])
  ]

  raw_lem :
      (fields : List String) (raw : Option String)
      → IsSafeValue fields (redact_raw codec fields raw)
  unfolding redact_raw
  raw_lem fields none = refl
  raw_lem fields (some raw) = json_lem fields raw

  deep_lem : (fields : List String) (v : Value) → IsSafeValue fields (deep_redact codec fields v)
  unfolding deep_redact
  deep_lem fields nil = tt
  deep_lem fields (raw_message raw) = raw_lem fields raw
  deep_lem fields (bytes b) = raw_lem fields (if codec.is_valid b then some b else none)
  deep_lem fields (str s) = raw_lem fields (codec.marshal (text s))
  deep_lem fields (other m) = raw_lem fields m
  deep_lem fields (group attrs) = raw_lem fields (codec.marshal_group attrs)
  deep_lem fields (log_valuer v) = deep_lem fields v

  mutual
    unfolding redact_attrs AreSafe AreResolved

    attrs_lem :
        (deep fields : List String) (attrs : Attrs)
        → AreResolved deep attrs
        → AreSafe deep fields (redact_attrs codec deep fields attrs)
    attrs_lem deep fields no_attr r = tt
    attrs_lem deep fields (attr k v attrs) r = elim (Bool-cases (contains k deep)) [
      | inl e ↦
          rw e (λ h. deep_lem fields v, λ h. absurd (ground arith), attrs_lem deep fields attrs r.1)
      | inr e ↦
          let inside = r.0 e in
          rw e (
            λ h. absurd (ground arith),
            λ h. group_lem deep fields v inside,
            attrs_lem deep fields attrs r.1,
          )
    ]

    group_lem :
        (deep fields : List String) (v : Value)
        → IsResolved deep v
        → IsSafeGroup deep fields (redact_group codec deep fields v)
    group_lem deep fields nil r = tt
    group_lem deep fields (raw_message raw) r = tt
    group_lem deep fields (bytes b) r = tt
    group_lem deep fields (str s) r = tt
    group_lem deep fields (other m) r = tt
    group_lem deep fields (group attrs) r = attrs_lem deep fields attrs r
    group_lem deep fields (log_valuer v) r = valuer_lem deep fields v r

-- Of every attribute that is to be redacted in depth, wherever it stands in nested groups and
-- whatever its value is, a `LogValuer` included, the log shows nothing, the placeholder, or a document
-- in which every sensitive field is hidden; what cannot be parsed or marshalled is never shown. This
-- is so where no attribute outside those has a `LogValuer` that yields a group.
pub logged_attrs_safe :
    (codec : JsonCodec) (deep fields : List String) (attrs : Attrs)
    → AreResolved codec deep attrs
    → AreSafe codec deep fields (redact_attrs codec deep fields attrs)
logged_attrs_safe codec deep fields attrs resolved = attrs_lem codec deep fields attrs resolved

-- And there it fails: an attribute that is to be redacted in depth is logged as it is, inside a group
-- that a `LogValuer` yields.
valuer_group_shown :
    (codec : JsonCodec) (deep fields : List String) (k key : String) (v : Value)
    → contains k deep ≡ false
    → redact_attrs codec deep fields (attr k (log_valuer (group (attr key v no_attr))) no_attr)
      ≡ attr k (log_valuer (group (attr key v no_attr))) no_attr
unfolding redact_attrs
valuer_group_shown codec deep fields k key v h = rw h refl
