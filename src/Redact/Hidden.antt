-- ===== src/Redact/Hidden.antt =====
-- What a redacted document shows.
use wsapi_app.Common.{◌≡◌, refl, ap, true, String, List, contains, arith, Bool-cases, inl, inr, ◌↔◌}
use wsapi_app.Redact.{
  Json, null, boolean, number, text, array, object, Items, no_item, item, Members, no_member,
  member, placeholder, redact_value, redact_items, redact_members,
}

-- At every depth, the value of a sensitive field is the placeholder.
mutual
  pub IsHidden : List String → Json → Type 0
  IsHidden fields null = Unit
  IsHidden fields (boolean b) = Unit
  IsHidden fields (number n) = Unit
  IsHidden fields (text s) = Unit
  IsHidden fields (array items) = AreHidden fields items
  IsHidden fields (object members) = HaveHidden fields members

  pub AreHidden : List String → Items → Type 0
  AreHidden fields no_item = Unit
  AreHidden fields (item v items) = IsHidden fields v × AreHidden fields items

  pub HaveHidden : List String → Members → Type 0
  HaveHidden fields no_member = Unit
  HaveHidden fields (member k v members) =
      (contains k fields ≡ true → v ≡ text placeholder)
      × IsHidden fields v
      × HaveHidden fields members

mutual
  unfolding redact_value IsHidden

  value-IsHidden : (fields : List String) (v : Json) → IsHidden fields (redact_value fields v)
  value-IsHidden fields null = tt
  value-IsHidden fields (boolean b) = tt
  value-IsHidden fields (number n) = tt
  value-IsHidden fields (text s) = tt
  value-IsHidden fields (array items) = items-AreHidden fields items
  value-IsHidden fields (object members) = members-HaveHidden fields members

  items-AreHidden :
      (fields : List String) (items : Items) → AreHidden fields (redact_items fields items)
  items-AreHidden fields no_item = tt
  items-AreHidden fields (item v items) = (value-IsHidden fields v, items-AreHidden fields items)

  members-HaveHidden :
      (fields : List String) (members : Members) → HaveHidden fields (redact_members fields members)
  members-HaveHidden fields no_member = tt
  members-HaveHidden fields (member k v members) = elim (Bool-cases (contains k fields)) [
    | inl e ↦ rw e (λ h. refl, tt, members-HaveHidden fields members)
    | inr e ↦
        rw e
          (λ h. absurd (ground arith), value-IsHidden fields v, members-HaveHidden fields members)
  ]

mutual
  unfolding redact_value IsHidden

  hidden-value : (fields : List String) (v : Json) → IsHidden fields v → redact_value fields v ≡ v
  hidden-value fields null h = refl
  hidden-value fields (boolean b) h = refl
  hidden-value fields (number n) h = refl
  hidden-value fields (text s) h = refl
  hidden-value fields (array items) h = ap array (hidden-items fields items h)
  hidden-value fields (object members) h = ap object (hidden-members fields members h)

  hidden-items :
      (fields : List String) (items : Items)
      → AreHidden fields items
      → redact_items fields items ≡ items
  hidden-items fields no_item h = refl
  hidden-items fields (item v items) h =
      λ i. item (hidden-value fields v h.0 i) (hidden-items fields items h.1 i)

  hidden-members :
      (fields : List String) (members : Members)
      → HaveHidden fields members
      → redact_members fields members ≡ members
  hidden-members fields no_member h = refl
  hidden-members fields (member k v members) h =
      let rest = hidden-members fields members h.2 in
      elim (Bool-cases (contains k fields)) [
        | inl e ↦ rw (e, h.0 e, rest)
        | inr e ↦ rw (e, hidden-value fields v h.1, rest)
      ]

-- In a redacted document no sensitive field survives: at every depth, also in arrays, the value of
-- a field whose name is sensitive is the placeholder.
pub redact_hides : (fields : List String) (v : Json) → IsHidden fields (redact_value fields v)
redact_hides fields v = value-IsHidden fields v

-- Redaction leaves a document as it is exactly if its sensitive fields are hidden already; so a
-- document without sensitive fields is logged unchanged, and a second redaction changes nothing.
redact_unchanged_iff :
    (fields : List String) (v : Json) → (redact_value fields v ≡ v) ↔ IsHidden fields v
redact_unchanged_iff fields v = (λ h. rw h at (redact_hides fields v), λ h. hidden-value fields v h)
