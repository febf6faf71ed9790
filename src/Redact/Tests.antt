-- ===== src/Redact/Tests.antt =====
-- The theorems about redaction at a message event.
use wsapi_app.Common.{refl, true, none, some}
use wsapi_app.Redact.{
  Json, text, array, object, no_item, item, Members, no_member, member, default_deep_redact_keys,
  default_sensitive_fields,
}
use wsapi_app.Redact.Attributes.{
  other, group, log_valuer, Attrs, no_attr, attr, JsonCodec, redact_attrs,
}
use wsapi_app.Redact.Attributes.Safe.{AreSafe, AreResolved, yields_group, logged_attrs_safe}

abbrev fields : Members
fields = member "id" (text "m1") (member "text" (text "hello") no_member)

abbrev document : Json
document = object (member "messages" (array (item (object fields) no_item)) no_member)

abbrev codec : JsonCodec
codec = record {
  unmarshal = λ s. some document;
  marshal = λ v. some "{}";
  is_valid = λ s. true;
  marshal_group = λ a. none;
}

abbrev attrs : Attrs
attrs =
    attr "request" (group (attr "eventData" (log_valuer (group no_attr)) no_attr))
      (attr "size" (log_valuer (other (some "5"))) no_attr)

logged_attrs_safe_example :
    AreSafe codec default_deep_redact_keys default_sensitive_fields
      (redact_attrs codec default_deep_redact_keys default_sensitive_fields attrs)
unfolding AreResolved yields_group
logged_attrs_safe_example =
    logged_attrs_safe codec default_deep_redact_keys default_sensitive_fields attrs
      (λ h. (λ h'. cc, tt), (λ h. refl, tt))
