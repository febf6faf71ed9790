-- ===== src/Validate/Tests.antt =====
-- The theorem about recipients at the address of a group.
use Prim.Native.String.{◌++◌}
use wsapi_app.Common.{◌≡◌, ◌≢◌, ◌⊎◌, refl, true, false, String, none, some}
use wsapi_app.Whatsmeow.{jid_of}
use wsapi_app.Whatsmeow.Samples.{sample_types}
use wsapi_app.Validate.{
  trim_plus, is_international, is_jid_user, has_at, recipient, cut_at, jid_user_rest, is_digits,
  all_chars,
}
use wsapi_app.Jid.{format_recipient}
use wsapi_app.Validate.Recipients.{recipient_routable}

abbrev address : String
address = "+123-456@g.us"

recipient_routable_example :
    ((is_international (trim_plus address) ≡ true)
      × (format_recipient sample_types address ≡ jid_of (trim_plus address) "s.whatsapp.net"))
    ⊎ ((user : String) × (server : String) × (trim_plus address ≡ user ++ ("@" ++ server))
        × (is_jid_user user ≡ true)
        × (server ≢ "")
        × (has_at server ≡ false)
        × (format_recipient sample_types address
            ≡ elim (sample_types.parse_jid (trim_plus address)) [
              | none ↦ jid_of (trim_plus address) "s.whatsapp.net"
              | some jid ↦ jid
            ]))
unfolding recipient cut_at is_jid_user jid_user_rest is_digits all_chars trim_plus has_at
recipient_routable_example = recipient_routable sample_types address refl
