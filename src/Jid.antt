-- ===== src/Jid.antt =====
-- internal/whatsapp/jid.go: texts of the API as JIDs of WhatsApp.
use wsapi_app.Common.{Bool, not, String, ◌==◌, none, some, if◌then◌else◌, Result, ok, err}
use wsapi_app.Whatsmeow.{Jid, jid_of, WaTypes}
use wsapi_app.Validate.{trim_plus, has_at}

pub data JidError : Type 0 where
  no_server invalid_jid : JidError

-- `CleanJID`
unfoldable pub clean_jid : Jid → Jid
clean_jid jid = record jid { device = 0 }

module _ (wt : WaTypes) where
  -- `parseJID`
  unfoldable pub parse_jid : String → Result JidError Jid
  parse_jid s =
      if not (has_at s)
      then err no_server
      else elim (wt.parse_jid s) [ none ↦ err invalid_jid | some jid ↦ ok jid ]

  -- `isGroup`
  unfoldable pub is_group : Jid → Bool
  is_group jid = jid.server == wt.group_server

  -- `FormatRecipient`
  unfoldable pub format_recipient : String → Jid
  format_recipient to =
      let to' = trim_plus to in
      if has_at to'
      then elim (wt.parse_jid to') [ none ↦ jid_of to' wt.default_user_server | some jid ↦ jid ]
      else jid_of to' wt.default_user_server
