-- ===== src/Identity.antt =====
-- internal/identity/identity.go: one identity for the two JIDs (phone and LID) of a user.
pub mod Agree
mod Tests
use Prim.Native.String.{◌++◌}
use wsapi_app.Common.{ℕ, Bool, not, ◌&&◌, String, ◌==◌, Option, none, some, if◌then◌else◌}
use wsapi_app.Whatsmeow.{Jid, jid_of, WaTypes, LidStore}

pub record Identity : Type 0 where
  pub id : String
  pub lid : String
  pub phone : String
  pub device : ℕ  -- uint16

-- `Sender` embeds `Identity`.
pub record Sender : Type 0 where
  pub identity : Identity
  pub is_me : Bool

-- `cleanJID`
unfoldable pub clean_jid : Jid → Jid
clean_jid jid = jid_of jid.user jid.server

module _ (wt : WaTypes) where
  open wt use {default_user_server, hidden_user_server, to_string}

  -- `categorize`: the two variables that it writes through pointers are its last argument and its
  -- result.
  unfoldable pub categorize : Jid → String × String → String × String
  categorize jid (phone, lid) =
      if jid.user == ""
      then (phone, lid)
      else if jid.server == default_user_server
      then (if phone == "" then jid.user else phone, lid)
      else if jid.server == hidden_user_server
      then (phone, if lid == "" then jid.user else lid)
      else (phone, lid)

  -- `formatLID`
  unfoldable pub format_lid : String → String
  format_lid user = if user == "" then "" else user ++ ("@" ++ hidden_user_server)

  -- `if x, err := …; err == nil && x.User != "" { y = x.User }`
  unfoldable pub user_or : Option Jid → String → String
  user_or none old = old
  user_or (some jid) old = if jid.user == "" then old else jid.user

  -- "If one side is still missing, try the LID store."
  unfoldable pub fill_missing : Option LidStore → String × String → String × String
  fill_missing none (phone, lid) = (phone, lid)
  fill_missing (some lids) (phone, lid) =
      if phone == "" && not (lid == "")
      then (user_or (lids.get_pn_for_lid (jid_of lid hidden_user_server)) phone, lid)
      else if lid == "" && not (phone == "")
      then (phone, user_or (lids.get_lid_for_pn (jid_of phone default_user_server)) lid)
      else (phone, lid)

  -- "Build the primary ID: prefer phone-based JID, fall back to LID."
  unfoldable pub primary_id : Jid → String × String → String
  primary_id jid (phone, lid) =
      if not (phone == "")
      then phone ++ ("@" ++ default_user_server)
      else if not (lid == "")
      then lid ++ ("@" ++ hidden_user_server)
      else to_string (clean_jid jid)

  unfoldable pub resolve : Jid → Jid → Option LidStore → Identity
  resolve jid alt lids =
      let found = fill_missing lids (categorize alt (categorize jid ("", ""))) in
      record {
        id = primary_id jid found;
        lid = format_lid found.1;
        phone = found.0;
        device = jid.device;
      }

  unfoldable pub resolve_sender : Jid → Bool → Jid → Option LidStore → Sender
  resolve_sender jid is_me alt lids = record { identity = resolve jid alt lids; is_me = is_me }
