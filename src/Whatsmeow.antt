-- ===== src/Whatsmeow.antt =====
-- What the code uses of go.mau.fi/whatsmeow: the shape of a JID, and the library's functions as
-- parameters.
pub mod Proto
pub mod Samples
use wsapi_app.Common.{ℕ, ◌≡◌, ◌≢◌, Bool, ◌&&◌, String, ◌==◌, Option, none, eqb}

-- The struct `types.JID`.
pub record Jid : Type 0 where
  pub user : String
  pub raw_agent : ℕ
  pub device : ℕ
  pub integrator : ℕ
  pub server : String

-- `types.JID{User: user, Server: server}`
abbrev pub jid_of : String → String → Jid
jid_of user server = record {
  user = user;
  raw_agent = 0;
  device = 0;
  integrator = 0;
  server = server;
}

-- `types.EmptyJID`
abbrev pub empty_jid : Jid
empty_jid = jid_of "" ""

-- Go's `==` on two JIDs.
abbrev pub jid_eq : Jid → Jid → Bool
jid_eq a b =
    a.user == b.user
    && (eqb a.raw_agent b.raw_agent
        && (eqb a.device b.device && (eqb a.integrator b.integrator && a.server == b.server)))

-- `types.DefaultUserServer` and its siblings, `JID.String`, `JID.IsEmpty` and `types.ParseJID`
-- (`none` is its error).
pub record WaTypes : Type 0 where
  pub default_user_server : String
  pub hidden_user_server : String
  pub group_server : String
  pub broadcast_server : String
  pub status_broadcast_jid : Jid
  pub to_string : Jid → String
  pub is_empty : Jid → Bool
  pub parse_jid : String → Option Jid

-- The servers are different texts.
pub record IsWaTypes (w : WaTypes) : Type 0 where
  pub hidden-ne-default : w.hidden_user_server ≢ w.default_user_server

-- `store.LIDStore`; `none` is an error.
pub record LidStore : Type 0 where
  pub get_pn_for_lid : Jid → Option Jid
  pub get_lid_for_pn : Jid → Option Jid
