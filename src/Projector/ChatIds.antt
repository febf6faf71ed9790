-- ===== src/Projector/ChatIds.antt =====
-- Chat IDs and the IDs of identities.
use Prim.Native.String.{◌++◌}
use wsapi_app.Common.{
  ◌≡◌, ◌≢◌, refl, sym, ◌∙◌, false, inl, inr, String, ◌==◌, Option, none, some, eq_false, eq_refl,
  ne_of_eq_false, Bool-cases, Option-cases,
}
use wsapi_app.Whatsmeow.{jid_of, empty_jid, WaTypes, IsWaTypes, LidStore}
use wsapi_app.Identity.{resolve, categorize, fill_missing, primary_id, user_or}
use wsapi_app.Projector.{project_chat_id, phone_or}

-- `JID.String` of a JID with a user and no device.
abbrev pub Prints : WaTypes → Type 0
Prints wt =
    (user server : String) → user ≢ "" → wt.to_string (jid_of user server) ≡ user ++ ("@" ++ server)

module _ (wt : WaTypes) (laws : IsWaTypes wt) (prints : Prints wt) (user : String)
    (set : user ≢ "") where
  open wt use {default_user_server, hidden_user_server}

  servers : (default_user_server == hidden_user_server) ≡ false
  servers = eq_false _ _ (λ e. laws.hidden-ne-default (sym e))

  servers' : (hidden_user_server == default_user_server) ≡ false
  servers' = eq_false _ _ laws.hidden-ne-default

  user_set : (user == "") ≡ false
  user_set = eq_false user "" set

  phone_chat :
      (lids : Option LidStore)
      → project_chat_id wt (jid_of user default_user_server) lids
        ≡ user ++ ("@" ++ default_user_server)
  unfolding project_chat_id
  phone_chat lids = rw servers (prints user default_user_server set)

  phone_identity :
      (lids : Option LidStore)
      → (resolve wt (jid_of user default_user_server) empty_jid lids).id
        ≡ user ++ ("@" ++ default_user_server)
  unfolding resolve categorize fill_missing user_or primary_id
  phone_identity none = simp (user_set, eq_refl) refl
  phone_identity (some store) = simp (user_set, eq_refl) refl

  lid_agrees :
      (lids : Option LidStore)
      → project_chat_id wt (jid_of user hidden_user_server) lids
        ≡ (resolve wt (jid_of user hidden_user_server) empty_jid lids).id
  unfolding project_chat_id resolve categorize fill_missing user_or primary_id phone_or
  lid_agrees none = simp (user_set, servers', eq_refl, prints user hidden_user_server set) refl
  lid_agrees (some store) =
      elim (Option-cases (store.get_pn_for_lid (jid_of user hidden_user_server))) [
        | inl e ↦ simp (user_set, servers', eq_refl, e, prints user hidden_user_server set) refl
        | inr (pn, e) ↦ elim (Bool-cases (pn.user == "")) [
          | inl z ↦
              simp (user_set, servers', eq_refl, e, z, prints user hidden_user_server set) refl
          | inr z ↦
              simp
                (
                  user_set,
                  servers',
                  eq_refl,
                  e,
                  z,
                  prints pn.user default_user_server (ne_of_eq_false pn.user "" z),
                )
                refl
        ]
      ]

-- The chat ID of a direct chat is the ID of the user's identity, for a phone JID and for a LID, with
-- a LID store, whatever it knows, and without one: a subscriber can join events of a chat with
-- events about its user.
pub chat_id_is_identity :
    (wt : WaTypes) (user : String) (lids : Option LidStore)
    → IsWaTypes wt
    → Prints wt
    → user ≢ ""
    → (project_chat_id wt (jid_of user wt.default_user_server) lids
        ≡ (resolve wt (jid_of user wt.default_user_server) empty_jid lids).id)
      × (project_chat_id wt (jid_of user wt.hidden_user_server) lids
          ≡ (resolve wt (jid_of user wt.hidden_user_server) empty_jid lids).id)
chat_id_is_identity wt user lids laws prints set = (
  phone_chat wt laws prints user set lids ∙ sym (phone_identity wt laws prints user set lids),
  lid_agrees wt laws prints user set lids,
)
