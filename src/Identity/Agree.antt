-- ===== src/Identity/Agree.antt =====
-- Which identity `Resolve` gives to the JIDs of one user.
use Prim.Native.String.{◌++◌}
use wsapi_app.Common.{ℕ, ◌≡◌, ◌≢◌, refl, false, String, ◌==◌, Option, none, some, eq_refl, eq_false}
use wsapi_app.Whatsmeow.{Jid, jid_of, empty_jid, WaTypes, IsWaTypes, LidStore}
use wsapi_app.Identity.{
  Identity, categorize, fill_missing, user_or, primary_id, format_lid, resolve,
}

module _ (wt : WaTypes) where
  open wt use {default_user_server, hidden_user_server}

  -- The two JIDs of a user, on a device.
  abbrev pub pn_jid : String → ℕ → Jid
  pn_jid user device = record (jid_of user default_user_server) { device = device }

  abbrev pub lid_jid : String → ℕ → Jid
  lid_jid user device = record (jid_of user hidden_user_server) { device = device }

  -- The identity of a user whose phone and LID are both known.
  abbrev pub both : String → String → ℕ → Identity
  both phone lid device = record {
    id = phone ++ ("@" ++ default_user_server);
    lid = lid ++ ("@" ++ hidden_user_server);
    phone = phone;
    device = device;
  }

module _ (wt : WaTypes) (laws : IsWaTypes wt) where
  open wt use {default_user_server, hidden_user_server}

  server_differs : (hidden_user_server == default_user_server) ≡ false
  server_differs = eq_false _ _ laws.hidden-ne-default

  module _ (phone lid : String) (hp : phone ≢ "") (hl : lid ≢ "") where
    phone_set : (phone == "") ≡ false
    phone_set = eq_false phone "" hp

    lid_set : (lid == "") ≡ false
    lid_set = eq_false lid "" hl

    -- By its phone JID, with the LID store: the LID is filled in.
    resolve-pn :
        (device : ℕ) (lids : LidStore)
        → lids.get_lid_for_pn (pn_jid wt phone 0) ≡ some (lid_jid wt lid 0)
        → resolve wt (pn_jid wt phone device) empty_jid (some lids) ≡ both wt phone lid device
    unfolding resolve categorize fill_missing user_or primary_id format_lid
    resolve-pn device lids known = simp (phone_set, lid_set, eq_refl, known) refl

    resolve-lid :
        (device : ℕ) (lids : LidStore)
        → lids.get_pn_for_lid (lid_jid wt lid 0) ≡ some (pn_jid wt phone 0)
        → resolve wt (lid_jid wt lid device) empty_jid (some lids) ≡ both wt phone lid device
    unfolding resolve categorize fill_missing user_or primary_id format_lid
    resolve-lid device lids known = simp (phone_set, lid_set, eq_refl, server_differs, known) refl

    resolve-pn_alt :
        (device : ℕ) (lids : Option LidStore)
        → resolve wt (pn_jid wt phone device) (lid_jid wt lid 0) lids ≡ both wt phone lid device
    unfolding resolve categorize fill_missing user_or primary_id format_lid
    resolve-pn_alt device none = simp (phone_set, lid_set, eq_refl, server_differs) refl
    resolve-pn_alt device (some lids) = simp (phone_set, lid_set, eq_refl, server_differs) refl

    resolve-lid_alt :
        (device : ℕ) (lids : Option LidStore)
        → resolve wt (lid_jid wt lid device) (pn_jid wt phone 0) lids ≡ both wt phone lid device
    unfolding resolve categorize fill_missing user_or primary_id format_lid
    resolve-lid_alt device none = simp (phone_set, lid_set, eq_refl, server_differs) refl
    resolve-lid_alt device (some lids) = simp (phone_set, lid_set, eq_refl, server_differs) refl

-- One user has one identity: for a phone and a LID that are not empty, the phone JID and the LID
-- JID resolve to the same identity, which has both, through a LID store that maps each to the
-- other, and through the alternate JID of an event, whatever the LID store says or if there is none.
pub resolve_same_user :
    (wt : WaTypes) (phone lid : String) (device : ℕ) (lids : LidStore) (any : Option LidStore)
    → IsWaTypes wt
    → phone ≢ ""
    → lid ≢ ""
    → lids.get_lid_for_pn (pn_jid wt phone 0) ≡ some (lid_jid wt lid 0)
    → lids.get_pn_for_lid (lid_jid wt lid 0) ≡ some (pn_jid wt phone 0)
    → (resolve wt (pn_jid wt phone device) empty_jid (some lids) ≡ both wt phone lid device)
      × (resolve wt (lid_jid wt lid device) empty_jid (some lids) ≡ both wt phone lid device)
      × (resolve wt (pn_jid wt phone device) (lid_jid wt lid 0) any ≡ both wt phone lid device)
      × (resolve wt (lid_jid wt lid device) (pn_jid wt phone 0) any ≡ both wt phone lid device)
resolve_same_user wt phone lid device lids any laws hp hl to_lid to_pn = (
  resolve-pn wt laws phone lid hp hl device lids to_lid,
  resolve-lid wt laws phone lid hp hl device lids to_pn,
  resolve-pn_alt wt laws phone lid hp hl device any,
  resolve-lid_alt wt laws phone lid hp hl device any,
)
