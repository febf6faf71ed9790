-- ===== src/Identity/Tests.antt =====
-- The theorems about identities at a user with the phone 234567 and the LID 99.
use wsapi_app.Common.{◌≡◌, ◌≢◌, refl, String, none, some, arith, eq_iff}
use wsapi_app.Whatsmeow.{jid_of, empty_jid, LidStore}
use wsapi_app.Whatsmeow.Samples.{sample_types, sample_types-IsWaTypes}
use wsapi_app.Identity.{resolve}
use wsapi_app.Identity.Agree.{pn_jid, lid_jid, both, resolve_same_user}

abbrev lids : LidStore
lids = record {
  get_pn_for_lid = λ j. some (jid_of "234567" "s.whatsapp.net");
  get_lid_for_pn = λ j. some (jid_of "99" "lid");
}

phone_not_empty : ◌≢◌ {A = String} "234567" ""
phone_not_empty = ground (arith, eq_iff "234567" "")

lid_not_empty : ◌≢◌ {A = String} "99" ""
lid_not_empty = ground (arith, eq_iff "99" "")

resolve_same_user_example :
    let wt = sample_types in
    (resolve wt (pn_jid wt "234567" 3) empty_jid (some lids) ≡ both wt "234567" "99" 3)
    × (resolve wt (lid_jid wt "99" 3) empty_jid (some lids) ≡ both wt "234567" "99" 3)
    × (resolve wt (pn_jid wt "234567" 3) (lid_jid wt "99" 0) none ≡ both wt "234567" "99" 3)
    × (resolve wt (lid_jid wt "99" 3) (pn_jid wt "234567" 0) none ≡ both wt "234567" "99" 3)
resolve_same_user_example =
    resolve_same_user sample_types "234567" "99" 3 lids none sample_types-IsWaTypes phone_not_empty
      lid_not_empty refl refl
