-- ===== src/Store/Instances/RoundTrip.antt =====
-- What is saved is read back.
use Prim.Native.Char.{Char}
use text.Mathlib.TextLemmas.{cons-append, cons-ne-nil}
use wsapi_app.Common.{
  ◌≡◌, ◌≢◌, refl, ap, sym, ◌∙◌, true, String, Option, none, some, List, [], ◌∷◌, All, eq_refl,
  eq_false, ok,
}
use wsapi_app.Common.Dict.{Dict, lookup, insert, lookup-insert}
use wsapi_app.Event.Types.{Time}
use wsapi_app.Text.{is_space, trim_space, trim_left, trim_right, join}
use wsapi_app.Text.Lemmas.{AllChars, is_dark, is_other, trim_space-dark, split-join, AllChars-join}
use wsapi_app.Store.Instances.{
  InstanceRecord, Row, clean_parts, split_filters, upsert, save_instance, scan, get_instance,
}

abbrev comma : Char
comma = ","

-- A filter that the column can hold: not empty, with no comma and no space.
pub record IsFilter (f : String) : Type 0 where
  pub not_empty : f ≢ ""
  pub no_comma : AllChars (is_other comma) f
  pub no_space : AllChars is_dark f

clean_parts_id : (fs : List String) → All IsFilter fs → clean_parts fs ≡ fs
unfolding clean_parts
clean_parts_id [] h = refl
clean_parts_id (f ∷ fs) h =
    rw (trim_space-dark f h.0.no_space, eq_false f "" h.0.not_empty)
      (ap (λ t. f ∷ t) (clean_parts_id fs h.1))

commas : (fs : List String) → All IsFilter fs → All (AllChars (is_other comma)) fs
commas [] h = tt
commas (f ∷ fs) h = (h.0.no_comma, commas fs h.1)

spaces : (fs : List String) → All IsFilter fs → All (AllChars is_dark) fs
spaces [] h = tt
spaces (f ∷ fs) h = (h.0.no_space, spaces fs h.1)

dark_comma : AllChars is_dark ","
unfolding is_space
dark_comma = (refl, tt)

join-ne-empty : (f : String) (fs : List String) → f ≢ "" → join "," (f ∷ fs) ≢ ""
unfolding join
join-ne-empty f [] h e = h e
join-ne-empty String.[] (g ∷ fs) h e = h refl
join-ne-empty (String.◌∷◌ c f) (g ∷ fs) h e = cons-ne-nil c _ (sym (cons-append c f _) ∙ e)

-- The column gives back the filters that were written to it.
pub split_filters-join : (fs : List String) → All IsFilter fs → split_filters (join "," fs) ≡ fs
unfolding split_filters trim_space trim_left trim_right join
split_filters-join [] h = refl
split_filters-join (f ∷ fs) h =
    rw
      (
        trim_space-dark (join "," (f ∷ fs))
            (AllChars-join is_dark "," (f ∷ fs) dark_comma (spaces (f ∷ fs) h)),
        eq_false (join "," (f ∷ fs)) "" (join-ne-empty f fs h.0.not_empty),
        split-join comma f fs (commas (f ∷ fs) h),
      )
      (clean_parts_id (f ∷ fs) h)

-- A record with the fields of a save: the row keeps what the save does not set.
abbrev pub saved : Time → InstanceRecord → Option Row → InstanceRecord
saved now rec none = record rec {
  device_id = "";
  created_at = now;
  updated_at = now;
  logged_in_at = none;
  logged_out_at = none;
}
saved now rec (some row) = record rec {
  device_id = row.device_id;
  created_at = row.created_at;
  updated_at = now;
  logged_in_at = row.logged_in_at;
  logged_out_at = row.logged_out_at;
}

pub scan-upsert :
    (now : Time) (rec : InstanceRecord) (old : Option Row)
    → All IsFilter rec.event_filters
    → scan rec.id (upsert now rec old) ≡ saved now rec old
unfolding scan upsert
scan-upsert now rec none h = rw (split_filters-join rec.event_filters h)
scan-upsert now rec (some row) h = rw (split_filters-join rec.event_filters h)

-- Saving a record and reading it back, with a database that works and filters that the column can
-- hold: the configuration is the one that was saved, the filters included; the device and the login
-- times are those that the row had, and none for a new row. Every other row reads as before.
get-save :
    (now : Time) (rec : InstanceRecord) (rows rows' : Dict Row) (j : String)
    → All IsFilter rec.event_filters
    → save_instance true now rec rows ≡ ok rows'
    → rec.id ≢ j
    → (get_instance true rec.id rows' ≡ ok (saved now rec (lookup rec.id rows)))
      × (get_instance true j rows' ≡ get_instance true j rows)
unfolding save_instance get_instance
get-save now rec rows rows' j h s n =
    let written : insert rec.id (upsert now rec (lookup rec.id rows)) rows ≡ rows' = cc in
    (
      rw (← written, lookup-insert, eq_refl rec.id)
          (ap ok (scan-upsert now rec (lookup rec.id rows) h)),
      rw (← written, lookup-insert, eq_false rec.id j n),
    )
