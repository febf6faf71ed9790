-- ===== src/Store/Instances.antt =====
-- internal/whatsapp/instancestore.go: the table wsapi_instances, one row for each ID. The two SQL
-- dialects have one meaning. Whether the database fails, and its clock, are arguments.
pub mod RoundTrip
use wsapi_app.Common.{
  ℕ, Bool, not, String, ◌==◌, Option, none, some, List, [], ◌∷◌, map, if◌then◌else◌, Result, ok,
  err,
}
use wsapi_app.Common.Dict.{Dict, lookup, insert, remove}
use wsapi_app.Event.Types.{Time}
use wsapi_app.Text.{trim_space, split, join}

pub record InstanceRecord : Type 0 where
  pub id : String
  pub device_id : String
  pub api_key : String
  pub webhook_url : String
  pub signing_secret : String
  pub event_filters : List String
  pub history_sync : Option Bool
  pub publish_events : Option Bool
  pub created_at : Time
  pub updated_at : Time
  pub logged_in_at : Option Time
  pub logged_out_at : Option Time

-- A row of the table, without its key. `none` is NULL.
pub record Row : Type 0 where
  pub device_id : String
  pub api_key : String
  pub webhook_url : String
  pub signing_secret : String
  pub event_filters : String
  pub history_sync : Option Bool
  pub publish_events : Option Bool
  pub created_at : Time
  pub updated_at : Time
  pub logged_in_at : Option Time
  pub logged_out_at : Option Time

pub data StoreError : Type 0 where
  database : StoreError
  instance_not_found : StoreError

-- The loop of `splitFilters`.
unfoldable pub clean_parts : List String → List String
clean_parts [] = []
clean_parts (p ∷ parts) =
    let rest = clean_parts parts in
    let p' = trim_space p in if not (p' == "") then p' ∷ rest else rest

-- `splitFilters`; a nil slice is the empty list.
unfoldable pub split_filters : String → List String
split_filters s = let s' = trim_space s in if s' == "" then [] else clean_parts (split b',' s')

-- The row that `INSERT … ON CONFLICT(id) DO UPDATE` leaves for a record.
unfoldable pub upsert : Time → InstanceRecord → Option Row → Row
upsert now rec old =
    let fresh : Row = record {
      device_id = "";
      api_key = rec.api_key;
      webhook_url = rec.webhook_url;
      signing_secret = rec.signing_secret;
      event_filters = join "," rec.event_filters;
      history_sync = rec.history_sync;
      publish_events = rec.publish_events;
      created_at = now;
      updated_at = now;
      logged_in_at = none;
      logged_out_at = none;
    } in
    elim old [
      | none ↦ fresh
      | some row ↦ record fresh {
        device_id = row.device_id;
        created_at = row.created_at;
        logged_in_at = row.logged_in_at;
        logged_out_at = row.logged_out_at;
      }
    ]

-- `SaveInstance`
unfoldable pub save_instance :
    Bool → Time → InstanceRecord → Dict Row → Result StoreError (Dict Row)
save_instance db_ok now rec rows =
    if db_ok then ok (insert rec.id (upsert now rec (lookup rec.id rows)) rows) else err database

-- The scan of a row into a record.
unfoldable pub scan : String → Row → InstanceRecord
scan id row = record {
  id = id;
  device_id = row.device_id;
  api_key = row.api_key;
  webhook_url = row.webhook_url;
  signing_secret = row.signing_secret;
  event_filters = split_filters row.event_filters;
  history_sync = row.history_sync;
  publish_events = row.publish_events;
  created_at = row.created_at;
  updated_at = row.updated_at;
  logged_in_at = row.logged_in_at;
  logged_out_at = row.logged_out_at;
}

-- `GetInstance`
unfoldable pub get_instance : Bool → String → Dict Row → Result StoreError InstanceRecord
get_instance db_ok id rows =
    if db_ok
    then elim (lookup id rows) [ none ↦ err instance_not_found | some row ↦ ok (scan id row) ]
    else err database

-- `ListInstances`; rows are kept in the order in which they were created.
unfoldable pub list_instances : Bool → Dict Row → Result StoreError (List InstanceRecord)
list_instances db_ok rows = if db_ok then ok (map (λ p. scan p.0 p.1) rows) else err database

-- `DeleteInstance`
unfoldable pub delete_instance : Bool → String → Dict Row → Result StoreError (Dict Row)
delete_instance db_ok id rows =
    if db_ok
    then elim (lookup id rows) [ none ↦ err instance_not_found | some _ ↦ ok (remove id rows) ]
    else err database

-- The columns that `UpdateDeviceState` sets.
unfoldable pub set_device : Time → String → Bool → Row → Row
set_device now device_id logged_in row =
    if logged_in
    then record row {
      device_id = device_id;
      updated_at = now;
      logged_in_at = some now;
      logged_out_at = none;
    }
    else record row { device_id = ""; updated_at = now; logged_out_at = some now }

-- `UpdateDeviceState`; an ID with no row is no error.
unfoldable pub update_device_state :
    Bool → Time → String → String → Bool → Dict Row → Result StoreError (Dict Row)
update_device_state db_ok now id device_id logged_in rows =
    if db_ok
    then elim (lookup id rows) [
      | none ↦ ok rows
      | some row ↦ ok (insert id (set_device now device_id logged_in row) rows)
    ]
    else err database
