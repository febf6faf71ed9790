-- ===== src/Store/Contacts.antt =====
-- internal/whatsapp/contactstore.go: the table wsapi_contacts, whose key is the account and the
-- contact. The two SQL dialects have one meaning. Whether the database fails is an argument.
use wsapi_app.Common.{Bool, String, none, some, List, [], ◌∷◌, if◌then◌else◌, Result, ok, err}
use wsapi_app.Common.Dict.{Dict, lookup, insert, remove}

pub record ContactRecord : Type 0 where
  pub our_jid : String
  pub contact_jid : String
  pub contact_lid : String
  pub first_name : String
  pub full_name : String
  pub in_phone_address_book : Bool

-- A row of the table, without its key.
pub record ContactRow : Type 0 where
  pub contact_lid : String
  pub first_name : String
  pub full_name : String
  pub in_phone_addressbook : Bool

-- The rows of each account.
abbrev pub ContactTable : Type 0
ContactTable = Dict (Dict ContactRow)

pub data ContactStoreError : Type 0 where
  database_failed : ContactStoreError
  no_rows : ContactStoreError

-- `WHERE our_jid = ?`
unfoldable pub contacts_of : String → ContactTable → Dict ContactRow
contacts_of our_jid rows = elim (lookup our_jid rows) [ none ↦ [] | some contacts ↦ contacts ]

-- `Upsert`: the conflict clause sets every column that is not of the key.
unfoldable pub upsert : Bool → ContactRecord → ContactTable → Result ContactStoreError ContactTable
upsert db_ok rec rows =
    let row : ContactRow = record {
      contact_lid = rec.contact_lid;
      first_name = rec.first_name;
      full_name = rec.full_name;
      in_phone_addressbook = rec.in_phone_address_book;
    } in
    if db_ok
    then ok (insert rec.our_jid (insert rec.contact_jid row (contacts_of rec.our_jid rows)) rows)
    else err database_failed

-- `Delete`; a contact with no row is no error.
unfoldable pub delete :
    Bool → String → String → ContactTable → Result ContactStoreError ContactTable
delete db_ok our_jid contact_jid rows =
    if db_ok
    then ok (insert our_jid (remove contact_jid (contacts_of our_jid rows)) rows)
    else err database_failed

-- The scan of a row into a record.
unfoldable pub scan : String → String → ContactRow → ContactRecord
scan our_jid contact_jid row = record {
  our_jid = our_jid;
  contact_jid = contact_jid;
  contact_lid = row.contact_lid;
  first_name = row.first_name;
  full_name = row.full_name;
  in_phone_address_book = row.in_phone_addressbook;
}

-- `Get`
unfoldable pub get : Bool → String → String → ContactTable → Result ContactStoreError ContactRecord
get db_ok our_jid contact_jid rows =
    if db_ok
    then elim (lookup contact_jid (contacts_of our_jid rows)) [
      | none ↦ err no_rows
      | some row ↦ ok (scan our_jid contact_jid row)
    ]
    else err database_failed

-- The order of texts is the database's: `name_lt` says which of two names comes first.
module _ (name_lt : String → String → Bool) where
  unfoldable pub insert_contact : ContactRecord → List ContactRecord → List ContactRecord
  insert_contact rec [] = rec ∷ []
  insert_contact rec (other ∷ rest) =
      let inserted = insert_contact rec rest in
      if name_lt other.full_name rec.full_name then other ∷ inserted else rec ∷ other ∷ rest

  -- The loop over the rows, in the order of `ORDER BY full_name`.
  unfoldable pub scan_by_name : String → Dict ContactRow → List ContactRecord
  scan_by_name our_jid [] = []
  scan_by_name our_jid ((contact_jid, row) ∷ rest) =
      insert_contact (scan our_jid contact_jid row) (scan_by_name our_jid rest)

  -- `List`
  unfoldable pub list : Bool → String → ContactTable → Result ContactStoreError (List ContactRecord)
  list db_ok our_jid rows =
      if db_ok then ok (scan_by_name our_jid (contacts_of our_jid rows)) else err database_failed
