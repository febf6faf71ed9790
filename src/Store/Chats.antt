-- ===== src/Store/Chats.antt =====
-- internal/whatsapp/chatstore.go: the table wsapi_chats, whose key is the account and the chat. The
-- two SQL dialects have one meaning. Whether the database fails is an argument.
pub mod Activity
pub mod Listing
pub mod Ordered
use wsapi_app.Common.{Bool, String, Option, none, some, [], if◌then◌else◌, Result, ok, err}
use wsapi_app.Common.Dict.{Dict, lookup, insert, remove}
use wsapi_app.Event.Types.{Time, is_zero}

pub record ChatRecord : Type 0 where
  pub our_jid : String
  pub chat_jid : String
  pub is_group : Bool
  pub last_activity : Time

-- A row of the table, without its key. `none` is NULL.
pub record ChatRow : Type 0 where
  pub is_group : Bool
  pub last_activity : Option Time

-- The rows of each account.
abbrev pub ChatTable : Type 0
ChatTable = Dict (Dict ChatRow)

pub data ChatStoreError : Type 0 where
  database_failed : ChatStoreError
  no_rows : ChatStoreError

-- `WHERE our_jid = ?`
unfoldable pub chats_of : String → ChatTable → Dict ChatRow
chats_of our_jid rows = elim (lookup our_jid rows) [ none ↦ [] | some chats ↦ chats ]

-- `WHERE our_jid = ? AND chat_jid = ?`
unfoldable pub find_chat : String → String → ChatTable → Option ChatRow
find_chat our_jid chat_jid rows = lookup chat_jid (chats_of our_jid rows)

-- `COALESCE(excluded.last_activity, wsapi_chats.last_activity)`
abbrev pub coalesce : Option Time → Option Time → Option Time
coalesce none old = old
coalesce (some t) old = some t

-- The row that `INSERT … ON CONFLICT(our_jid, chat_jid) DO UPDATE` leaves.
unfoldable pub upsert_row : ChatRecord → Option ChatRow → ChatRow
upsert_row rec old =
    let last_activity = if is_zero rec.last_activity then none else some rec.last_activity in
    elim old [
      | none ↦ record { is_group = rec.is_group; last_activity = last_activity }
      | some row ↦ record {
        is_group = rec.is_group;
        last_activity = coalesce last_activity row.last_activity;
      }
    ]

-- `Upsert`
unfoldable pub upsert : Bool → ChatRecord → ChatTable → Result ChatStoreError ChatTable
upsert db_ok rec rows =
    let row = upsert_row rec (find_chat rec.our_jid rec.chat_jid rows) in
    if db_ok
    then ok (insert rec.our_jid (insert rec.chat_jid row (chats_of rec.our_jid rows)) rows)
    else err database_failed

-- `Delete`; a chat with no row is no error.
unfoldable pub delete : Bool → String → String → ChatTable → Result ChatStoreError ChatTable
delete db_ok our_jid chat_jid rows =
    if db_ok
    then ok (insert our_jid (remove chat_jid (chats_of our_jid rows)) rows)
    else err database_failed

-- The scan of a row into a record.
unfoldable pub scan : String → String → ChatRow → ChatRecord
scan our_jid chat_jid row = record {
  our_jid = our_jid;
  chat_jid = chat_jid;
  is_group = row.is_group;
  last_activity = elim row.last_activity [ none ↦ 0 | some t ↦ t ];
}

-- `Get`
unfoldable pub get : Bool → String → String → ChatTable → Result ChatStoreError ChatRecord
get db_ok our_jid chat_jid rows =
    if db_ok
    then elim (find_chat our_jid chat_jid rows) [
      | none ↦ err no_rows
      | some row ↦ ok (scan our_jid chat_jid row)
    ]
    else err database_failed
