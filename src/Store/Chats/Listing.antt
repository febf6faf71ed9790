-- ===== src/Store/Chats/Listing.antt =====
-- `List` of internal/whatsapp/chatstore.go: the chats of an account, the latest activity first and
-- those without activity last. Rows with the same activity come in an order of the database's
-- choice; here it is that of the table.
use wsapi_app.Common.{
  Bool, true, false, String, none, some, List, [], ◌∷◌, ltb, if◌then◌else◌, Result, ok, err,
}
use wsapi_app.Common.Dict.{Dict}
use wsapi_app.Store.Chats.{
  ChatRecord, ChatRow, ChatTable, ChatStoreError, database_failed, chats_of, scan,
}

-- Whether a row comes before another by `last_activity DESC NULLS LAST`.
unfoldable pub is_before : ChatRow → ChatRow → Bool
is_before row other = elim row.last_activity [
  | none ↦ false
  | some t ↦ elim other.last_activity [ none ↦ true | some t' ↦ ltb t' t ]
]

unfoldable pub insert_row : String × ChatRow → Dict ChatRow → Dict ChatRow
insert_row entry [] = entry ∷ []
insert_row entry (other ∷ rest) =
    let inserted = insert_row entry rest in
    if is_before other.1 entry.1 then other ∷ inserted else entry ∷ other ∷ rest

-- `ORDER BY last_activity DESC NULLS LAST`
unfoldable pub by_activity : Dict ChatRow → Dict ChatRow
by_activity [] = []
by_activity (entry ∷ rest) = insert_row entry (by_activity rest)

-- The loop over the rows.
unfoldable pub scan_all : String → Dict ChatRow → List ChatRecord
scan_all our_jid [] = []
scan_all our_jid ((chat_jid, row) ∷ rest) = scan our_jid chat_jid row ∷ scan_all our_jid rest

-- `List`
unfoldable pub list : Bool → String → ChatTable → Result ChatStoreError (List ChatRecord)
list db_ok our_jid rows =
    if db_ok
    then ok (scan_all our_jid (by_activity (chats_of our_jid rows)))
    else err database_failed
