-- ===== src/Store/Chats/Activity.antt =====
-- What an upsert and a deletion of a chat leave to be read.
use wsapi_app.Common.{
  ◌≡◌, refl, ap, ◌∙◌, true, false, String, ◌==◌, ◌&&◌, Option, none, some, [], eq_refl, eq_iff,
  Result, ok, err, if◌then◌else◌, inl, inr, Bool-cases, Option-cases,
}
use wsapi_app.Common.Dict.{Dict, insert, remove, lookup-insert, lookup-remove}
use wsapi_app.Event.Types.{Time, is_zero}
use wsapi_app.Store.Chats.{
  ChatStoreError, ChatRecord, ChatRow, ChatTable, chats_of, find_chat, upsert_row, upsert, delete,
  scan, get,
}

-- The rows of an account after its rows are replaced.
chats_of-insert :
    (a b : String) (chats : Dict ChatRow) (rows : ChatTable)
    → chats_of b (insert a chats rows) ≡ (if a == b then chats else chats_of b rows)
unfolding chats_of
chats_of-insert a b chats rows =
    ap (λ o. elim o [ none ↦ [] | some cs ↦ cs ]) (lookup-insert a b chats rows)
    ∙ elim (Bool-cases (a == b)) [ inl e ↦ rw e refl | inr e ↦ rw e refl ]

-- A chat after one of an account is written.
find_chat-insert :
    (a c our chat : String) (row : ChatRow) (rows : ChatTable)
    → find_chat our chat (insert a (insert c row (chats_of a rows)) rows)
      ≡ (if a == our && c == chat then some row else find_chat our chat rows)
unfolding find_chat
find_chat-insert a c our chat row rows =
    rw (chats_of-insert a our (insert c row (chats_of a rows)) rows) (elim (Bool-cases (a == our)) [
      | inl e ↦ rw (e, lookup-insert, (eq_iff a our).0 e) refl
      | inr e ↦ rw e refl
    ])

find_chat-remove :
    (a c our chat : String) (rows : ChatTable)
    → find_chat our chat (insert a (remove c (chats_of a rows)) rows)
      ≡ (if a == our && c == chat then none else find_chat our chat rows)
unfolding find_chat
find_chat-remove a c our chat rows =
    rw (chats_of-insert a our (remove c (chats_of a rows)) rows) (elim (Bool-cases (a == our)) [
      | inl e ↦ rw (e, lookup-remove, (eq_iff a our).0 e) refl
      | inr e ↦ rw e refl
    ])

pub find_chat-upsert :
    (rec : ChatRecord) (rows rows' : ChatTable) (our chat : String)
    → upsert true rec rows ≡ ok rows'
    → find_chat our chat rows' ≡ (
        if rec.our_jid == our && rec.chat_jid == chat
        then some (upsert_row rec (find_chat rec.our_jid rec.chat_jid rows))
        else find_chat our chat rows)
unfolding upsert
find_chat-upsert rec rows rows' our chat h =
    let row = upsert_row rec (find_chat rec.our_jid rec.chat_jid rows) in
    let written : insert rec.our_jid (insert rec.chat_jid row (chats_of rec.our_jid rows)) rows
        ≡ rows' =
      cc in
    rw (← written) (find_chat-insert rec.our_jid rec.chat_jid our chat row rows)

pub find_chat-delete :
    (a c : String) (rows rows' : ChatTable) (our chat : String)
    → delete true a c rows ≡ ok rows'
    → find_chat our chat rows' ≡ (if a == our && c == chat then none else find_chat our chat rows)
unfolding delete
find_chat-delete a c rows rows' our chat h =
    let written : insert a (remove c (chats_of a rows)) rows ≡ rows' = cc in
    rw (← written) (find_chat-remove a c our chat rows)

-- The last activity of a chat that `get` returned; the zero time where it has no row.
abbrev known_activity : Result ChatStoreError ChatRecord → Time
known_activity (ok rec) = rec.last_activity
known_activity (err _) = 0

-- A record as it is read back after its upsert: a zero time keeps the activity that was known.
abbrev merged : ChatRecord → Time → ChatRecord
merged rec known = record rec {
  last_activity = if is_zero rec.last_activity then known else rec.last_activity;
}

get_scan :
    (rec : ChatRecord) (old : Option ChatRow) (known : Time)
    → known ≡ elim old [ none ↦ 0 | some row ↦ elim row.last_activity [ none ↦ 0 | some t ↦ t ] ]
    → scan rec.our_jid rec.chat_jid (upsert_row rec old) ≡ merged rec known
unfolding scan upsert_row
get_scan rec none known e = elim (Bool-cases (is_zero rec.last_activity)) [
  | inl z ↦ rw (z, e) refl
  | inr z ↦ rw z refl
]
get_scan rec (some row) known e = elim (Bool-cases (is_zero rec.last_activity)) [
  | inl z ↦ rw (z, e) refl
  | inr z ↦ rw z refl
]

known_activity-get :
    (our chat : String) (rows : ChatTable)
    → known_activity (get true our chat rows) ≡ elim (find_chat our chat rows) [
      | none ↦ 0
      | some row ↦ elim row.last_activity [ none ↦ 0 | some t ↦ t ]
    ]
unfolding get scan
known_activity-get our chat rows = elim (Option-cases (find_chat our chat rows)) [
  | inl e ↦ rw e refl
  | inr (row, e) ↦ rw e refl
]

get-cong :
    (our chat : String) (rows rows' : ChatTable)
    → find_chat our chat rows' ≡ find_chat our chat rows
    → get true our chat rows' ≡ get true our chat rows
unfolding get
get-cong our chat rows rows' e = rw e refl

get-found :
    (our chat : String) (row : ChatRow) (rows : ChatTable)
    → find_chat our chat rows ≡ some row
    → get true our chat rows ≡ ok (scan our chat row)
unfolding get
get-found our chat row rows e = rw e refl

-- With a database that works, a chat that was upserted is read back with the fields of the record,
-- except that a zero time keeps the last activity known before; a chat of another account or with
-- another JID reads as before.
get-upsert :
    (rec : ChatRecord) (rows rows' : ChatTable) (our chat : String)
    → upsert true rec rows ≡ ok rows'
    → (rec.our_jid == our && rec.chat_jid == chat) ≡ false
    → (get true rec.our_jid rec.chat_jid rows'
        ≡ ok (merged rec (known_activity (get true rec.our_jid rec.chat_jid rows))))
      × (get true our chat rows' ≡ get true our chat rows)
get-upsert rec rows rows' our chat h n =
    let old = find_chat rec.our_jid rec.chat_jid rows in
    (
      get-found rec.our_jid rec.chat_jid (upsert_row rec old) rows' (
            find_chat-upsert rec rows rows' rec.our_jid rec.chat_jid h
            ∙ rw (eq_refl rec.our_jid, eq_refl rec.chat_jid) refl)
          ∙ ap ok (get_scan rec old _ (known_activity-get rec.our_jid rec.chat_jid rows)),
      get-cong our chat rows rows' (find_chat-upsert rec rows rows' our chat h ∙ rw n refl),
    )
