-- ===== src/Instance/Tracking/Recorded.antt =====
-- Which chats the event handler records.
use wsapi_app.Common.{
  ◌≡◌, refl, ◌∙◌, sym, Bool, true, false, ◌||◌, ◌&&◌, String, ◌==◌, Option, none, some, List, [],
  ◌∷◌, Bool-cases, Option-cases, eq_iff, inl, inr, if◌then◌else◌, ok, arith,
}
use wsapi_app.Whatsmeow.{Jid, WaTypes}
use wsapi_app.Event.Types.{Time}
use wsapi_app.Store.Chats.{ChatRecord, ChatRow, ChatTable, find_chat, upsert_row, chats_of}
use wsapi_app.Store.Chats
use wsapi_app.Common.Dict.{lookup}
use wsapi_app.Store.Chats.Activity.{find_chat-upsert, find_chat-delete}
use wsapi_app.Store.Contacts.{ContactTable}
use wsapi_app.Instance.Tracking.{
  WaEvent, Conversation, ignore_error, carries_chats, resolve_lid, skip_chat, track_chat,
  track_conversation, track_conversations, track_chats, track,
}

module _ (wt : WaTypes) where
  -- A row of a chat that is neither a LID, nor a broadcast, nor the account's own service chat, with
  -- the mark of a group where its server is that of the groups.
  abbrev pub IsChat : String → ChatRow → Type 0
  IsChat chat row =
      (j : Jid) × (wt.to_string j ≡ chat)
      × ((j.server == wt.hidden_user_server || skip_chat wt j) ≡ false)
      × (row.is_group ≡ (j.server == wt.group_server))

  abbrev pub AreChats : ChatTable → Type 0
  AreChats chats =
      (our chat : String) (row : ChatRow) → find_chat our chat chats ≡ some row → IsChat chat row

is_group-upsert_row :
    (rec : ChatRecord) (old : Option ChatRow) → (upsert_row rec old).is_group ≡ rec.is_group
unfolding upsert_row
is_group-upsert_row rec none = refl
is_group-upsert_row rec (some row) = refl

&&-true : (a b : Bool) → (a && b) ≡ true → (a ≡ true) × (b ≡ true)
&&-true a b h = ground arith

if-true : {A : Type 0} (b : Bool) (x y z : A) → b ≡ true → (if b then x else y) ≡ z → x ≡ z
if-true true x y z e h = h
if-true false x y z e h = cc

if-false : {A : Type 0} (b : Bool) (x y z : A) → b ≡ false → (if b then x else y) ≡ z → y ≡ z
if-false true x y z e h = cc
if-false false x y z e h = h

-- What the two writes keep: a property of the rows that the written row has.
module _ (P : String → ChatRow → Type 0) where
  abbrev pub Each : ChatTable → Type 0
  Each chats =
      (our chat : String) (row : ChatRow) → find_chat our chat chats ≡ some row → P chat row

  Each-upsert :
      (rec : ChatRecord) (chats chats' : ChatTable)
      → Each chats
      → P rec.chat_jid (upsert_row rec (find_chat rec.our_jid rec.chat_jid chats))
      → Chats.upsert true rec chats ≡ ok chats'
      → Each chats'
  Each-upsert rec chats chats' h new u our chat row f =
      let read = sym (find_chat-upsert rec chats chats' our chat u) ∙ f in
      elim (Bool-cases (rec.our_jid == our && rec.chat_jid == chat)) [
        | inl e ↦
            let read' = if-true _ _ _ _ e read in
            let written : upsert_row rec (find_chat rec.our_jid rec.chat_jid chats) ≡ row = cc in
            let same = (eq_iff rec.chat_jid chat).0 ((&&-true _ _ e).1) in
            rw (← same, ← written) new
        | inr e ↦ h our chat row (if-false _ _ _ _ e read)
      ]

  Each-delete :
      (a c : String) (chats chats' : ChatTable)
      → Each chats
      → Chats.delete true a c chats ≡ ok chats'
      → Each chats'
  Each-delete a c chats chats' h d our chat row f =
      let read = sym (find_chat-delete a c chats chats' our chat d) ∙ f in
      elim (Bool-cases (a == our && c == chat)) [
        | inl e ↦ let read' = if-true _ _ _ _ e read in cc
        | inr e ↦ h our chat row (if-false _ _ _ _ e read)
      ]

  Each-ignore_error-upsert :
      (db_ok : Bool) (rec : ChatRecord) (chats : ChatTable)
      → Each chats
      → P rec.chat_jid (upsert_row rec (find_chat rec.our_jid rec.chat_jid chats))
      → Each (ignore_error chats (Chats.upsert db_ok rec chats))
  unfolding ignore_error Chats.upsert
  Each-ignore_error-upsert false rec chats h new = h
  Each-ignore_error-upsert true rec chats h new = Each-upsert rec chats _ h new refl

  Each-ignore_error-delete :
      (db_ok : Bool) (a c : String) (chats : ChatTable)
      → Each chats
      → Each (ignore_error chats (Chats.delete db_ok a c chats))
  unfolding ignore_error Chats.delete
  Each-ignore_error-delete false a c chats h = h
  Each-ignore_error-delete true a c chats h = Each-delete a c chats _ h refl

module _ (wt : WaTypes) where
  AreChats-track_chat :
      (db_ok : Bool) (our : String) (jid : Jid) (t : Time) (chats : ChatTable)
      → AreChats wt chats
      → AreChats wt (track_chat wt db_ok our jid t chats)
  unfolding track_chat
  AreChats-track_chat db_ok our jid t chats h =
      elim (Bool-cases (jid.server == wt.hidden_user_server || skip_chat wt jid)) [
        | inl e ↦ rw e h
        | inr e ↦ rw e (
            Each-ignore_error-upsert (IsChat wt) db_ok _ chats h
              (jid, refl, e, is_group-upsert_row _ _))
      ]

module _ (wt : WaTypes) (alt_jid : Jid → Option Jid) where
  AreChats-track_conversation :
      (db_ok : Bool) (our : String) (conv : Option Conversation) (chats : ChatTable)
      → AreChats wt chats
      → AreChats wt (track_conversation wt alt_jid db_ok our conv chats)
  unfolding track_conversation
  AreChats-track_conversation db_ok our none chats h = h
  AreChats-track_conversation db_ok our (some conv) chats h =
      elim (Option-cases (wt.parse_jid conv.id)) [
        | inl e ↦ rw (e, track_conversation) h
        | inr (jid, e) ↦ rw (e, track_conversation) (AreChats-track_chat wt db_ok our _ _ chats h)
      ]

  AreChats-track_conversations :
      (our : String) (convs : List (Bool × Option Conversation)) (chats : ChatTable)
      → AreChats wt chats
      → AreChats wt (track_conversations wt alt_jid our convs chats)
  unfolding track_conversations
  AreChats-track_conversations our [] chats h = h
  AreChats-track_conversations our ((db_ok, conv) ∷ convs) chats h =
      AreChats-track_conversations our convs _ (AreChats-track_conversation db_ok our conv chats h)

  AreChats-track_chats :
      (db_ok : Bool) (our : String) (evt : WaEvent) (chats : ChatTable)
      → AreChats wt chats
      → AreChats wt (track_chats wt alt_jid db_ok our evt chats)
  unfolding track_chats
  AreChats-track_chats db_ok our (WaEvent.history_sync sync_type convs) chats h =
      elim (Bool-cases (carries_chats sync_type)) [
        | inl e ↦ rw e (AreChats-track_conversations our convs chats h)
        | inr e ↦ rw e h
      ]
  AreChats-track_chats db_ok our (WaEvent.message chat t) chats h =
      AreChats-track_chat wt db_ok our _ t chats h
  AreChats-track_chats db_ok our (WaEvent.delete_chat chat) chats h =
      let jid = resolve_lid wt alt_jid chat in
      elim (Bool-cases (jid.server == wt.hidden_user_server)) [
        | inl e ↦ rw e h
        | inr e ↦ rw e (Each-ignore_error-delete (IsChat wt) db_ok our (wt.to_string jid) chats h)
      ]
  AreChats-track_chats db_ok our (WaEvent.contact _ _) chats h = h
  AreChats-track_chats db_ok our WaEvent.unknown chats h = h

  -- The events of the accounts in order, each with whether its write succeeds.
  abbrev pub track_all :
      List (Bool × String × WaEvent) → ChatTable × ContactTable → ChatTable × ContactTable
  track_all [] tables = tables
  track_all ((db_ok, our, evt) ∷ evts) tables =
      track_all evts (track wt alt_jid db_ok our evt tables)

  AreChats-track :
      (db_ok : Bool) (our : String) (evt : WaEvent) (tables : ChatTable × ContactTable)
      → AreChats wt tables.0
      → AreChats wt (track wt alt_jid db_ok our evt tables).0
  unfolding track
  AreChats-track db_ok our evt (chats, contacts) h = elim (Bool-cases (our == "")) [
    | inl e ↦ rw e h
    | inr e ↦ rw e (AreChats-track_chats db_ok our evt chats h)
  ]

  AreChats-track_all :
      (evts : List (Bool × String × WaEvent)) (tables : ChatTable × ContactTable)
      → AreChats wt tables.0
      → AreChats wt (track_all evts tables).0
  AreChats-track_all [] tables h = h
  AreChats-track_all ((db_ok, our, evt) ∷ evts) tables h =
      AreChats-track_all evts _ (AreChats-track db_ok our evt tables h)

  AreChats-nil : AreChats wt []
  unfolding find_chat chats_of lookup
  AreChats-nil our chat row e = cc

  -- Whatever events arrive, for whichever accounts, and whichever writes of the database fail: a chat
  -- that has a row, from empty tables on, is named by a JID that is no LID, whose server is not that
  -- of broadcasts and whose user is not 0, and it is marked as a group where that JID's server is
  -- the server of groups.
  pub recorded-IsChat :
      (evts : List (Bool × String × WaEvent)) (our chat : String) (row : ChatRow)
      → find_chat our chat (track_all evts ([], [])).0 ≡ some row
      → IsChat wt chat row
  recorded-IsChat evts our chat row f = AreChats-track_all evts ([], []) AreChats-nil our chat row f
