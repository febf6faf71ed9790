-- ===== src/Instance/Tracking/Refines.antt =====
-- The table of chats that the event handler keeps, as an account of what it has observed of each chat.
use wsapi_app.Common.{
  ◌≡◌, refl, ap, ◌∙◌, sym, Bool, true, ◌||◌, ◌&&◌, String, ◌==◌, Option, none, some, List, [], ◌∷◌,
  ◌++◌, ltb, Bool-cases, Option-cases, inl, inr, if◌then◌else◌, Result, ok, err, arith, eq_iff,
}
use wsapi_app.Whatsmeow.{Jid, WaTypes}
use wsapi_app.Event.Types.{Time, is_zero}
use wsapi_app.Store.Chats.{
  ChatStoreError, no_rows, ChatRecord, ChatRow, ChatTable, find_chat, upsert_row, chats_of, scan,
}
use wsapi_app.Store.Chats
use wsapi_app.Common.Dict.{lookup}
use wsapi_app.Store.Chats.Activity.{find_chat-upsert, find_chat-delete}
use wsapi_app.Store.Contacts.{ContactTable}
use wsapi_app.Instance.Tracking.{
  WaEvent, Conversation, ignore_error, carries_chats, resolve_lid, skip_chat, unix, track_chat,
  track_conversation, track_conversations, track_chats, track,
}
use wsapi_app.Instance.Tracking.Recorded.{track_all}

-- What is observed of a chat of an account: activity, with its time if that is known (the zero time
-- otherwise), or the deletion of the chat.
pub data Observation : Type 0 where
  active : String → String → Bool → Time → Observation
  deleted : String → String → Observation

-- What is known of a chat: its group mark, and the time of its last activity.
pub record Known : Type 0 where
  pub is_group : Bool
  pub last_activity : Time

abbrev pub activity_of : Option Known → Time
activity_of none = 0
activity_of (some k) = k.last_activity

-- What an observation adds to what is known of one chat.
unfoldable pub observe : String → String → Observation → Option Known → Option Known
observe our chat (active a c is_group t) known =
    if a == our && c == chat
    then some
        (record { is_group = is_group; last_activity = if is_zero t then activity_of known else t })
    else known
observe our chat (deleted a c) known = if a == our && c == chat then none else known

abbrev pub observe_all : String → String → List Observation → Option Known → Option Known
observe_all our chat [] known = known
observe_all our chat (o ∷ os) known = observe_all our chat os (observe our chat o known)

-- The answer of `Get` for what is known.
abbrev pub answer : String → String → Option Known → Result ChatStoreError ChatRecord
answer our chat none = err no_rows
answer our chat (some k) = ok (record {
  our_jid = our;
  chat_jid = chat;
  is_group = k.is_group;
  last_activity = k.last_activity;
})

-- What a row knows.
abbrev view : Option ChatRow → Option Known
view none = none
view (some row) = some (record {
  is_group = row.is_group;
  last_activity = elim row.last_activity [ none ↦ 0 | some t ↦ t ];
})

get-view :
    (our chat : String) (rows : ChatTable)
    → Chats.get true our chat rows ≡ answer our chat (view (find_chat our chat rows))
unfolding Chats.get scan
get-view our chat rows = elim (Option-cases (find_chat our chat rows)) [
  | inl e ↦ rw e refl
  | inr (row, e) ↦ rw e refl
]

view-upsert_row :
    (rec : ChatRecord) (old : Option ChatRow)
    → view (some (upsert_row rec old))
      ≡ some (record {
        is_group = rec.is_group;
        last_activity =
            if is_zero rec.last_activity then activity_of (view old) else rec.last_activity;
      })
unfolding upsert_row
view-upsert_row rec none = elim (Bool-cases (is_zero rec.last_activity)) [
  | inl z ↦ rw z refl
  | inr z ↦ rw z refl
]
view-upsert_row rec (some row) = elim (Bool-cases (is_zero rec.last_activity)) [
  | inl z ↦ rw z refl
  | inr z ↦ rw z refl
]

observe_all-append :
    (our chat : String) (os ps : List Observation) (known : Option Known)
    → observe_all our chat (os ++ ps) known
      ≡ observe_all our chat ps (observe_all our chat os known)
observe_all-append our chat [] ps known = refl
observe_all-append our chat (o ∷ os) ps known =
    observe_all-append our chat os ps (observe our chat o known)

both : (a b c d : String) → (a == b && c == d) ≡ true → (a ≡ b) × (c ≡ d)
both a b c d h = (ground (arith, h, eq_iff a b), ground (arith, h, eq_iff c d))

module _ (our chat : String) where
  abbrev known_in : ChatTable → Option Known
  known_in rows = view (find_chat our chat rows)

  known_in-upsert :
      (rec : ChatRecord) (rows : ChatTable)
      → known_in (ignore_error rows (Chats.upsert true rec rows))
        ≡ observe our chat
            (active rec.our_jid rec.chat_jid rec.is_group rec.last_activity)
            (known_in rows)
  unfolding observe ignore_error Chats.upsert
  known_in-upsert rec rows =
      ap view (find_chat-upsert rec rows _ our chat refl)
      ∙ elim (Bool-cases (rec.our_jid == our && rec.chat_jid == chat)) [
        | inr e ↦ rw e refl
        | inl e ↦
            let (account, name) = both rec.our_jid our rec.chat_jid chat e in
            rw (e, ← account, ← name)
              (view-upsert_row rec (find_chat rec.our_jid rec.chat_jid rows))
      ]

  known_in-delete :
      (a c : String) (rows : ChatTable)
      → known_in (ignore_error rows (Chats.delete true a c rows))
        ≡ observe our chat (deleted a c) (known_in rows)
  unfolding observe ignore_error Chats.delete
  known_in-delete a c rows =
      ap view (find_chat-delete a c rows _ our chat refl)
      ∙ elim (Bool-cases (a == our && c == chat)) [ inl e ↦ rw e refl | inr e ↦ rw e refl ]

-- What the handler observes in an event. A write that fails is not observed.
module _ (wt : WaTypes) (alt_jid : Jid → Option Jid) where
  abbrev pub observed_chat : Bool → String → Jid → Time → List Observation
  observed_chat db_ok our jid t =
      if jid.server == wt.hidden_user_server || skip_chat wt jid
      then []
      else if db_ok
      then active our (wt.to_string jid) (jid.server == wt.group_server) t ∷ []
      else []

  abbrev pub observed_conversation : Bool → String → Option Conversation → List Observation
  observed_conversation db_ok our none = []
  observed_conversation db_ok our (some conv) = elim (wt.parse_jid conv.id) [
    | none ↦ []
    | some jid ↦
        observed_chat db_ok our (resolve_lid wt alt_jid jid)
          (if ltb 0 conv.timestamp then unix conv.timestamp else 0)
  ]

  abbrev pub observed_conversations : String → List (Bool × Option Conversation) → List Observation
  observed_conversations our [] = []
  observed_conversations our ((db_ok, conv) ∷ convs) =
      observed_conversation db_ok our conv ++ observed_conversations our convs

  abbrev pub observed_in : Bool → String → WaEvent → List Observation
  observed_in db_ok our (WaEvent.history_sync sync_type convs) =
      if carries_chats sync_type then observed_conversations our convs else []
  observed_in db_ok our (WaEvent.message chat t) =
      observed_chat db_ok our (resolve_lid wt alt_jid chat) t
  observed_in db_ok our (WaEvent.delete_chat chat) =
      let jid = resolve_lid wt alt_jid chat in
      if jid.server == wt.hidden_user_server
      then []
      else if db_ok
      then deleted our (wt.to_string jid) ∷ []
      else []
  observed_in db_ok our (WaEvent.contact _ _) = []
  observed_in db_ok our WaEvent.unknown = []

  -- Nothing is observed before an account is paired.
  abbrev pub observed : List (Bool × String × WaEvent) → List Observation
  observed [] = []
  observed ((db_ok, our, evt) ∷ evts) =
      (if our == "" then [] else observed_in db_ok our evt) ++ observed evts

module _ (wt : WaTypes) (alt_jid : Jid → Option Jid) (our chat : String) where
  known_in-track_chat :
      (db_ok : Bool) (a : String) (jid : Jid) (t : Time) (rows : ChatTable)
      → known_in our chat (track_chat wt db_ok a jid t rows)
        ≡ observe_all our chat (observed_chat wt alt_jid db_ok a jid t) (known_in our chat rows)
  unfolding track_chat ignore_error Chats.upsert
  known_in-track_chat db_ok a jid t rows =
      elim (Bool-cases (jid.server == wt.hidden_user_server || skip_chat wt jid)) [
        | inl e ↦ rw e refl
        | inr e ↦ elim (Bool-cases db_ok) [
          | inl works ↦ rw (e, works) (known_in-upsert our chat _ rows)
          | inr fails ↦ rw (e, fails) refl
        ]
      ]

  known_in-track_conversation :
      (db_ok : Bool) (a : String) (conv : Option Conversation) (rows : ChatTable)
      → known_in our chat (track_conversation wt alt_jid db_ok a conv rows)
        ≡ observe_all our chat
            (observed_conversation wt alt_jid db_ok a conv)
            (known_in our chat rows)
  unfolding track_conversation
  known_in-track_conversation db_ok a none rows = refl
  known_in-track_conversation db_ok a (some conv) rows =
      elim (Option-cases (wt.parse_jid conv.id)) [
        | inl e ↦ rw (e, track_conversation, observed_conversation) refl
        | inr (jid, e) ↦
            rw (e, track_conversation, observed_conversation) (known_in-track_chat db_ok a _ _ rows)
      ]

  known_in-track_conversations :
      (a : String) (convs : List (Bool × Option Conversation)) (rows : ChatTable)
      → known_in our chat (track_conversations wt alt_jid a convs rows)
        ≡ observe_all our chat (observed_conversations wt alt_jid a convs) (known_in our chat rows)
  unfolding track_conversations
  known_in-track_conversations a [] rows = refl
  known_in-track_conversations a ((db_ok, conv) ∷ convs) rows =
      known_in-track_conversations a convs _
      ∙ ap (observe_all our chat (observed_conversations wt alt_jid a convs))
          (known_in-track_conversation db_ok a conv rows)
      ∙ sym (
          observe_all-append our chat (observed_conversation wt alt_jid db_ok a conv) _
            (known_in our chat rows))

  known_in-track_chats :
      (db_ok : Bool) (a : String) (evt : WaEvent) (rows : ChatTable)
      → known_in our chat (track_chats wt alt_jid db_ok a evt rows)
        ≡ observe_all our chat (observed_in wt alt_jid db_ok a evt) (known_in our chat rows)
  unfolding track_chats ignore_error Chats.delete
  known_in-track_chats db_ok a (WaEvent.history_sync sync_type convs) rows =
      elim (Bool-cases (carries_chats sync_type)) [
        | inl e ↦ rw e (known_in-track_conversations a convs rows)
        | inr e ↦ rw e refl
      ]
  known_in-track_chats db_ok a (WaEvent.message named t) rows = known_in-track_chat db_ok a _ t rows
  known_in-track_chats db_ok a (WaEvent.delete_chat named) rows =
      let jid = resolve_lid wt alt_jid named in
      elim (Bool-cases (jid.server == wt.hidden_user_server)) [
        | inl e ↦ rw e refl
        | inr e ↦ elim (Bool-cases db_ok) [
          | inl works ↦ rw (e, works) (known_in-delete our chat a (wt.to_string jid) rows)
          | inr fails ↦ rw (e, fails) refl
        ]
      ]
  known_in-track_chats db_ok a (WaEvent.contact _ _) rows = refl
  known_in-track_chats db_ok a WaEvent.unknown rows = refl

  known_in-track :
      (db_ok : Bool) (a : String) (evt : WaEvent) (tables : ChatTable × ContactTable)
      → known_in our chat (track wt alt_jid db_ok a evt tables).0
        ≡ observe_all our chat
            (if a == "" then [] else observed_in wt alt_jid db_ok a evt)
            (known_in our chat tables.0)
  unfolding track
  known_in-track db_ok a evt (chats, contacts) = elim (Bool-cases (a == "")) [
    | inl e ↦ rw e refl
    | inr e ↦ rw e (known_in-track_chats db_ok a evt chats)
  ]

  known_in-track_all :
      (evts : List (Bool × String × WaEvent)) (tables : ChatTable × ContactTable)
      → known_in our chat (track_all wt alt_jid evts tables).0
        ≡ observe_all our chat (observed wt alt_jid evts) (known_in our chat tables.0)
  known_in-track_all [] tables = refl
  known_in-track_all ((db_ok, a, evt) ∷ evts) tables =
      known_in-track_all evts (track wt alt_jid db_ok a evt tables)
      ∙ ap (observe_all our chat (observed wt alt_jid evts)) (known_in-track db_ok a evt tables)
      ∙ sym (
          observe_all-append our chat (if a == "" then [] else observed_in wt alt_jid db_ok a evt) _
            (known_in our chat tables.0))

  known_in-nil : known_in our chat [] ≡ none
  unfolding find_chat chats_of lookup
  known_in-nil = refl

  -- The table of chats refines the account of what was observed: after any events, for whichever
  -- accounts, from empty tables on, a chat reads as what its observations say, taken in order. It has
  -- no row before its first activity and after its deletion; otherwise it has the group mark of its
  -- last activity, and the time of the last activity since its deletion that had one. An event of an
  -- account that is not paired, a chat that is not recorded and a write that fails are not observed.
  pub chats_refine_observations :
      (evts : List (Bool × String × WaEvent))
      → Chats.get true our chat (track_all wt alt_jid evts ([], [])).0
        ≡ answer our chat (observe_all our chat (observed wt alt_jid evts) none)
  chats_refine_observations evts =
      get-view our chat (track_all wt alt_jid evts ([], [])).0
      ∙ ap (answer our chat) (
          known_in-track_all evts ([], [])
          ∙ ap (observe_all our chat (observed wt alt_jid evts)) known_in-nil)
