-- ===== src/ChatService/Listed.antt =====
-- What the list of chats and the details of a chat have in common.
use mathlib.Core.List.{Memᴰ}
use mathlib.Core.List.Memᴰ
use wsapi_app.Common.{
  ◌≡◌, refl, ◌∙◌, sym, ap, true, false, String, ◌==◌, some, List, [], ◌∷◌, Bool-cases, Option-cases,
  eq_iff, inl, inr, Result-cases, ok,
}
use wsapi_app.Common.Dict.{Dict, lookup}
use wsapi_app.Whatsmeow.{Jid, WaTypes}
use wsapi_app.Event.Types.{Time}
use wsapi_app.Store.Chats.{ChatRecord, ChatRow, ChatTable, chats_of, find_chat, scan, get}
use wsapi_app.Store.Chats.Listing.{is_before, insert_row, by_activity, scan_all, list}
use wsapi_app.Jid.{parse_jid}
use wsapi_app.ChatService.{
  ChatListItem, DeviceStore, found_contact, get_our_jid, list_item, list_items, list_chats,
  info_item, get_chat_info,
}

module _ {ℓ} {A : Type ℓ} where
  Memᴰ-lookup :
      (key : String) (value : A) (entries : Dict A)
      → lookup key entries ≡ some value
      → Memᴰ (key, value) entries
  unfolding lookup
  Memᴰ-lookup key value [] h = cc
  Memᴰ-lookup key value ((other, old) ∷ rest) h = elim (Bool-cases (other == key)) [
    | inl e ↦ let same = (eq_iff other key).0 e in let h' = rw e at h in Memᴰ.head cc
    | inr e ↦ Memᴰ.tail (Memᴰ-lookup key value rest (rw e at h))
  ]

Memᴰ-insert_row_self :
    (entry : String × ChatRow) (entries : Dict ChatRow) → Memᴰ entry (insert_row entry entries)
unfolding insert_row
Memᴰ-insert_row_self entry [] = Memᴰ.head refl
Memᴰ-insert_row_self entry (other ∷ rest) = elim (Bool-cases (is_before other.1 entry.1)) [
  | inl e ↦ rw e (Memᴰ.tail (Memᴰ-insert_row_self entry rest))
  | inr e ↦ rw e (Memᴰ.head refl)
]

Memᴰ-insert_row :
    (entry x : String × ChatRow) (entries : Dict ChatRow)
    → Memᴰ x entries
    → Memᴰ x (insert_row entry entries)
unfolding insert_row
Memᴰ-insert_row entry x [] m = Memᴰ.tail m
Memᴰ-insert_row entry x (other ∷ rest) m = elim (Bool-cases (is_before other.1 entry.1)) [
  | inl e ↦ rw e (elim (Memᴰ.cases_cons m) [
    | inl h ↦ Memᴰ.head h
    | inr m' ↦ Memᴰ.tail (Memᴰ-insert_row entry x rest m')
  ])
  | inr e ↦ rw e (Memᴰ.tail m)
]

Memᴰ-by_activity :
    (x : String × ChatRow) (entries : Dict ChatRow) → Memᴰ x entries → Memᴰ x (by_activity entries)
unfolding by_activity
Memᴰ-by_activity x [] m = m
Memᴰ-by_activity x (entry ∷ rest) m = elim (Memᴰ.cases_cons m) [
  | inl h ↦ Memᴰ.cast h (Memᴰ-insert_row_self entry (by_activity rest))
  | inr m' ↦ Memᴰ-insert_row entry x (by_activity rest) (Memᴰ-by_activity x rest m')
]

Memᴰ-scan_all :
    (our_jid chat_jid : String) (row : ChatRow) (entries : Dict ChatRow)
    → Memᴰ (chat_jid, row) entries
    → Memᴰ (scan our_jid chat_jid row) (scan_all our_jid entries)
unfolding scan_all
Memᴰ-scan_all our_jid chat_jid row [] m = absurd (Memᴰ.not-nil m)
Memᴰ-scan_all our_jid chat_jid row ((chat, r) ∷ rest) m = elim (Memᴰ.cases_cons m) [
  | inl h ↦ Memᴰ.head (ap (λ e. scan our_jid e.0 e.1) h)
  | inr m' ↦ Memᴰ.tail (Memᴰ-scan_all our_jid chat_jid row rest m')
]

module _ (wt : WaTypes) (store : DeviceStore) where
  Memᴰ-list_items :
      (now : Time) (rec : ChatRecord) (recs : List ChatRecord)
      → Memᴰ rec recs
      → Memᴰ (list_item wt store now rec) (list_items wt store now recs)
  unfolding list_items
  Memᴰ-list_items now rec [] m = absurd (Memᴰ.not-nil m)
  Memᴰ-list_items now rec (r ∷ recs) m = elim (Memᴰ.cases_cons m) [
    | inl h ↦ Memᴰ.head (ap (list_item wt store now) h)
    | inr m' ↦ Memᴰ.tail (Memᴰ-list_items now rec recs m')
  ]

  list_item-info_item :
      ((jid : Jid) → store.all_contacts jid ≡ found_contact (store.contact jid))
      → (now : Time) (rec : ChatRecord) → list_item wt store now rec ≡ info_item wt store now rec
  unfolding list_item info_item
  list_item-info_item agree now rec = elim (Result-cases (parse_jid wt rec.chat_jid)) [
    | inl (_, e) ↦ rw e refl
    | inr (jid, e) ↦ rw (e, agree jid) refl
  ]

  get_chat_info_found :
      (now : Time) (chat_id : String) (row : ChatRow) (rows : ChatTable)
      → (get_our_jid wt store == "") ≡ false
      → find_chat (get_our_jid wt store) chat_id rows ≡ some row
      → get_chat_info wt store true now chat_id rows
        ≡ ok (info_item wt store now (scan (get_our_jid wt store) chat_id row))
  unfolding get_chat_info get
  get_chat_info_found now chat_id row rows e n = rw (e, n) refl

  -- A chat with details belongs to a paired device, and has a row.
  get_chat_info-eq-ok :
      (now : Time) (chat_id : String) (rows : ChatTable) (item : ChatListItem)
      → get_chat_info wt store true now chat_id rows ≡ ok item
      → ((get_our_jid wt store == "") ≡ false)
        × (row : ChatRow) × (find_chat (get_our_jid wt store) chat_id rows ≡ some row)
        × (info_item wt store now (scan (get_our_jid wt store) chat_id row) ≡ item)
  unfolding get_chat_info get
  get_chat_info-eq-ok now chat_id rows item h = elim (Bool-cases (get_our_jid wt store == "")) [
    | inl e ↦ let h' = rw e at h in cc
    | inr e ↦ elim (Option-cases (find_chat (get_our_jid wt store) chat_id rows)) [
      | inl n ↦ let h' = rw (e, n) at h in cc
      | inr (row, n) ↦ let h' = get_chat_info_found now chat_id row rows e n in (e, row, n, cc)
    ]
  ]

  -- Where the map of all contacts and the look-up of one agree, the details that `GetChatInfo` returns
  -- of a chat are an item of what `ListChats` returns at the same time.
  pub known_is_listed :
      ((jid : Jid) → store.all_contacts jid ≡ found_contact (store.contact jid))
      → (now : Time) (chat_id : String) (rows : ChatTable) (item : ChatListItem)
      → get_chat_info wt store true now chat_id rows ≡ ok item
      → (items : List ChatListItem) × (list_chats wt store true now rows ≡ ok items)
        × Memᴰ item items
  unfolding list_chats list find_chat
  known_is_listed agree now chat_id rows item h =
      let (e, row, n, shown) = get_chat_info-eq-ok now chat_id rows item h in
      let our = get_our_jid wt store in
      let rec = scan our chat_id row in
      let entries = chats_of our rows in
      rw e (
        list_items wt store now (scan_all our (by_activity entries)),
        refl,
        Memᴰ.cast (sym shown ∙ sym (list_item-info_item agree now rec)) (
            Memᴰ-list_items now rec _ (
              Memᴰ-scan_all our chat_id row _
                (Memᴰ-by_activity _ entries (Memᴰ-lookup chat_id row entries n)))),
      )
