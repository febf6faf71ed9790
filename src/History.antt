-- ===== src/History.antt =====
-- internal/whatsapp/historysyncstore.go and historysync.go: the cache of the messages of a history
-- sync, and its flush to the publisher.
pub mod Chunks
pub mod Flushed
mod Tests
use wsapi_app.Common.{
  ℕ, suc, ◌+◌, Bool, true, false, not, ◌&&◌, ◌||◌, String, ◌==◌, Option, none, some, List, [], ◌∷◌,
  ◌++◌, map, keep, length, contains, leb, ltb, eqb, if◌then◌else◌, Result, ok, err,
}
use wsapi_app.Event.Types.{Event, MessageEvent, HistorySyncEvent, Time, new_event, history_sync}
use wsapi_app.Event.Constants.{type_message_history_sync}

-- A row of wsapi_history_sync_messages, without its key. Rows stand in the order of their keys.
pub record CacheRow : Type 0 where
  pub our_jid : String
  pub chat_jid : String
  pub messages : String
  pub expire_at : Time

abbrev pub Cache : Type 0
Cache = List CacheRow

-- `Insert`: whether its two statements succeed, and the time now. An error of the first is ignored.
unfoldable pub insert_messages :
    Bool → Bool → Time → String → String → String → Time → Cache → Bool × Cache
insert_messages clean_ok insert_ok now our_jid chat_jid messages expire_at cache =
    let cleaned =
      if clean_ok
      then keep (λ (r : CacheRow). not (r.our_jid == our_jid && leb r.expire_at now)) cache
      else cache in
    let row : CacheRow = record {
      our_jid = our_jid;
      chat_jid = chat_jid;
      messages = messages;
      expire_at = expire_at;
    } in
    if insert_ok then (true, cleaned ++ (row ∷ [])) else (false, cleaned)

-- `our_jid = ? AND expire_at > ?`
abbrev pub is_live : Time → String → CacheRow → Bool
is_live now our_jid r = r.our_jid == our_jid && ltb now r.expire_at

-- `SELECT DISTINCT chat_jid`. The order is the database's collation, a parameter of `list_chats`.
unfoldable pub distinct : List String → List String
distinct [] = []
distinct (c ∷ cs) = let rest = distinct cs in if contains c cs then rest else c ∷ rest

-- `ListChats`
unfoldable pub list_chats :
    (List String → List String) → Bool → Time → String → Cache → Option (List String)
list_chats order db_ok now our_jid cache =
    if db_ok
    then some
        (order (distinct (map (λ (r : CacheRow). r.chat_jid) (keep (is_live now our_jid) cache))))
    else none

-- `GetMessages`
unfoldable pub get_messages : Bool → Time → String → String → Cache → Option (List String)
get_messages db_ok now our_jid chat_jid cache =
    if db_ok
    then some (
        map (λ (r : CacheRow). r.messages)
          (keep (λ r. is_live now our_jid r && r.chat_jid == chat_jid) cache))
    else none

-- `DeleteAll`
unfoldable pub delete_all : Bool → String → Cache → Bool × Cache
delete_all db_ok our_jid cache =
    if db_ok
    then (true, keep (λ (r : CacheRow). not (r.our_jid == our_jid)) cache)
    else (false, cache)

abbrev pub history_sync_chunk_size : ℕ
history_sync_chunk_size = 500

-- The loop over the messages of a chat: `seen`, `buffer`, and the chunks that are published.
unfoldable pub chunk_messages :
    List String → List MessageEvent → List MessageEvent → List (List MessageEvent)
chunk_messages seen buffer [] = if not (eqb (length buffer) 0) then buffer ∷ [] else []
chunk_messages seen buffer (msg ∷ msgs) =
    let skip = chunk_messages seen buffer msgs in
    let grown = buffer ++ (msg ∷ []) in
    let flushed = chunk_messages (msg.id ∷ seen) [] msgs in
    let buffered = chunk_messages (msg.id ∷ seen) grown msgs in
    if contains msg.id seen
    then skip
    else if leb history_sync_chunk_size (length grown)
    then grown ∷ flushed
    else buffered

-- The environment of a flush: `json.Unmarshal`, the generated IDs, the clock, the database.
pub record Flusher : Type 0 where
  pub unmarshal : String → Option (List MessageEvent)
  pub event_id : HistorySyncEvent → String
  pub now : Time
  pub order : List String → List String
  pub list_ok : Bool
  pub get_ok : String → Bool
  pub delete_ok : Bool

module _ (f : Flusher) where
  -- The messages of the arrays that can be parsed, in order; the others are logged and skipped.
  unfoldable pub parse_arrays : List String → List MessageEvent
  parse_arrays [] = []
  parse_arrays (json ∷ rest) =
      let later = parse_arrays rest in
      elim (f.unmarshal json) [ none ↦ later | some msgs ↦ msgs ++ later ]

  -- `publishChunk`: the event that is published.
  unfoldable pub chunk_event : String → String → List MessageEvent → Event
  chunk_event instance_id chat_jid messages =
      let payload : HistorySyncEvent = record { chat_id = chat_jid; messages = messages } in
      new_event (f.event_id payload) f.now instance_id type_message_history_sync
        (history_sync payload)

  -- One chat of the loop of `FlushHistory`.
  unfoldable pub flush_chat : String → String → Cache → String → List Event
  flush_chat instance_id our_jid cache chat_jid =
      elim (get_messages (f.get_ok chat_jid) f.now our_jid chat_jid cache) [
        | none ↦ []
        | some arrays ↦
            map (chunk_event instance_id chat_jid) (chunk_messages [] [] (parse_arrays arrays))
      ]

  unfoldable pub flush_chats : String → String → Cache → List String → List Event
  flush_chats instance_id our_jid cache [] = []
  flush_chats instance_id our_jid cache (chat ∷ chats) =
      flush_chat instance_id our_jid cache chat ++ flush_chats instance_id our_jid cache chats

  -- `FlushHistory`: what is handed to the publisher, and the cache. `none` is a device not paired.
  unfoldable pub flush_history : String → Option String → Cache → List Event × Cache
  flush_history instance_id none cache = ([], cache)
  flush_history instance_id (some our_jid) cache =
      elim (list_chats f.order f.list_ok f.now our_jid cache) [
        | none ↦ ([], cache)
        | some chats ↦ if eqb (length chats) 0 then ([], cache) else (
          flush_chats instance_id our_jid cache chats,
          (delete_all f.delete_ok our_jid cache).1,
        )
      ]
