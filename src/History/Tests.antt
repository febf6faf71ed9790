-- ===== src/History/Tests.antt =====
-- The theorems about the history cache at two rows.
use wsapi_app.Common.{◌≡◌, refl, true, false, String, some, List, [], ◌∷◌, All}
use wsapi_app.Event.Types.{MessageEvent}
use wsapi_app.Event.Samples.{message_of}
use wsapi_app.History.{
  CacheRow, Cache, Flusher, list_chats, distinct, flush_history, flush_chats, chunk_messages,
}
use wsapi_app.History.Chunks.{first_of_each, concat, IsChunk, chunks_lem}
use wsapi_app.History.Flushed.{rows_of, flush_clears}

abbrev messages : List MessageEvent
messages = message_of "m1" ∷ message_of "m2" ∷ message_of "m1" ∷ []

chunks_lem_example :
    (concat (chunk_messages [] [] messages) ≡ first_of_each [] messages)
    × All IsChunk (chunk_messages [] [] messages)
chunks_lem_example = chunks_lem messages

abbrev row_of : String → CacheRow
row_of our_jid = record { our_jid = our_jid; chat_jid = "c"; messages = "[]"; expire_at = 900 }

abbrev cache : Cache
cache = row_of "us" ∷ row_of "them" ∷ []

abbrev flusher : Flusher
flusher = record {
  unmarshal = λ s. some messages;
  event_id = λ e. "ev_1";
  now = 100;
  order = λ cs. cs;
  list_ok = true;
  get_ok = λ c. false;
  delete_ok = true;
}

flush_clears_example :
    let (events, cache') = flush_history flusher "a" (some "us") cache in
    (events ≡ flush_chats flusher "a" "us" cache []) × (rows_of "us" cache' ≡ [])
unfolding list_chats distinct
flush_clears_example = flush_clears flusher "a" "us" "c" [] cache refl refl refl
