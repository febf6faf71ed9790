-- ===== src/History/Flushed.antt =====
-- What a flush leaves in the cache.
use wsapi_app.Common.{
  ◌≡◌, ◌≢◌, refl, true, false, not, String, ◌==◌, some, List, [], ◌∷◌, keep, arith, eq_iff,
}
use wsapi_app.History.{
  Cache, list_chats, get_messages, delete_all, Flusher, flush_chat, flush_chats, flush_history,
}

-- The rows of a device.
abbrev pub rows_of : String → Cache → Cache
rows_of jid cache = keep (λ r. r.our_jid == jid) cache

others-kept :
    (our_jid jid : String) (cache : Cache)
    → our_jid ≢ jid
    → rows_of jid (keep (λ r. not (r.our_jid == our_jid)) cache) ≡ rows_of jid cache
others-kept our_jid jid [] n = refl
others-kept our_jid jid (r ∷ cache) n =
    ground (arith, others-kept our_jid jid cache n, eq_iff r.our_jid our_jid, eq_iff r.our_jid jid)

own-removed :
    (our_jid : String) (cache : Cache)
    → rows_of our_jid (keep (λ r. not (r.our_jid == our_jid)) cache) ≡ []
own-removed our_jid [] = refl
own-removed our_jid (r ∷ cache) = ground (arith, own-removed our_jid cache)

-- A flush for one device leaves the cached rows of every other device as they are, whatever fails.
flush_keeps_others :
    (f : Flusher) (instance_id our_jid jid : String) (cache : Cache)
    → our_jid ≢ jid
    → rows_of jid (flush_history f instance_id (some our_jid) cache).1 ≡ rows_of jid cache
unfolding flush_history list_chats delete_all
flush_keeps_others f instance_id our_jid jid cache n =
    ground (arith, others-kept our_jid jid cache n)

unread_chat :
    (f : Flusher) (instance_id our_jid chat : String) (cache : Cache)
    → f.get_ok chat ≡ false
    → flush_chat f instance_id our_jid cache chat ≡ []
unfolding flush_chat get_messages
unread_chat f instance_id our_jid chat cache unread = ground arith

-- A flush that finds chats deletes every cached row of the device, if that statement succeeds, also
-- the rows of a chat whose messages it could not read and has not published.
pub flush_clears :
    (f : Flusher) (instance_id our_jid chat : String) (chats : List String) (cache : Cache)
    → list_chats f.order f.list_ok f.now our_jid cache ≡ some (chat ∷ chats)
    → f.delete_ok ≡ true
    → f.get_ok chat ≡ false
    → let (events, cache') = flush_history f instance_id (some our_jid) cache in
      (events ≡ flush_chats f instance_id our_jid cache chats) × (rows_of our_jid cache' ≡ [])
unfolding flush_history delete_all flush_chats
flush_clears f instance_id our_jid chat chats cache listed works unread =
    rw (listed, flush_history)
      (
        ground (arith, unread_chat f instance_id our_jid chat cache unread),
        ground (arith, own-removed our_jid cache),
      )
