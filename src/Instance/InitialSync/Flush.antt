-- ===== src/Instance/InitialSync/Flush.antt =====
-- The messages of a history sync, from the sync through the cache to the flush.
use mathlib.Core.List.{append_assoc, append-nil, map-append}
use wsapi_app.Common.{
  ℕ, ◌≤◌, ◌<◌, ◌≡◌, refl, sym, ap, ◌∙◌, Bool, true, false, not, ◌&&◌, String, ◌==◌, Option, none,
  some, List, [], ◌∷◌, ◌++◌, map, keep, All, leb, if◌then◌else◌, arith, eq_refl, Bool-cases,
  Option-cases, inl, inr,
}
use wsapi_app.Whatsmeow.{Jid, WaTypes}
use wsapi_app.Event.Types.{Time, MessageEvent}
use wsapi_app.Event.MediaId.{Codec}
use wsapi_app.Projector.{ProjectorContext}
use wsapi_app.Projector.Messages.Media.{Texts}
use wsapi_app.Projector.History.{SyncConversation, gather_messages}
use wsapi_app.History.{
  CacheRow, Cache, insert_messages, is_live, get_messages, Flusher, parse_arrays, chunk_event,
  chunk_messages, flush_chat,
}
use wsapi_app.Instance.InitialSync.{
  Attempt, cache_messages, cached_chat, messages_of, cache_conversations,
}

-- A list that is read back as it was encoded.
abbrev pub IsRoundTrip : (List MessageEvent → Option String) → Flusher → List MessageEvent → Type 0
IsRoundTrip marshal f msgs =
    (json : String) × (marshal msgs ≡ some json) × (f.unmarshal json ≡ some msgs)

-- An insertion that succeeds, no later than the flush.
abbrev pub Succeeds : Flusher → Attempt × Option SyncConversation → Type 0
Succeeds f (at, conv) = (at.insert_ok ≡ true) × (at.now ≤ f.now)

abbrev selects : Time → String → String → CacheRow → Bool
selects now our chat r = is_live now our r && r.chat_jid == chat

-- The messages of a chat that a flush reads from the cache.
abbrev pub cached_messages : Flusher → String → String → Cache → List MessageEvent
cached_messages f our chat cache = parse_arrays f (
    map (λ (r : CacheRow). r.messages)
      (keep (λ r. is_live f.now our r && r.chat_jid == chat) cache))

parse_arrays-append :
    (f : Flusher) (xs ys : List String)
    → parse_arrays f (xs ++ ys) ≡ parse_arrays f xs ++ parse_arrays f ys
unfolding parse_arrays
parse_arrays-append f [] ys = refl
parse_arrays-append f (x ∷ xs) ys = elim (Option-cases (f.unmarshal x)) [
  | inl e ↦ rw (e, parse_arrays) (parse_arrays-append f xs ys)
  | inr (msgs, e) ↦
      rw (e, parse_arrays)
        (ap (λ l. msgs ++ l) (parse_arrays-append f xs ys)
          ∙ sym (append_assoc msgs (parse_arrays f xs) (parse_arrays f ys)))
]

-- Cleaning removes no row that the flush reads.
cleaned_lem :
    (f : Flusher) (at : Attempt) (our chat : String) (cache : Cache)
    → at.now ≤ f.now
    → keep
        (λ r. is_live f.now our r && r.chat_jid == chat)
        (keep (λ (r : CacheRow). not (r.our_jid == our && leb r.expire_at at.now)) cache)
      ≡ keep (λ r. is_live f.now our r && r.chat_jid == chat) cache
cleaned_lem f at our chat [] h = refl
cleaned_lem f at our chat (r ∷ cache) h = ground (arith, cleaned_lem f at our chat cache h)

keep-snoc :
    (p : CacheRow → Bool) (cache : Cache) (r : CacheRow)
    → keep p (cache ++ (r ∷ [])) ≡ keep p cache ++ (if p r then r ∷ [] else [])
keep-snoc p [] r = refl
keep-snoc p (q ∷ cache) r = ground (arith, keep-snoc p cache r)

parse_arrays-single :
    (f : Flusher) (json : String) (msgs : List MessageEvent)
    → f.unmarshal json ≡ some msgs
    → parse_arrays f (json ∷ []) ≡ msgs
unfolding parse_arrays
parse_arrays-single f json msgs e = rw (e, parse_arrays) (append-nil msgs)

-- What one more row adds to what is read.
parsed-row :
    (f : Flusher) (rows : List CacheRow) (row : CacheRow) (msgs : List MessageEvent) (b : Bool)
    → f.unmarshal row.messages ≡ some msgs
    → parse_arrays f (map (λ (r : CacheRow). r.messages) (rows ++ (if b then row ∷ [] else [])))
      ≡ parse_arrays f (map (λ (r : CacheRow). r.messages) rows) ++ (if b then msgs else [])
parsed-row f rows row msgs true e =
    let texts : List String = map (λ (r : CacheRow). r.messages) rows in
    ap (parse_arrays f) (map-append (λ (r : CacheRow). r.messages) rows (row ∷ []))
    ∙ parse_arrays-append f texts (row.messages ∷ [])
    ∙ ap (λ l. parse_arrays f texts ++ l) (parse_arrays-single f row.messages msgs e)
parsed-row f rows row msgs false e =
    let texts : List String = map (λ (r : CacheRow). r.messages) rows in
    ap (λ (l : List CacheRow). parse_arrays f (map (λ (r : CacheRow). r.messages) l))
      (append-nil rows)
    ∙ sym (append-nil (parse_arrays f texts))

module _ (f : Flusher) (our chat : String) where
  selected-row :
      (named json : String) (expire_at : Time)
      → f.now < expire_at
      → selects f.now our chat
          (record { our_jid = our; chat_jid = named; messages = json; expire_at = expire_at })
        ≡ (named == chat)
  selected-row named json expire_at late = ground (arith, eq_refl our)

  selected-insert_messages :
      (at : Attempt) (named json : String) (expire_at : Time) (cache : Cache)
      → at.insert_ok ≡ true
      → at.now ≤ f.now
      → f.now < expire_at
      → keep
          (λ r. is_live f.now our r && r.chat_jid == chat)
          (insert_messages at.clean_ok at.insert_ok at.now our named json expire_at cache).1
        ≡ keep (λ r. is_live f.now our r && r.chat_jid == chat) cache
          ++ (if named == chat
              then record {
                our_jid = our;
                chat_jid = named;
                messages = json;
                expire_at = expire_at;
              }
                ∷ []
              else [])
  unfolding insert_messages
  selected-insert_messages at named json expire_at cache works early late =
      let row : CacheRow = record {
        our_jid = our;
        chat_jid = named;
        messages = json;
        expire_at = expire_at;
      } in
      let added : List CacheRow → List CacheRow =
        λ l. l ++ (if named == chat then row ∷ [] else []) in
      elim (Bool-cases at.clean_ok) [
        | inl e ↦
            rw (works, e)
              (keep-snoc (selects f.now our chat) _ row
                ∙ rw (selected-row named json expire_at late)
                    (ap added (cleaned_lem f at our chat cache early)))
        | inr e ↦
            rw (works, e)
              (keep-snoc (selects f.now our chat) cache row
                ∙ rw (selected-row named json expire_at late) refl)
      ]

  cached-cache_messages :
      (marshal : List MessageEvent → Option String) (expire_at : Time) (named : String)
      (at : Attempt) (msgs : List MessageEvent) (cache : Cache)
      → IsRoundTrip marshal f msgs
      → at.insert_ok ≡ true
      → at.now ≤ f.now
      → f.now < expire_at
      → cached_messages f our chat (cache_messages marshal expire_at our named at msgs cache)
        ≡ cached_messages f our chat cache ++ (if named == chat then msgs else [])
  unfolding cache_messages
  cached-cache_messages marshal expire_at named at [] cache codec works early late =
      elim (Bool-cases (named == chat)) [
        | inl e ↦ rw e (sym (append-nil _))
        | inr e ↦ rw e (sym (append-nil _))
      ]
  cached-cache_messages marshal expire_at named at (m ∷ ms) cache codec works early late =
      let (json, written, read) = codec in
      let row : CacheRow = record {
        our_jid = our;
        chat_jid = named;
        messages = json;
        expire_at = expire_at;
      } in
      rw (written, cache_messages)
        (ap (λ (l : List CacheRow). parse_arrays f (map (λ (r : CacheRow). r.messages) l))
            (selected-insert_messages at named json expire_at cache works early late)
          ∙ parsed-row f (keep (λ r. is_live f.now our r && r.chat_jid == chat) cache) row (m ∷ ms)
              (named == chat) read)

module _ (wt : WaTypes) (alt_jid : Jid → Option Jid) (t : Texts) (c : Codec) (rfc3339 : ℕ → String)
    (marshal : List MessageEvent → Option String) (pctx : ProjectorContext) (f : Flusher)
    (our chat : String) where
  -- The messages of a chat in a conversation, and in all of them.
  abbrev pub contribution : Option SyncConversation → List MessageEvent
  contribution conv = elim (cached_chat wt alt_jid conv) [
    | none ↦ []
    | some jid ↦ elim (gather_messages wt t c rfc3339 jid (messages_of conv) pctx) [
      | none ↦ []
      | some msgs ↦ if wt.to_string jid == chat then msgs else []
    ]
  ]

  -- The messages of a conversation are read back as they were encoded.
  abbrev pub Encodes : Attempt × Option SyncConversation → Type 0
  Encodes (at, conv) =
      (jid : Jid) (msgs : List MessageEvent)
      → cached_chat wt alt_jid conv ≡ some jid
      → gather_messages wt t c rfc3339 jid (messages_of conv) pctx ≡ some msgs
      → IsRoundTrip marshal f msgs

  abbrev pub synced : List (Attempt × Option SyncConversation) → List MessageEvent
  synced [] = []
  synced ((at, conv) ∷ convs) = contribution conv ++ synced convs

  cached-cache_conversations :
      (convs : List (Attempt × Option SyncConversation)) (expire_at : Time) (cache : Cache)
      → All Encodes convs
      → f.now < expire_at
      → All (Succeeds f) convs
      → (cache_conversations wt alt_jid t c rfc3339 marshal pctx expire_at our convs cache).0 ≡ true
      → cached_messages f our chat
          (cache_conversations wt alt_jid t c rfc3339 marshal pctx expire_at our convs cache).1
        ≡ cached_messages f our chat cache ++ synced convs
  unfolding cache_conversations
  cached-cache_conversations [] expire_at cache codec late ok' h = sym (append-nil _)
  cached-cache_conversations ((at, conv) ∷ convs) expire_at cache (codec, codecs) late
        ((works, early), ok') h =
      elim (Option-cases (cached_chat wt alt_jid conv)) [
        | inl e ↦
            rw (e, cache_conversations, contribution)
              (cached-cache_conversations convs expire_at cache codecs late ok'
                (rw (e, cache_conversations) at h))
        | inr (jid, e) ↦
            elim (Option-cases (gather_messages wt t c rfc3339 jid (messages_of conv) pctx)) [
              | inl g ↦ absurd (cc (rw (e, cache_conversations, g) at h))
              | inr (msgs, g) ↦
                  rw (e, cache_conversations, contribution, g)
                    (cached-cache_conversations convs expire_at _ codecs late ok'
                        (rw (e, cache_conversations, g) at h)
                      ∙ ap (λ l. l ++ synced convs)
                          (cached-cache_messages f our chat marshal expire_at (wt.to_string jid) at
                            msgs cache (codec jid msgs e g) works early late)
                      ∙ append_assoc (cached_messages f our chat cache) _ (synced convs))
            ]
      ]

  -- The parts of a history sync reach the flush. If caching its conversations returns, all its
  -- insertions succeed, no later than the flush, the flush comes before they expire, and the
  -- messages of each conversation are read back as they were encoded: then the flush of a chat, whose rows it can read,
  -- publishes the chunks of the messages that were cached for the chat before, followed by those that
  -- the conversations with that chat have, in order.
  pub synced_is_flushed :
      (convs : List (Attempt × Option SyncConversation)) (expire_at : Time) (cache : Cache)
      (instance_id : String)
      → All Encodes convs
      → f.now < expire_at
      → f.get_ok chat ≡ true
      → All (Succeeds f) convs
      → (cache_conversations wt alt_jid t c rfc3339 marshal pctx expire_at our convs cache).0 ≡ true
      → flush_chat f instance_id our
          (cache_conversations wt alt_jid t c rfc3339 marshal pctx expire_at our convs cache).1
          chat
        ≡ map
            (chunk_event f instance_id chat)
            (chunk_messages [] [] (cached_messages f our chat cache ++ synced convs))
  unfolding flush_chat get_messages
  synced_is_flushed convs expire_at cache instance_id codec late readable ok' h =
      rw (readable, flush_chat, get_messages)
        (ap (λ msgs. map (chunk_event f instance_id chat) (chunk_messages [] [] msgs))
          (cached-cache_conversations convs expire_at cache codec late ok' h))
