-- ===== src/ChatService/Atomic.antt =====
-- The operations on chats as one type: what each may ask of the WhatsApp client.
use wsapi_app.Common.{
  ◌≡◌, refl, Bool, ◌⊎◌, inl, inr, String, Option, none, some, List, [], ◌∷◌, ℤ, Option-cases,
  Result-cases, ok, err,
}
use wsapi_app.Whatsmeow.{Jid, WaTypes}
use wsapi_app.Event.Types.{Time}
use wsapi_app.Jid.{JidError, parse_jid}
use wsapi_app.ChatService.Actions.{
  mute, pin, archive, built, MutationInfo, Call, picture_read, presence_subscribed, presence_sent,
  timer_set, patched, messages_requested, Client, ActionError, invalid_jid, client_error,
  request_failed, nil_device, Outcome, fail, presence_of, ephemeral_duration, mute_duration,
  build_mark_chat_as_read, build_delete_chat, build_clear_chat, call, with_chat, send_chat_presence,
  subscribe_chat_presence, set_ephemeral_expiration, mute_chat, pin_chat, archive_chat,
  mark_chat_as_read, clear_chat, delete_chat, request_messages,
}

-- A call of a method that changes something.
pub data ChatOperation : Type 0 where
  send_presence mute_for expire_after : String → ChatOperation
  subscribe clear delete : ChatOperation
  set_pinned set_archived set_read : Bool → ChatOperation
  request : String → String → ℤ → ChatOperation

module _ (wt : WaTypes) where
  -- What a call is about: the chat's JID, or a patch whose second index entry is its text.
  unfoldable pub Addresses : Jid → Call → Type 0
  Addresses jid (picture_read j) = j ≡ jid
  Addresses jid (presence_subscribed j) = j ≡ jid
  Addresses jid (presence_sent j _ _) = j ≡ jid
  Addresses jid (timer_set j _ _) = j ≡ jid
  Addresses jid (patched (mute j _ _)) = j ≡ jid
  Addresses jid (patched (pin j _)) = j ≡ jid
  Addresses jid (patched (archive j _ _)) = j ≡ jid
  Addresses jid (patched (built patch)) =
      (m : MutationInfo) × (patch.mutations ≡ m ∷ [])
      × (name : String) × (rest : List String) × (m.index ≡ name ∷ wt.to_string jid ∷ rest)
  Addresses jid (messages_requested info _) = info.chat ≡ jid

module _ (wt : WaTypes) (client : Client) (now : Time) where
  unfoldable pub run : String → ChatOperation → Outcome (Unit {0})
  run chat_id (send_presence state) = send_chat_presence wt client chat_id state
  run chat_id (mute_for duration) = mute_chat wt client chat_id duration
  run chat_id (expire_after expiration) = set_ephemeral_expiration wt client now chat_id expiration
  run chat_id subscribe = subscribe_chat_presence wt client chat_id
  run chat_id clear = clear_chat wt client now chat_id
  run chat_id delete = delete_chat wt client now chat_id
  run chat_id (set_pinned pinned) = pin_chat wt client chat_id pinned
  run chat_id (set_archived archived) = archive_chat wt client now chat_id archived
  run chat_id (set_read is_read) = mark_chat_as_read wt client now chat_id is_read
  run chat_id (request id sender count) = request_messages wt client chat_id id sender count

  -- Nothing was asked and there is an error, or one call was made that is about the chat, and there is
  -- an error exactly if that call has one.
  abbrev pub IsAtomic : String → Outcome (Unit {0}) → Type 0
  IsAtomic chat_id o =
      ((o.calls ≡ []) × (e : ActionError) × (o.result ≡ err e))
      ⊎ ((jid : Jid) × (parse_jid wt chat_id ≡ ok jid)
          × (c : Call) × (o.calls ≡ c ∷ [])
          × Addresses wt jid c
          × (((client.perform c ≡ none) × (o.result ≡ ok tt))
              ⊎ ((text : String) × (e : ActionError) × (client.perform c ≡ some text)
                  × (o.result ≡ err e))))

  with_chat-err :
      (chat_id : String) (next : Jid → Outcome (Unit {0})) (e : JidError)
      → parse_jid wt chat_id ≡ err e
      → with_chat wt client chat_id next ≡ fail (invalid_jid e)
  unfolding with_chat
  with_chat-err chat_id next e p = rw (with_chat, p) refl

  with_chat-ok :
      (chat_id : String) (next : Jid → Outcome (Unit {0})) (jid : Jid)
      → parse_jid wt chat_id ≡ ok jid
      → with_chat wt client chat_id next ≡ next jid
  unfolding with_chat
  with_chat-ok chat_id next jid p = rw (with_chat, p) refl

  IsAtomic-with_chat :
      (chat_id : String) (next : Jid → Outcome (Unit {0}))
      → ((jid : Jid) → parse_jid wt chat_id ≡ ok jid → IsAtomic chat_id (next jid))
      → IsAtomic chat_id (with_chat wt client chat_id next)
  IsAtomic-with_chat chat_id next h = elim (Result-cases (parse_jid wt chat_id)) [
    | inl (e, p) ↦ rw (with_chat-err chat_id next e p) (inl (refl, invalid_jid e, refl))
    | inr (jid, p) ↦ rw (with_chat-ok chat_id next jid p) (h jid p)
  ]

  -- One call of the client, whose error the operation wraps by `wrap`.
  IsAtomic-once :
      (chat_id : String) (jid : Jid) (c : Call) (wrap : String → ActionError)
      → parse_jid wt chat_id ≡ ok jid
      → Addresses wt jid c
      → IsAtomic chat_id (record {
        calls = c ∷ [];
        result = elim (client.perform c) [ none ↦ ok tt | some e ↦ err (wrap e) ];
      })
  IsAtomic-once chat_id jid c wrap p a = elim (Option-cases (client.perform c)) [
    | inl n ↦ inr (jid, p, c, refl, a, inl (n, rw n refl))
    | inr (text, n) ↦ inr (jid, p, c, refl, a, inr (text, wrap text, n, rw n refl))
  ]

  module _ (chat_id : String) where
    with_call :
        (c : Jid → Call)
        → ((jid : Jid) → Addresses wt jid (c jid))
        → IsAtomic chat_id (with_chat wt client chat_id (λ jid. call wt client (c jid)))
    unfolding call
    with_call c a =
        IsAtomic-with_chat chat_id _
          (λ jid p. IsAtomic-once chat_id jid (c jid) client_error p (a jid))

    -- Where an option of the request decides whether there is a call.
    with_option :
        {B : Type 0} (o : Option B) (e : ActionError) (c : B → Jid → Call)
        → ((b : B) (jid : Jid) → Addresses wt jid (c b jid))
        → IsAtomic chat_id (
            with_chat wt client chat_id
              (λ jid. elim o [ none ↦ fail e | some b ↦ call wt client (c b jid) ]))
    with_option none e c a = IsAtomic-with_chat chat_id _ (λ jid p. inl (refl, e, refl))
    with_option (some b) e c a = with_call (c b) (a b)

    IsAtomic-request_messages :
        (id sender : String) (count : ℤ)
        → IsAtomic chat_id (request_messages wt client chat_id id sender count)
    unfolding request_messages Addresses
    IsAtomic-request_messages id sender count = IsAtomic-with_chat chat_id _ (λ jid p.
        elim (Option-cases client.own_user) [
          | inl n ↦ rw n (inl (refl, nil_device, refl))
          | inr (own, n) ↦ rw n (IsAtomic-once chat_id jid _ request_failed p refl)
        ])

    -- Every operation on a chat that may change something is refused without a call of the client, or
    -- makes one call, which is about the chat that its ID names, and then succeeds exactly if that call
    -- does.
    pub operation-IsAtomic : (op : ChatOperation) → IsAtomic chat_id (run chat_id op)
    unfolding run Addresses send_chat_presence subscribe_chat_presence set_ephemeral_expiration
        mute_chat pin_chat archive_chat mark_chat_as_read clear_chat delete_chat
        build_mark_chat_as_read build_delete_chat build_clear_chat
    operation-IsAtomic (send_presence state) = with_option (presence_of state) _ _ (λ b jid. refl)
    operation-IsAtomic (mute_for duration) =
        with_option (mute_duration duration) _ _ (λ b jid. refl)
    operation-IsAtomic (expire_after expiration) =
        with_option (ephemeral_duration expiration) _ _ (λ b jid. refl)
    operation-IsAtomic subscribe = with_call _ (λ jid. refl)
    operation-IsAtomic clear = with_call _ (λ jid. (_, refl, _, _, refl))
    operation-IsAtomic delete = with_call _ (λ jid. (_, refl, _, _, refl))
    operation-IsAtomic (set_pinned pinned) = with_call _ (λ jid. refl)
    operation-IsAtomic (set_archived archived) = with_call _ (λ jid. refl)
    operation-IsAtomic (set_read is_read) = with_call _ (λ jid. (_, refl, _, _, refl))
    operation-IsAtomic (request id sender count) = IsAtomic-request_messages id sender count
