-- ===== src/Handler/ChatsSent.antt =====
-- What becomes of a request about a chat that passes the validation.
use wsapi_app.Common.{
  ℤ, pos, negsuc, ◌≤◌, ◌≡◌, refl, Bool, true, String, Option, none, some, List, [], ◌∷◌, eqb, ◌||◌,
  if◌then◌else◌, arith, eq_iff, Bool-cases, inl, inr, ok,
}
use wsapi_app.Whatsmeow.{Jid, WaTypes}
use wsapi_app.Jid.{parse_jid}
use wsapi_app.ChatService.Actions.{
  Call, messages_requested, Client, Outcome, ActionError, fail, presence_of, ephemeral_duration,
  mute_duration, call, with_chat, get_chat_picture, send_chat_presence, subscribe_chat_presence,
  set_ephemeral_expiration, mute_chat, pin_chat, archive_chat, mark_chat_as_read, clear_chat,
  delete_chat, request_messages,
}
use wsapi_app.Handler.Chats.{
  ChatRequest, RequestMessagesRequest, ChatWorld, ChatHandled, list_all, get_info, get_picture,
  subscribe, clear, delete, set_presence, set_ephemeral, mute, pin, archive, mark_as_read, messages,
  valid_state, valid_expiration, valid_duration, valid_messages, is_zero_count, in_range, count_of,
  decode_chat, respond_chat, handle_chat,
}

-- A request to the client whose body passes the validation.
abbrev pub IsAccepted : ChatRequest → Type 0
IsAccepted list_all = ⊥
IsAccepted get_info = ⊥
IsAccepted get_picture = Unit
IsAccepted subscribe = Unit
IsAccepted clear = Unit
IsAccepted delete = Unit
IsAccepted (set_presence body) = (s : String) × (body ≡ some s) × (valid_state s ≡ true)
IsAccepted (set_ephemeral body) = (s : String) × (body ≡ some s) × (valid_expiration s ≡ true)
IsAccepted (mute body) = (s : String) × (body ≡ some s) × (valid_duration s ≡ true)
IsAccepted (pin body) = (b : Bool) × (body ≡ some b)
IsAccepted (archive body) = (b : Bool) × (body ≡ some b)
IsAccepted (mark_as_read body) = (b : Bool) × (body ≡ some b)
IsAccepted (messages body) =
    (r : RequestMessagesRequest) × (body ≡ some r) × (valid_messages r ≡ true)

-- A request for messages asks for 1 to 500 of them.
abbrev pub InRange : ℤ → Type 0
InRange (pos n) = (1 ≤ n) × (n ≤ 500)
InRange (negsuc _) = ⊥

abbrev pub IsBounded : Call → Type 0
IsBounded (messages_requested _ count) = InRange count
IsBounded _ = Unit

abbrev pub IsSent : List Call → Type 0
IsSent calls = (c : Call) × (calls ≡ c ∷ []) × IsBounded c

presence_of-valid_state : (s : String) → presence_of s ≡ none → valid_state s ≡ true → ⊥
unfolding presence_of valid_state
presence_of-valid_state s n h = ground (
  arith,
  eq_iff s "typing",
  eq_iff s "paused",
  eq_iff s "recording",
  eq_iff "typing" s,
  eq_iff "paused" s,
  eq_iff "recording" s,
)

ephemeral_duration-valid_expiration :
    (s : String) → ephemeral_duration s ≡ none → valid_expiration s ≡ true → ⊥
unfolding ephemeral_duration valid_expiration
ephemeral_duration-valid_expiration s n h = ground (
  arith,
  eq_iff s "24h",
  eq_iff s "7d",
  eq_iff s "90d",
  eq_iff s "off",
  eq_iff "24h" s,
  eq_iff "7d" s,
  eq_iff "90d" s,
  eq_iff "off" s,
)

mute_duration-valid_duration : (s : String) → mute_duration s ≡ none → valid_duration s ≡ true → ⊥
unfolding mute_duration valid_duration
mute_duration-valid_duration s n h = ground (
  arith,
  eq_iff s "8h",
  eq_iff s "1w",
  eq_iff s "always",
  eq_iff s "off",
  eq_iff "8h" s,
  eq_iff "1w" s,
  eq_iff "always" s,
  eq_iff "off" s,
)

or_fifty-InRange :
    (count : ℤ)
    → (is_zero_count count || in_range count) ≡ true
    → InRange (if is_zero_count count then pos 50 else count)
unfolding is_zero_count in_range
or_fifty-InRange (pos n) h = elim (Bool-cases (eqb n 0)) [
  | inl e ↦ rw e (ground arith, ground arith)
  | inr e ↦ rw e (ground arith, ground arith)
]
or_fifty-InRange (negsuc n) h = cc

count_of-InRange : (r : RequestMessagesRequest) → valid_messages r ≡ true → InRange (count_of r)
unfolding valid_messages count_of
count_of-InRange r h = or_fifty-InRange r.count (ground arith)

module _ (wt : WaTypes) (client : Client) (w : ChatWorld) (chat_id : String) where
  -- Where the chat ID is a JID, the operation goes on.
  IsSent-with_chat :
      {A : Type 0} (jid : Jid) (next : Jid → Outcome A)
      → parse_jid wt chat_id ≡ ok jid
      → IsSent (next jid).calls
      → IsSent (with_chat wt client chat_id next).calls
  unfolding with_chat
  IsSent-with_chat jid next p h = rw (with_chat, p) h

  IsSent-with_option :
      {A B : Type 0} (jid : Jid) (o : Option B) (e : ActionError) (next : B → Jid → Outcome A)
      → parse_jid wt chat_id ≡ ok jid
      → (o ≡ none → ⊥)
      → ((b : B) → IsSent (next b jid).calls)
      → IsSent
          (with_chat wt client {A = A} chat_id
            (λ j. elim o [ none ↦ fail e | some b ↦ next b j ])).calls
  IsSent-with_option jid none e next p given h = absurd (given refl)
  IsSent-with_option jid (some b) e next p given h = IsSent-with_chat jid (next b) p (h b)

  IsSent-decode_chat :
      {A : Type 0} (body : Option A) (is_valid : A → Bool) (next : A → ChatHandled) (a : A)
      → body ≡ some a
      → is_valid a ≡ true
      → IsSent (next a).calls
      → IsSent (decode_chat body is_valid next).calls
  unfolding decode_chat
  IsSent-decode_chat body is_valid next a b v h = rw (b, v) h

  -- On a device that is paired, and for a chat ID that is a JID, every request that passes the
  -- validation makes exactly one call of the client: the validator accepts no presence, expiration or
  -- duration that the service refuses. If that call asks for messages, it asks for 1 to 500.
  pub accepted-IsSent :
      (jid : Jid) (own_user : String) (r : ChatRequest)
      → parse_jid wt chat_id ≡ ok jid
      → client.own_user ≡ some own_user
      → IsAccepted r
      → IsSent (handle_chat wt client w chat_id r).calls
  unfolding handle_chat respond_chat get_chat_picture send_chat_presence subscribe_chat_presence
      set_ephemeral_expiration mute_chat pin_chat archive_chat mark_chat_as_read clear_chat
      delete_chat request_messages call
  accepted-IsSent jid own list_all p o a = absurd a
  accepted-IsSent jid own get_info p o a = absurd a
  accepted-IsSent jid own get_picture p o a = IsSent-with_chat jid _ p (_, refl, tt)
  accepted-IsSent jid own subscribe p o a = IsSent-with_chat jid _ p (_, refl, tt)
  accepted-IsSent jid own clear p o a = IsSent-with_chat jid _ p (_, refl, tt)
  accepted-IsSent jid own delete p o a = IsSent-with_chat jid _ p (_, refl, tt)
  accepted-IsSent jid own (set_presence body) p o (s, b, v) = IsSent-decode_chat body _ _ s b v (
      IsSent-with_option jid (presence_of s) _ _ p (λ n. presence_of-valid_state s n v)
        (λ c. (_, refl, tt)))
  accepted-IsSent jid own (set_ephemeral body) p o (s, b, v) = IsSent-decode_chat body _ _ s b v (
      IsSent-with_option jid (ephemeral_duration s) _ _ p
        (λ n. ephemeral_duration-valid_expiration s n v) (λ c. (_, refl, tt)))
  accepted-IsSent jid own (mute body) p o (s, b, v) = IsSent-decode_chat body _ _ s b v (
      IsSent-with_option jid (mute_duration s) _ _ p (λ n. mute_duration-valid_duration s n v)
        (λ c. (_, refl, tt)))
  accepted-IsSent jid own (pin body) p o (x, b) =
      IsSent-decode_chat body _ _ x b refl (IsSent-with_chat jid _ p (_, refl, tt))
  accepted-IsSent jid own (archive body) p o (x, b) =
      IsSent-decode_chat body _ _ x b refl (IsSent-with_chat jid _ p (_, refl, tt))
  accepted-IsSent jid own (mark_as_read body) p o (x, b) =
      IsSent-decode_chat body _ _ x b refl (IsSent-with_chat jid _ p (_, refl, tt))
  accepted-IsSent jid own (messages body) p o (r, b, v) =
      IsSent-decode_chat body _ _ r b v
        (IsSent-with_chat jid _ p (rw o (_, refl, count_of-InRange r v)))
