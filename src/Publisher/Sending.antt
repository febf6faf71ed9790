-- ===== src/Publisher/Sending.antt =====
-- What an instance's publisher delivers.
use wsapi_app.Common.{
  ◌≡◌, refl, true, false, String, ◌==◌, none, some, [], ◌∷◌, length, arith, leb, ltb, ◌&&◌,
  if◌then◌else◌,
}
use wsapi_app.Common.Dict.{lookup}
use wsapi_app.Event.Types.{Event}
use wsapi_app.Event.Constants.{is_system_event}
use wsapi_app.Publisher.{
  Publisher, webhook, redis_wrapper, noop, system_events_only, RedisPublisher, Request, post,
  Outcome, webhook_status, webhook_request, World, Factory, sign, webhook_headers, webhook_publish,
  check_status, redis_publish, redis_send, publish, create,
}

-- Nothing is sent, and no error is returned.
abbrev silent : Outcome
silent = record { sent = []; error = none }

-- With `publishEvents` off, a publisher made by the factory sends what it would send with the flag
-- on if the event is a system event, with the same error, and is silent for every other event.
publish-create_disabled :
    (w : World) (f : Factory) (instance_id url secret : String) (evt : Event)
    → publish w (create f instance_id url secret false) evt ≡ (
        if is_system_event evt.event_type
        then publish w (create f instance_id url secret true) evt
        else silent)
unfolding create publish
publish-create_disabled w f instance_id url secret evt = ground arith

-- A target that reaches someone: a webhook or a Redis stream, also behind the system-event filter.
abbrev pub IsTarget : Publisher → Type 0
IsTarget (webhook _ _ _) = Unit
IsTarget (redis_wrapper _ _ _) = Unit
IsTarget noop = ⊥
IsTarget (system_events_only inner) = IsTarget inner

sent-redis_publish :
    (w : World) (rp : RedisPublisher) (evt : Event) (i s : String)
    → (redis_publish w rp evt i s).error ≡ none
    → length (redis_publish w rp evt i s).sent ≡ 1
unfolding redis_publish redis_send
sent-redis_publish w rp evt i s e = ground arith

sent-webhook_publish :
    (w : World) (i u s : String) (evt : Event)
    → (webhook_publish w i u s evt).error ≡ none
    → length (webhook_publish w i u s evt).sent ≡ 1
unfolding webhook_publish
sent-webhook_publish w i u s evt e = ground arith

-- Where a publisher has a target, a system event that is published without an error was sent
-- exactly once.
pub system_event_sent :
    (w : World) (p : Publisher) (evt : Event)
    → IsTarget p
    → is_system_event evt.event_type ≡ true
    → (publish w p evt).error ≡ none
    → length (publish w p evt).sent ≡ 1
unfolding publish
system_event_sent w (webhook i u s) evt t sys e = sent-webhook_publish w i u s evt e
system_event_sent w (redis_wrapper rp i s) evt t sys e = sent-redis_publish w rp evt i s e
system_event_sent w noop evt t sys e = absurd t
system_event_sent w (system_events_only inner) evt t sys e =
    rw sys (system_event_sent w inner evt t sys (rw sys at e))

-- What a webhook receives: for an event that can be marshalled and a URL that is valid, one POST
-- to the URL with the marshalled event as body, the instance's ID in its header, and a signature
-- header exactly if the secret is not empty, which is the signature of that body; and the error is
-- none exactly if the answer has a status from 200 to 299.
webhook_request_lem :
    (w : World) (instance_id url secret : String) (evt : Event) (body : String)
    → w.marshal evt ≡ some body
    → w.is_valid_request url ≡ true
    → let o = publish w (webhook instance_id url secret) evt in
      (req : Request) × (o.sent ≡ post req ∷ [])
      × (req.url ≡ url)
      × (req.body ≡ body)
      × (lookup "X-Instance-Id" req.headers ≡ some instance_id)
      × (lookup "X-Webhook-Signature" req.headers
          ≡ (if secret == "" then none else some (sign w body secret)))
      × (o.error ≡ elim (w.respond req) [
        | none ↦ some webhook_request
        | some status ↦
            if leb 200 status && ltb status 300 then none else some (webhook_status status)
      ])
unfolding publish webhook_publish webhook_headers check_status lookup
webhook_request_lem w instance_id url secret evt body marshalled valid = (
  record { url = url; headers = webhook_headers w instance_id secret body; body = body },
  rw (marshalled, webhook_publish, valid),
  refl,
  refl,
  refl,
  ground arith,
  rw (marshalled, webhook_publish, valid),
)
