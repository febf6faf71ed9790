-- ===== src/Publisher.antt =====
-- internal/publisher: who receives an event. `Publish` returns what it sent and its error.
pub mod Sending
mod Tests
use Prim.Native.String.{◌++◌}
use wsapi_app.Common.{
  ℕ, Bool, not, ◌&&◌, String, ◌==◌, Option, none, some, List, [], ◌∷◌, leb, ltb, if◌then◌else◌,
}
use wsapi_app.Config.{Config, RedisConfig}
use wsapi_app.Event.Types.{Event, EventData, Time}
use wsapi_app.Event.Constants.{is_system_event}

-- `*RedisPublisher`, shared by all instances: the client is outside, the stream name is kept.
pub record RedisPublisher : Type 0 where
  pub stream_name : String

-- The implementations of the interface `Publisher`.
pub data Publisher : Type 0 where
  -- instance ID, URL and signing secret
  webhook : String → String → String → Publisher
  -- `redisWrapper`: the shared publisher, instance ID and signature
  redis_wrapper : RedisPublisher → String → String → Publisher
  noop : Publisher
  -- `SystemEventsOnlyPublisher`
  system_events_only : Publisher → Publisher

pub record Request : Type 0 where
  pub url : String
  pub headers : List (String × String)
  pub body : String

-- What leaves the process.
pub data Delivery : Type 0 where
  post : Request → Delivery
  xadd : String → List (String × String) → Delivery

pub data PublishError : Type 0 where
  marshal_event create_request webhook_request : PublishError
  webhook_status : ℕ → PublishError
  marshal_event_data marshal_for_signing redis_error : PublishError

pub record Outcome : Type 0 where
  pub sent : List Delivery
  pub error : Option PublishError

-- Go's libraries, the network and the peers. `none` is an error.
pub record World : Type 0 where
  pub marshal : Event → Option String
  pub marshal_data : EventData → Option String
  pub format_time : Time → String
  -- the hexadecimal HMAC-SHA256 of a body under a secret
  pub hmac_hex : String → String → String
  pub is_valid_request : String → Bool
  -- the status code of the answer
  pub respond : Request → Option ℕ
  pub xadd_ok : String → List (String × String) → Bool

module _ (w : World) where
  -- `Sign`
  unfoldable pub sign : String → String → String
  sign body secret = "sha256=" ++ w.hmac_hex body secret

  unfoldable pub webhook_headers : String → String → String → List (String × String)
  webhook_headers instance_id secret body =
      ("Content-Type", "application/json")
      ∷ ("X-Instance-Id", instance_id)
      ∷ (if not (secret == "") then ("X-Webhook-Signature", sign body secret) ∷ [] else [])

  -- The answer of `client.Do`.
  unfoldable pub check_status : Option ℕ → Option PublishError
  check_status none = some webhook_request
  check_status (some status) =
      if leb 200 status && ltb status 300 then none else some (webhook_status status)

  -- `WebhookPublisher.Publish`
  unfoldable pub webhook_publish : String → String → String → Event → Outcome
  webhook_publish instance_id url secret evt = elim (w.marshal evt) [
    | none ↦ record { sent = []; error = some marshal_event }
    | some body ↦
        let req : Request = record {
          url = url;
          headers = webhook_headers instance_id secret body;
          body = body;
        } in
        if w.is_valid_request url
        then record { sent = post req ∷ []; error = check_status (w.respond req) }
        else record { sent = []; error = some create_request }
  ]

  unfoldable pub redis_values : Event → String → String → List (String × String)
  redis_values evt instance_id data_json =
      ("eventId", evt.event_id)
      ∷ ("instanceId", instance_id)
      ∷ ("eventType", evt.event_type)
      ∷ ("receivedAt", w.format_time evt.received_at)
      ∷ ("eventData", data_json)
      ∷ []

  unfoldable pub redis_stream : RedisPublisher → String → String
  redis_stream rp instance_id =
      if rp.stream_name == "" then "stream:" ++ instance_id else rp.stream_name

  -- `client.XAdd`
  unfoldable pub redis_send : String → List (String × String) → Outcome
  redis_send stream values = record {
    sent = xadd stream values ∷ [];
    error = if w.xadd_ok stream values then none else some redis_error;
  }

  -- `RedisPublisher.publish`
  unfoldable pub redis_publish : RedisPublisher → Event → String → String → Outcome
  redis_publish rp evt instance_id secret = elim (w.marshal_data evt.event_data) [
    | none ↦ record { sent = []; error = some marshal_event_data }
    | some data_json ↦
        let values = redis_values evt instance_id data_json in
        if not (secret == "")
        then elim (w.marshal evt) [
          | none ↦ record { sent = []; error = some marshal_for_signing }
          | some body ↦
              redis_send (redis_stream rp instance_id) (("signature", sign body secret) ∷ values)
        ]
        else redis_send (redis_stream rp instance_id) values
  ]

  -- The method `Publish` of each implementation.
  unfoldable pub publish : Publisher → Event → Outcome
  publish (webhook instance_id url secret) evt = webhook_publish instance_id url secret evt
  publish (redis_wrapper rp instance_id secret) evt = redis_publish rp evt instance_id secret
  publish noop evt = record { sent = []; error = none }
  publish (system_events_only inner) evt =
      let forwarded = publish inner evt in
      if not (is_system_event evt.event_type) then record { sent = []; error = none } else forwarded

-- `Factory`: the configured way to publish, and the shared Redis publisher.
pub record Factory : Type 0 where
  pub events_publish_via : String
  pub redis : Option RedisPublisher

-- `NewFactory`
unfoldable pub new_factory : Config → Factory
new_factory cfg = record {
  events_publish_via = cfg.events_publish_via;
  redis =
      if cfg.events_publish_via == "redis"
      then elim cfg.redis [
        | none ↦ none
        | some r ↦ if r.url == "" then none else some (record { stream_name = r.stream_name })
      ]
      else none;
}

-- `Factory.Create` up to `publishEvents`
unfoldable pub create_target : Factory → String → String → String → Publisher
create_target f instance_id webhook_url signing_secret =
    if f.events_publish_via == "webhook"
    then (if not (webhook_url == "") then webhook instance_id webhook_url signing_secret else noop)
    else if f.events_publish_via == "redis"
    then elim f.redis [ none ↦ noop | some rp ↦ redis_wrapper rp instance_id signing_secret ]
    else noop

-- `Factory.Create`
unfoldable pub create : Factory → String → String → String → Bool → Publisher
create f instance_id webhook_url signing_secret publish_events =
    let target = create_target f instance_id webhook_url signing_secret in
    if not publish_events then system_events_only target else target
