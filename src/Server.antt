-- ===== src/Server.antt =====
-- internal/server/middleware, cmd/server/main.go and internal/handler/handler.go: who reaches a
-- handler of the API, and the status code of an error.
pub mod Auth
pub mod Status
mod Tests
use wsapi_app.Common.{
  ℕ, Bool, not, ◌&&◌, ◌||◌, String, ◌==◌, Option, none, some, if◌then◌else◌, true, false,
}
use wsapi_app.Config.{Config}
use wsapi_app.Instance.{Instance, Manager, get_instance}
use wsapi_app.Instance.Startup.{single_instance_id}

-- The headers that are read; an absent header is the empty text.
pub record HttpRequest : Type 0 where
  pub x_instance_id : String
  pub x_api_key : String

-- An error response with its status and detail, or the handler, with the instance in the context.
pub data Response : Type 0 where
  rejected : ℕ → String → Response
  handled : Option ℕ → Response

-- A handler: the instance in the request's context, and the request.
abbrev pub HttpHandler : Type 0
HttpHandler = Option ℕ → HttpRequest → Response

-- `AdminAuth`
unfoldable pub admin_auth : String → HttpHandler → HttpHandler
admin_auth admin_api_key next ctx r =
    if admin_api_key == ""
    then next ctx r
    else if r.x_api_key == "" || not (r.x_api_key == admin_api_key)
    then rejected 401 "unauthorized"
    else next ctx r

-- `HasService` and `IsPaired`; whether a client is logged in is asked of the client.
unfoldable pub has_service : Instance → Bool
has_service inst = elim inst.service [ none ↦ false | some _ ↦ true ]

unfoldable pub is_paired : (ℕ → Bool) → Manager → ℕ → Bool
is_paired is_logged_in m p = has_service (m.objects p) && is_logged_in p

module _ (m : Manager) where
  -- The test of the key, which both middlewares have, for an instance that was found.
  unfoldable pub check_key : ℕ → HttpHandler → HttpHandler
  check_key p next ctx r =
      let expected_key = (m.objects p).config.api_key in
      if not (expected_key == "") && not (r.x_api_key == expected_key)
      then rejected 401 "unauthorized"
      else next (some p) r

  -- `InstanceAuth`
  unfoldable pub instance_auth : HttpHandler → HttpHandler
  instance_auth next ctx r =
      if r.x_instance_id == ""
      then rejected 400 "missing X-Instance-Id header"
      else elim (get_instance m r.x_instance_id) [
        | none ↦ rejected 404 "instance not found"
        | some p ↦ check_key p next ctx r
      ]

  -- `SingleInstanceAuth`
  unfoldable pub single_instance_auth : String → HttpHandler → HttpHandler
  single_instance_auth instance_id next ctx r = elim (get_instance m instance_id) [
    | none ↦ rejected 503 "instance not available"
    | some p ↦ check_key p next ctx r
  ]

  -- `RequireService`
  unfoldable pub require_service : HttpHandler → HttpHandler
  require_service next none r = rejected 503 "instance not available"
  require_service next (some p) r =
      if not (has_service (m.objects p))
      then rejected 503 "instance not available"
      else next (some p) r

  -- `RequirePaired`
  unfoldable pub require_paired : (ℕ → Bool) → HttpHandler → HttpHandler
  require_paired is_logged_in next none r = rejected 409 "device not paired"
  require_paired is_logged_in next (some p) r =
      if not (is_paired is_logged_in m p) then rejected 409 "device not paired" else next (some p) r

  -- `instanceAuth` of `main`
  unfoldable pub main_auth : String → HttpHandler → HttpHandler
  main_auth mode next =
      if mode == "single" then single_instance_auth single_instance_id next else instance_auth next

  -- The chains of `main`: session routes, and the routes of a paired device.
  unfoldable pub session_route : String → HttpRequest → Response
  session_route mode r = main_auth mode (require_service (λ ctx r. handled ctx)) none r

  unfoldable pub paired_route : String → (ℕ → Bool) → HttpRequest → Response
  paired_route mode is_logged_in r =
      main_auth mode (require_service (require_paired is_logged_in (λ ctx r. handled ctx))) none r
