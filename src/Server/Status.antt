-- ===== src/Server/Status.antt =====
-- internal/handler/handler.go: `serviceStatus`. An error is the list of the sentinels that
-- `errors.Is` finds in it.
use wsapi_app.Common.{ℕ, Bool, false, ◌||◌, List, [], ◌∷◌, eqb, if◌then◌else◌}

-- The sentinels of internal/whatsapp/errors.go, of whatsmeow and of package context.
pub data Sentinel : Type 0 where
  err_not_found err_upstream err_too_large err_timeout : Sentinel
  deadline_exceeded canceled err_message_timed_out err_iq_timed_out : Sentinel

abbrev number : Sentinel → ℕ
number err_not_found = 0
number err_upstream = 1
number err_too_large = 2
number err_timeout = 3
number deadline_exceeded = 4
number canceled = 5
number err_message_timed_out = 6
number err_iq_timed_out = 7

-- `errors.Is`
unfoldable pub is : List Sentinel → Sentinel → Bool
is [] s = false
is (e ∷ es) s = eqb (number e) (number s) || is es s

-- `IsUpstreamTimeout`
unfoldable pub is_upstream_timeout : List Sentinel → Bool
is_upstream_timeout e = is e err_message_timed_out || is e err_iq_timed_out

-- `serviceStatus`
unfoldable pub service_status : List Sentinel → ℕ
service_status e =
    if is e err_not_found
    then 404
    else if is e err_upstream
    then 502
    else if is e err_too_large
    then 413
    else if is e err_timeout || is e deadline_exceeded
    then 504
    else if is_upstream_timeout e
    then 504
    else if is e canceled
    then 499
    else 400
