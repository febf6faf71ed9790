-- ===== src/Handler/Business.antt =====
-- The handler of business profiles of internal/handler/chat.go. Its answer is a profile with 200, or an
-- error with its status.
use wsapi_app.Common.{ℕ, String, List, [], Result, ok, err}
use wsapi_app.Whatsmeow.{Jid, WaTypes}
use wsapi_app.Server.Status.{Sentinel, service_status}
use wsapi_app.ChatService.Business.{
  BusinessProfileResponse, Nodes, ProfileError, invalid_jid, query_failed, no_business_profile,
  missing_jid, get_business_profile,
}

-- The sentinels that an error wraps, given those in the errors of the query.
unfoldable profile_sentinels : (String → List Sentinel) → ProfileError → List Sentinel
profile_sentinels client_sentinels (query_failed e) = client_sentinels e
profile_sentinels client_sentinels (invalid_jid _) = []
profile_sentinels client_sentinels no_business_profile = []
profile_sentinels client_sentinels missing_jid = []

-- `GetBusinessProfile`
unfoldable handle_business_profile :
    {Node : Type 0}
    → Nodes Node
    → (String → String)
    → WaTypes
    → (String → List Sentinel)
    → (Jid → Result String Node)
    → String
    → Result ℕ BusinessProfileResponse
handle_business_profile nodes parse_float wt client_sentinels query chat_id =
    elim (get_business_profile nodes parse_float wt query chat_id) [
      | err e ↦ err (service_status (profile_sentinels client_sentinels e))
      | ok profile ↦ ok profile
    ]
