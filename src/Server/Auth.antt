-- ===== src/Server/Auth.antt =====
-- What is known of a request that reaches a handler.
use wsapi_app.Common.{
  ℕ, ◌≡◌, Bool, true, false, ◌⊎◌, inl, inr, String, ◌==◌, Option, none, some, arith, eq_iff,
  if◌then◌else◌, Option-cases,
}
use wsapi_app.Instance.{Manager, get_instance}
use wsapi_app.Instance.Lookup.{get-eq-some}
use wsapi_app.Instance.Startup.{single_instance_id}
use wsapi_app.Server.{
  HttpRequest, handled, HttpHandler, has_service, is_paired, check_key, instance_auth,
  single_instance_auth, require_service, require_paired, main_auth, paired_route,
}

-- The ID that a request addresses.
abbrev pub addressed : String → HttpRequest → String
addressed mode r = if mode == "single" then single_instance_id else r.x_instance_id

-- What lies behind the lookup.
guarded :
    (m : Manager) (is_logged_in : ℕ → Bool) (r : HttpRequest) (ctx : Option ℕ) (p : ℕ)
    → check_key m p
        (require_service m (require_paired m is_logged_in (λ ctx r. handled ctx)))
        none
        r
      ≡ handled ctx
    → (ctx ≡ some p)
      × (((m.objects p).config.api_key ≡ "") ⊎ (r.x_api_key ≡ (m.objects p).config.api_key))
      × (has_service (m.objects p) ≡ true)
      × (is_logged_in p ≡ true)
unfolding check_key require_service require_paired is_paired
guarded m is_logged_in r ctx p h =
    ground (
      arith,
      eq_iff (m.objects p).config.api_key "",
      eq_iff r.x_api_key (m.objects p).config.api_key,
    )

-- The lookup, and what lies behind it.
found_first :
    (m : Manager) (mode : String) (next : HttpHandler) (r : HttpRequest) (ctx : Option ℕ)
    → main_auth m mode next none r ≡ handled ctx
    → (p : ℕ) × (get_instance m (addressed mode r) ≡ some p)
      × (check_key m p next none r ≡ handled ctx)
unfolding main_auth instance_auth single_instance_auth
found_first m mode next r ctx h = elim (Option-cases (get_instance m (addressed mode r))) [
  | inl absent ↦ absurd (ground (arith, absent))
  | inr (p, found) ↦ (p, found, ground (arith, found))
]

-- A request that reaches a handler of a paired device, in either mode, has in its context an
-- instance that the manager finds under the addressed ID, so that it is an entry and is not being
-- deleted; the request carries the key of that instance, unless the instance has none; and the
-- instance has a service that is logged in.
pub handled_is_authorised :
    (m : Manager) (mode : String) (is_logged_in : ℕ → Bool) (r : HttpRequest) (ctx : Option ℕ)
    → paired_route m mode is_logged_in r ≡ handled ctx
    → (p : ℕ) × (ctx ≡ some p)
      × (get_instance m (addressed mode r) ≡ some p)
      × ((m.objects p).deleting ≡ false)
      × (((m.objects p).config.api_key ≡ "") ⊎ (r.x_api_key ≡ (m.objects p).config.api_key))
      × (has_service (m.objects p) ≡ true)
      × (is_logged_in p ≡ true)
unfolding paired_route
handled_is_authorised m mode is_logged_in r ctx h =
    let (p, found, behind) = found_first m mode _ r ctx h in
    let (same, key, service, logged_in) = guarded m is_logged_in r ctx p behind in
    (p, same, found, (get-eq-some (addressed mode r) m p found).1, key, service, logged_in)
