-- ===== src/Server/Tests.antt =====
-- The theorems about the server at a manager with one instance.
use wsapi_app.Common.{ℕ, ◌≡◌, ◌⊎◌, refl, true, false, Option, some}
use wsapi_app.Common.Dict.{lookup, insert}
use wsapi_app.Store.Instances.{save_instance}
use wsapi_app.Instance.{Manager, get_instance, visible, effective_config, apply_defaults}
use wsapi_app.Instance.Samples.{config, fresh, answers}
use wsapi_app.Instance.Lifecycle.{create_instance, create_new, register}
use wsapi_app.Server.{
  HttpRequest, has_service, is_paired, check_key, instance_auth, require_service, require_paired,
  main_auth, paired_route,
}
use wsapi_app.Server.Auth.{addressed, handled_is_authorised}
use wsapi_app.Server.Status.{}

abbrev one : Manager
one = (create_instance (answers true) "a" config fresh).1

abbrev request : HttpRequest
request = record { x_instance_id = "a"; x_api_key = "key" }

handled_is_authorised_example :
    (p : ℕ) × (◌≡◌ {A = Option ℕ} (some 0) (some p))
    × (get_instance one (addressed "multi" request) ≡ some p)
    × ((one.objects p).deleting ≡ false)
    × (((one.objects p).config.api_key ≡ "") ⊎ ("key" ≡ (one.objects p).config.api_key))
    × (has_service (one.objects p) ≡ true)
    × (true ≡ true)
unfolding create_instance create_new save_instance register lookup insert get_instance visible
    paired_route main_auth instance_auth check_key require_service require_paired is_paired
    has_service effective_config apply_defaults
handled_is_authorised_example = handled_is_authorised one "multi" (λ p. true) request (some 0) refl
