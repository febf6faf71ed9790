-- ===== src/Config/Tests.antt =====
-- The theorem about the size limit at 3 megabytes, in small letters.
use wsapi_app.Common.{◌≡◌, ◌*◌, ◌%◌, ◌^◌, refl, inr, ne_of_eq_false, arith}
use wsapi_app.Config.{Config, defaults}
use wsapi_app.Config.Limits.{media_max_file_size_bytes}
use wsapi_app.Config.Limits.Units.{megabytes, media_size_of_unit}

abbrev config : Config
config = record defaults { media_max_file_size = "3mb" }

media_size_of_unit_example : media_max_file_size_bytes config ≡ (3 * (1024 * 1024)) % 2 ^ 64
media_size_of_unit_example =
    media_size_of_unit config "3" "m" "b" megabytes refl (ne_of_eq_false "3" "" refl) (refl, tt)
      (omega arith) (inr refl, inr refl)
