-- ===== src/Config/Load/Tests.antt =====
-- Loading with a variable that sets the mode of the instances, and with no file.
use wsapi_app.Common.{String, ◌==◌, Option, some, if◌then◌else◌}
use wsapi_app.Config.{Config}
use wsapi_app.Config.Load.{FileResult, not_exist, load}
use wsapi_app.Config.Load.Valid.{LoadOutcome, load_outcome}

abbrev no_files : String → FileResult
no_files path = not_exist

abbrev keep_defaults : String → Config → Option Config
keep_defaults text cfg = some cfg

abbrev one_variable : String → String
one_variable key = if key == "WSAPI_INSTANCE_MODE" then "many" else ""

load_outcome_example :
    LoadOutcome one_variable no_files keep_defaults "config.yaml"
      (load one_variable no_files keep_defaults "config.yaml")
load_outcome_example = load_outcome one_variable no_files keep_defaults "config.yaml"
