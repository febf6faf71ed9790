-- ===== src/Config/Load/Valid.antt =====
-- What a configuration that was loaded is.
use mathlib.Core.Path.{fun_ext}
use wsapi_app.Common.{
  ◌≡◌, ◌≢◌, refl, ap, ◌∙◌, true, false, String, ◌==◌, Option, none, some, List, [], ◌∷◌, contains,
  Bool-cases, Option-cases, inl, inr, ◌⊎◌, Result, ok, err, eq_iff,
}
use wsapi_app.Config.{Config, RedisConfig, defaults}
use wsapi_app.Config.Env.{
  set_if_env, int_env, flag_env, redis_env, apply_redis_env, downloads_env, filters_env,
  history_sync_env, apply_env,
}
use wsapi_app.Config.Load.{
  FileResult, not_exist, failed, contents, ConfigError, reading, parsing, invalid, Check,
  log_levels, redis_checks, checks, run_checks, validate, load_file, load,
}

abbrev pub IsOneOf : String → List String → Type 0
IsOneOf value allowed = contains value allowed ≡ true

-- The settings with a fixed choice of values have one of them. A Redis mode may also be empty.
pub record IsValid (cfg : Config) : Type 0 where
  pub instance_mode : IsOneOf cfg.instance_mode ("single" ∷ "multi" ∷ [])
  pub events_publish_via : IsOneOf cfg.events_publish_via ("none" ∷ "webhook" ∷ "redis" ∷ [])
  pub driver : IsOneOf cfg.database.driver ("sqlite" ∷ "postgres" ∷ [])
  pub level : IsOneOf cfg.logging.level log_levels
  pub format : IsOneOf cfg.logging.format ("text" ∷ "json" ∷ [])
  pub log_level : IsOneOf cfg.whatsmeow.log_level log_levels
  pub pair_client_type :
      IsOneOf cfg.whatsmeow.pair_client_type
        ("chrome" ∷ "edge" ∷ "firefox" ∷ "opera" ∷ "safari" ∷ [])
  pub pair_client_os : IsOneOf cfg.whatsmeow.pair_client_os ("Windows" ∷ "Linux" ∷ "macOS" ∷ [])
  pub redis_mode :
      (r : RedisConfig)
      → cfg.redis ≡ some r
      → r.mode ≢ ""
      → IsOneOf r.mode ("standalone" ∷ "sentinel" ∷ [])

run_checks-cons :
    (field value : String) (allowed : List String) (rest : List Check)
    → run_checks ((field, value, allowed) ∷ rest) ≡ none
    → IsOneOf value allowed × (run_checks rest ≡ none)
unfolding run_checks
run_checks-cons field value allowed rest h = elim (Bool-cases (contains value allowed)) [
  | inl e ↦ (e, rw e at h)
  | inr e ↦ absurd (cc (rw e at h))
]

redis_checks-none :
    (redis : Option RedisConfig) (r : RedisConfig)
    → run_checks (redis_checks redis) ≡ none
    → redis ≡ some r
    → r.mode ≢ ""
    → IsOneOf r.mode ("standalone" ∷ "sentinel" ∷ [])
unfolding run_checks
redis_checks-none none r h e n = absurd (cc)
redis_checks-none (some q) r h e n =
    let same : q ≡ r = cc in
    elim (Bool-cases (r.mode == "")) [
      | inl empty ↦ absurd (n ((eq_iff r.mode "").0 empty))
      | inr set ↦
          (run_checks-cons "redis.mode" r.mode ("standalone" ∷ "sentinel" ∷ []) []
            (rw (same, set) at h)).0
    ]

validate-IsValid : (cfg : Config) → validate cfg ≡ none → IsValid cfg
unfolding validate checks
validate-IsValid cfg h =
    let (c1, h1) = run_checks-cons _ _ _ _ h in
    let (c2, h2) = run_checks-cons _ _ _ _ h1 in
    let (c3, h3) = run_checks-cons _ _ _ _ h2 in
    let (c4, h4) = run_checks-cons _ _ _ _ h3 in
    let (c5, h5) = run_checks-cons _ _ _ _ h4 in
    let (c6, h6) = run_checks-cons _ _ _ _ h5 in
    let (c7, h7) = run_checks-cons _ _ _ _ h6 in
    let (c8, h8) = run_checks-cons _ _ _ _ h7 in
    record {
      instance_mode = c1;
      events_publish_via = c2;
      driver = c3;
      level = c4;
      format = c5;
      log_level = c6;
      pair_client_type = c7;
      pair_client_os = c8;
      redis_mode = λ r e n. redis_checks-none cfg.redis r h8 e n;
    }

-- The first check that fails.
run_checks-some :
    (cs : List Check) (field value : String) (allowed : List String)
    → run_checks cs ≡ some (invalid field value allowed)
    → contains value allowed ≡ false
unfolding run_checks
run_checks-some [] field value allowed h = absurd (cc)
run_checks-some ((f, v, a) ∷ rest) field value allowed h = elim (Bool-cases (contains v a)) [
  | inl e ↦ run_checks-some rest field value allowed (rw e at h)
  | inr e ↦
      let found : ◌≡◌ {A = Option ConfigError} (some (invalid f v a))
          (some (invalid field value allowed)) =
        rw e at h in
      let same_value : v ≡ value = cc in
      let same_allowed : a ≡ allowed = cc in rw (← same_value, ← same_allowed) e
]

only_invalid :
    (cs : List Check) (e : ConfigError) → run_checks cs ≡ some e → (e ≢ reading) × (e ≢ parsing)
unfolding run_checks
only_invalid [] e h = absurd (cc)
only_invalid ((f, v, a) ∷ rest) e h = elim (Bool-cases (contains v a)) [
  | inl c ↦ only_invalid rest e (rw c at h)
  | inr c ↦
      let found : ◌≡◌ {A = Option ConfigError} (some (invalid f v a)) (some e) = rw c at h in
      (λ r. cc, λ r. cc)
]

unset_env : apply_env (λ key. "") defaults ≡ defaults
unfolding apply_env set_if_env int_env flag_env redis_env apply_redis_env downloads_env filters_env
    history_sync_env defaults
unset_env = refl

default_valid : validate defaults ≡ none
unfolding validate checks run_checks defaults
default_valid = refl

module _ (getenv : String → String) (read_file : String → FileResult)
    (unmarshal : String → Config → Option Config) (path : String) where
  -- What each answer of `Load` says.
  abbrev pub LoadOutcome : Result ConfigError Config → Type 0
  LoadOutcome (ok cfg) =
      IsValid cfg
      × ((file : Config) × (load_file getenv read_file unmarshal path ≡ ok file)
          × (cfg ≡ apply_env getenv file))
  LoadOutcome (err reading) = read_file path ≡ failed
  LoadOutcome (err parsing) =
      (text : String) × (read_file path ≡ contents text) × (unmarshal text defaults ≡ none)
  LoadOutcome (err (invalid field value allowed)) =
      (contains value allowed ≡ false)
      × ((file : Config) × (load_file getenv read_file unmarshal path ≡ ok file))

  Read : FileResult → Type 0
  Read r = (r ≡ failed) ⊎ ((r ≡ not_exist) ⊎ ((text : String) × (r ≡ contents text)))

  Read-cases : (r : FileResult) → Read r
  unfolding Read
  Read-cases failed = inl refl
  Read-cases not_exist = inr (inl refl)
  Read-cases (contents text) = inr (inr (text, refl))

  checked :
      (file : Config)
      → load_file getenv read_file unmarshal path ≡ ok file
      → LoadOutcome (load getenv read_file unmarshal path)
  unfolding load validate
  checked file h = elim (Option-cases (validate (apply_env getenv file))) [
    | inl e ↦ rw (h, load, e) (validate-IsValid (apply_env getenv file) e, (file, h, refl))
    | inr (reading, e) ↦ absurd ((only_invalid _ reading e).0 refl)
    | inr (parsing, e) ↦ absurd ((only_invalid _ parsing e).1 refl)
    | inr (invalid field value allowed, e) ↦
        rw (h, load, e) (run_checks-some _ field value allowed e, (file, h))
  ]

  unread :
      (e : ConfigError)
      → load_file getenv read_file unmarshal path ≡ err e
      → LoadOutcome (err e)
      → LoadOutcome (load getenv read_file unmarshal path)
  unfolding load
  unread e h o = rw (h, load) o

  -- Whatever `Load` answers is right. A configuration that it returns is what the environment makes of
  -- the file, or of the defaults, and every setting with a fixed choice of values has one of them. An
  -- error about an invalid setting names a value that is not among those allowed, after the file was
  -- read; the error of reading means that the file exists and could not be read, that of parsing
  -- that its text was refused.
  pub load_outcome : LoadOutcome (load getenv read_file unmarshal path)
  unfolding load_file Read
  load_outcome = elim (Bool-cases (path == "")) [
    | inl e ↦ checked defaults (rw e refl)
    | inr e ↦ elim (Read-cases (read_file path)) [
      | inl r ↦ unread reading (rw (e, r, load_file) refl) r
      | inr (inl r) ↦ checked defaults (rw (e, r, load_file) refl)
      | inr (inr (text, r)) ↦ elim (Option-cases (unmarshal text defaults)) [
        | inl u ↦ unread parsing (rw (e, r, load_file, u) refl) (text, r, u)
        | inr (file, u) ↦ checked file (rw (e, r, load_file, u) refl)
      ]
    ]
  ]

  default_file :
      read_file path ≡ not_exist → load_file getenv read_file unmarshal path ≡ ok defaults
  unfolding load_file
  default_file missing = elim (Bool-cases (path == "")) [
    | inl e ↦ rw e refl
    | inr e ↦ rw (e, missing, load_file) refl
  ]

  -- With no file and no variable in the environment, `Load` returns the defaults, which are valid.
  pub load_default :
      ((key : String) → getenv key ≡ "")
      → read_file path ≡ not_exist
      → (load getenv read_file unmarshal path ≡ ok defaults) × IsValid defaults
  unfolding load
  load_default unset missing =
      let applied : apply_env getenv defaults ≡ defaults =
        ap (λ g. apply_env g defaults) (fun_ext {g = λ key. ""} unset) ∙ unset_env in
      let read = default_file missing in
      (
        rw (read, load, applied, default_valid) (ap ok applied),
        validate-IsValid defaults default_valid,
      )
