-- ===== src/Config/Env.antt =====
-- internal/config/config.go: `applyEnv`. `getenv` is `os.Getenv`.
use Prim.Native.Char.{code}
use Prim.Native.String.{[], ◌∷◌}
use wsapi_app.Common.{
  ◌+◌, ◌-◌, ◌^◌, ℤ, pos, negsuc, Bool, true, false, not, ◌&&◌, ◌||◌, String, ◌==◌, Option, none,
  some, List, eqb, leb, ltb, if◌then◌else◌,
}
use wsapi_app.Text.{split}
use wsapi_app.Config.{Config, RedisConfig}
use wsapi_app.Config.Limits.{number_value}

-- `strconv.Atoi`, for an int of 64 bits.
unfoldable pub atoi : String → Option ℤ
atoi [] = none
atoi (c ∷ s) =
    if eqb (code c) b'-'
    then elim (number_value s) [
      | none ↦ none
      | some n ↦
          if eqb n 0 then some (pos 0) else if leb n (2 ^ 63) then some (negsuc (n - 1)) else none
    ]
    else elim (number_value (if eqb (code c) b'+' then s else c ∷ s)) [
      | none ↦ none
      | some n ↦ if ltb n (2 ^ 63) then some (pos n) else none
    ]

-- `strings.EqualFold(s, t)`, for a `t` of small letters that no other character folds to.
unfoldable pub equal_fold : String → String → Bool
equal_fold [] [] = true
equal_fold [] (d ∷ t) = false
equal_fold (c ∷ s) [] = false
equal_fold (c ∷ s) (d ∷ t) = (eqb (code c) (code d) || eqb (code c + 32) (code d)) && equal_fold s t

-- `strings.EqualFold(v, "true") || v == "1"`
unfoldable pub is_true : String → Bool
is_true v = equal_fold v "true" || v == "1"

abbrev pub is_negative : ℤ → Bool
is_negative (pos _) = false
is_negative (negsuc _) = true

-- `&RedisConfig{}`
abbrev pub empty_redis : RedisConfig
empty_redis = record {
  mode = "";
  url = "";
  password = "";
  db = pos 0;
  stream_name = "";
  tls = false;
  tls_insecure = false;
  master_name = "";
  sentinel_password = "";
  max_retries = pos 0;
  pool_size = pos 0;
  min_idle_conns = pos 0;
  max_idle_conns = pos 0;
  conn_max_idle_time = "";
  conn_max_lifetime = "";
}

-- `if cfg.Redis == nil { cfg.Redis = &RedisConfig{} }`
abbrev pub or_empty : Option RedisConfig → RedisConfig
or_empty none = empty_redis
or_empty (some r) = r

-- The value of `strconv.Atoi`, where it has one.
abbrev pub int_or : ℤ → String → ℤ
int_or old v = elim (atoi v) [ none ↦ old | some n ↦ n ]

module _ (getenv : String → String) where
  -- `setIfEnv`
  unfoldable pub set_if_env : String → String → String
  set_if_env old key = if not (getenv key == "") then getenv key else old

  -- An integer, a mark and a part of the Redis configuration, with the test of the variable.
  unfoldable pub int_env : ℤ → String → ℤ
  int_env old key = if not (getenv key == "") then int_or old (getenv key) else old

  unfoldable pub flag_env : Bool → String → Bool
  flag_env old key = if not (getenv key == "") then is_true (getenv key) else old

  unfoldable pub redis_env :
      String → (String → RedisConfig → RedisConfig) → Option RedisConfig → Option RedisConfig
  redis_env key set redis =
      if not (getenv key == "") then some (set (getenv key) (or_empty redis)) else redis

  -- The block about Redis, in its order.
  unfoldable pub apply_redis_env : Option RedisConfig → Option RedisConfig
  apply_redis_env redis =
      let r1 = redis_env "WSAPI_REDIS_MODE" (λ v r. record r { mode = v }) redis in
      let r2 = redis_env "WSAPI_REDIS_URL" (λ v r. record r { url = v }) r1 in
      let r3 = redis_env "WSAPI_REDIS_PASSWORD" (λ v r. record r { password = v }) r2 in
      let r4 = redis_env "WSAPI_REDIS_DB" (λ v r. record r { db = int_or r.db v }) r3 in
      let r5 = redis_env "WSAPI_REDIS_STREAM_NAME" (λ v r. record r { stream_name = v }) r4 in
      let r6 = redis_env "WSAPI_REDIS_TLS" (λ v r. record r { tls = is_true v }) r5 in
      let r7 =
        redis_env "WSAPI_REDIS_TLS_INSECURE" (λ v r. record r { tls_insecure = is_true v }) r6 in
      let r8 = redis_env "WSAPI_REDIS_MASTER_NAME" (λ v r. record r { master_name = v }) r7 in
      let r9 =
        redis_env "WSAPI_REDIS_SENTINEL_PASSWORD" (λ v r. record r { sentinel_password = v }) r8 in
      let r10 =
        redis_env "WSAPI_REDIS_MAX_RETRIES"
          (λ v r. record r { max_retries = int_or r.max_retries v }) r9 in
      let r11 =
        redis_env "WSAPI_REDIS_POOL_SIZE" (λ v r. record r { pool_size = int_or r.pool_size v })
          r10 in
      let r12 =
        redis_env "WSAPI_REDIS_MIN_IDLE_CONNS"
          (λ v r. record r { min_idle_conns = int_or r.min_idle_conns v }) r11 in
      let r13 =
        redis_env "WSAPI_REDIS_MAX_IDLE_CONNS"
          (λ v r. record r { max_idle_conns = int_or r.max_idle_conns v }) r12 in
      let r14 =
        redis_env "WSAPI_REDIS_CONN_MAX_IDLE_TIME" (λ v r. record r { conn_max_idle_time = v })
          r13 in
      redis_env "WSAPI_REDIS_CONN_MAX_LIFETIME" (λ v r. record r { conn_max_lifetime = v }) r14

  -- The concurrent downloads, which a negative number leaves alone.
  unfoldable pub downloads_env : ℤ → ℤ
  downloads_env old =
      let n = int_env old "WSAPI_MEDIA_MAX_CONCURRENT_DOWNLOADS" in
      let v = getenv "WSAPI_MEDIA_MAX_CONCURRENT_DOWNLOADS" in
      if not (v == "") && is_negative (int_or old v) then old else n

  unfoldable pub filters_env : List String → List String
  filters_env old =
      let v = getenv "WSAPI_DEFAULT_EVENT_FILTERS" in if not (v == "") then split b',' v else old

  unfoldable pub history_sync_env : Option Bool → Option Bool
  history_sync_env old =
      let v = getenv "WSAPI_DEFAULT_HISTORY_SYNC" in if not (v == "") then some (is_true v) else old

  -- `applyEnv`
  unfoldable pub apply_env : Config → Config
  apply_env cfg = record {
    server = record cfg.server { port = int_env cfg.server.port "WSAPI_PORT" };
    database = record {
      driver = set_if_env cfg.database.driver "WSAPI_DB_DRIVER";
      dsn = set_if_env cfg.database.dsn "WSAPI_DB_DSN";
    };
    whatsmeow = record {
      log_level = set_if_env cfg.whatsmeow.log_level "WSAPI_WHATSMEOW_LOG_LEVEL";
      pair_client_type =
          set_if_env cfg.whatsmeow.pair_client_type "WSAPI_WHATSMEOW_PAIR_CLIENT_TYPE";
      pair_client_os = set_if_env cfg.whatsmeow.pair_client_os "WSAPI_WHATSMEOW_PAIR_CLIENT_OS";
      max_parallel_retry_receipts =
          int_env cfg.whatsmeow.max_parallel_retry_receipts
            "WSAPI_WHATSMEOW_MAX_PARALLEL_RETRY_RECEIPTS";
    };
    auth = record { admin_api_key = set_if_env cfg.auth.admin_api_key "WSAPI_ADMIN_API_KEY" };
    logging = record {
      level = set_if_env cfg.logging.level "WSAPI_LOG_LEVEL";
      format = set_if_env cfg.logging.format "WSAPI_LOG_FORMAT";
      redact_pii = flag_env cfg.logging.redact_pii "WSAPI_LOG_REDACT";
    };
    instance_mode = set_if_env cfg.instance_mode "WSAPI_INSTANCE_MODE";
    events_publish_via = set_if_env cfg.events_publish_via "WSAPI_PUBLISH_VIA";
    instance_defaults = record cfg.instance_defaults {
      api_key = set_if_env cfg.instance_defaults.api_key "WSAPI_DEFAULT_API_KEY";
      webhook_url = set_if_env cfg.instance_defaults.webhook_url "WSAPI_DEFAULT_WEBHOOK_URL";
      signing_secret =
          set_if_env cfg.instance_defaults.signing_secret "WSAPI_DEFAULT_SIGNING_SECRET";
      event_filters = filters_env cfg.instance_defaults.event_filters;
      history_sync = history_sync_env cfg.instance_defaults.history_sync;
    };
    http_proxy = set_if_env cfg.http_proxy "WSAPI_HTTP_PROXY";
    media_max_file_size = set_if_env cfg.media_max_file_size "WSAPI_MEDIA_MAX_FILE_SIZE";
    media_max_concurrent_downloads = downloads_env cfg.media_max_concurrent_downloads;
    redis = apply_redis_env cfg.redis;
  }
