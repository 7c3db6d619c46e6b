-- ===== src/Config.antt =====
-- internal/config/config.go.
pub mod Keys
pub mod Loaded
use maxwell_go_spine.Prelude.{
  Char, String, Bool, true, false, not, ◌&&◌, ◌||◌, Option, none, some, List, [], ◌∷◌, ◌==◌,
  if◌then◌else◌,
}
use maxwell_go_spine.Prelude.Maps.Str.{insert}
use maxwell_go_spine.Go.Int.{ℤ, pos}
use maxwell_go_spine.Go.Error.{Err, plain, wrapped, Result, ok, err, panic, and_then}
use maxwell_go_spine.Go.Text.Trim.{trim_space}
use maxwell_go_spine.Go.Text.Split.{to_lower, contains_text, split, split_once}
use maxwell_go_spine.Go.Text.Number.{atoi}

-- `os.Getenv`, the table of `strings.ToLower`, `time.ParseDuration`, `time.Parse` with the layout
-- "2006-01-02", and the error that `strconv.Atoi` gives for a text.
pub record Platform : Type 0 where
  pub getenv : String → String
  pub unicode_lower : Char → Char
  pub parse_duration : String → Result ℤ
  pub parse_date : String → Option ℤ
  pub number_error : String → Err

-- Durations in nanoseconds, times in seconds from 1970.
pub record Config : Type 0 where
  pub app_name : String
  pub env : String
  pub http_port : ℤ
  pub db_dsn : String
  pub in_memory : Bool
  pub read_timeout : ℤ
  pub write_timeout : ℤ
  pub cors_origins : List String
  pub log_level : String
  pub pprof_enabled : Bool
  pub api_keys : List String
  pub old_api_keys : List String
  pub api_key_expiries : List (String × ℤ)
  pub cache_max_cost : ℤ
  pub cache_num_counters : ℤ
  pub cache_buffer_items : ℤ
  pub redis_addr : String
  pub redis_password : String
  pub redis_db : ℤ

-- The loop that fills `APIKeys`, and the one that fills `OldAPIKeys`.
unfoldable pub keep_keys : List String → List String
keep_keys [] = []
keep_keys (p ∷ ps) =
    let rest = keep_keys ps in if trim_space p == "" then rest else trim_space p ∷ rest

unfoldable pub key_list : String → List String
unfolding keep_keys
key_list v = if v == "" then [] else keep_keys (split b',' v)

unfoldable pub origin_list : String → List String
origin_list v = if v == "" then [] else split b',' v

unfoldable pub validate : Config → Result (Unit {0})
validate c =
    if not c.in_memory && c.db_dsn == ""
    then err (plain "DB_DSN required (or set INMEMORY=1 for in-memory store)")
    else if not (c.env == "dev") && not (c.env == "prod")
    then err (plain "ENV must be dev or prod")
    else ok tt

module _ (platform : Platform) where
  open platform use {getenv, unicode_lower, parse_duration, parse_date, number_error}

  unfoldable pub get_env_default : String → String → String
  get_env_default k def = if getenv k == "" then def else getenv k

  -- `strconv.ParseInt` in base 10 reads what `strconv.Atoi` reads.
  abbrev parsed_or : ℤ × Bool → ℤ → ℤ
  parsed_or (i, good) def = if good then i else def

  unfoldable pub parse_int64_env : String → ℤ → ℤ
  parse_int64_env k def = if getenv k == "" then def else parsed_or (atoi (getenv k)) def

  -- `if i, err := strconv.Atoi(v); err == nil { cfg.RedisDB = i }`
  unfoldable pub redis_db_number : String → ℤ
  redis_db_number v = if v == "" then pos 0 else parsed_or (atoi v) (pos 0)

  unfoldable pub is_in_memory : String → Bool
  is_in_memory v = v == "1" || to_lower unicode_lower v == "true"

  -- The loop over the pairs of `API_KEY_EXPIRIES`, from `strings.SplitN` on.
  abbrev pub date_key : String → Option ℤ → List (String × ℤ) → List (String × ℤ)
  date_key key none m = m
  date_key key (some ts) m = insert key ts m

  unfoldable pub add_dated : String × Option String → List (String × ℤ) → List (String × ℤ)
  add_dated (k, none) m = m
  add_dated (k, some d) m =
      if trim_space k == "" || trim_space d == ""
      then m
      else date_key (trim_space k) (parse_date (trim_space d)) m

  unfoldable pub add_expiry : String → List (String × ℤ) → List (String × ℤ)
  unfolding add_dated
  add_expiry pair m =
      let p = trim_space pair in
      if p == "" || not (contains_text p ":") then m else add_dated (split_once b':' p) m

  unfoldable pub add_expiries : List String → List (String × ℤ) → List (String × ℤ)
  unfolding add_expiry
  add_expiries [] m = m
  add_expiries (p ∷ ps) m = add_expiries ps (add_expiry p m)

  unfoldable pub expiries_of : String → List (String × ℤ)
  unfolding add_expiries
  expiries_of v = if v == "" then [] else add_expiries (split b',' v) []

  -- `fmt.Errorf("invalid …: %w", err)` around a call's error.
  abbrev pub explained : String → Result ℤ → Result ℤ
  explained text (ok n) = ok n
  explained text (err e) = err (wrapped text e)
  explained text panic = panic

  abbrev pub port_of : String → ℤ × Bool → Result ℤ
  port_of v (n, good) = if good then ok n else err (number_error v)

  -- `Load` behind the three values that can be invalid.
  unfoldable pub fill : ℤ → ℤ → ℤ → Config
  fill port rt wt = record {
    app_name = get_env_default "APP_NAME" "maxwell-api";
    env = get_env_default "ENV" "dev";
    http_port = port;
    db_dsn = getenv "DB_DSN";
    in_memory = is_in_memory (getenv "INMEMORY");
    read_timeout = rt;
    write_timeout = wt;
    cors_origins = origin_list (getenv "CORS_ORIGINS");
    log_level = get_env_default "LOG_LEVEL" "info";
    pprof_enabled = getenv "PPROF_ENABLED" == "1";
    api_keys = key_list (getenv "API_KEYS");
    old_api_keys = key_list (getenv "API_KEYS_OLD");
    api_key_expiries = expiries_of (getenv "API_KEY_EXPIRIES");
    cache_max_cost = parse_int64_env "CACHE_MAX_COST" (pos 10000);
    cache_num_counters = parse_int64_env "CACHE_NUM_COUNTERS" (pos 100000);
    cache_buffer_items = parse_int64_env "CACHE_BUFFER_ITEMS" (pos 64);
    redis_addr = get_env_default "REDIS_ADDR" "";
    redis_password = get_env_default "REDIS_PASSWORD" "";
    redis_db = redis_db_number (getenv "REDIS_DB");
  }

  unfoldable pub validated : Config → Result Config
  unfolding validate
  validated c = and_then (validate c) λ u. ok c

  unfoldable pub load : Result Config
  unfolding fill validated
  load =
      let port = get_env_default "HTTP_PORT" "8080" in
      and_then (explained "invalid HTTP_PORT" (port_of port (atoi port))) λ n.
        and_then
          (explained "invalid READ_TIMEOUT" (parse_duration (get_env_default "READ_TIMEOUT" "10s")))
          λ rt.
            and_then
              (explained "invalid WRITE_TIMEOUT"
                (parse_duration (get_env_default "WRITE_TIMEOUT" "15s")))
              λ wt. validated (fill n rt wt)
