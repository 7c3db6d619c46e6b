-- ===== src/Config/Loaded.antt =====
-- `Load`: what it refuses and what it returns.
use maxwell_go_spine.Prelude.{
  ◌≡◌, ◌≢◌, ◌⊎◌, inl, inr, refl, ap, ◌∙◌, sym, Bool, true, false, not, ◌&&◌, ◌==◌, eq_iff, arith,
  All, String, ◌↔◌, Bool-cases, if◌then◌else◌,
}
use maxwell_go_spine.Go.Int.{ℤ, pos}
use maxwell_go_spine.Go.Text.Split.{to_lower}
use maxwell_go_spine.Go.Error.{Result, ok, and_then, and_then-eq-ok}
use maxwell_go_spine.Go.Text.Number.{atoi}
use maxwell_go_spine.Config.{
  origin_list, key_list, expiries_of, parsed_or, parse_int64_env, redis_db_number, is_in_memory,
  Platform, Config, get_env_default, validate, explained, port_of, fill, validated, load,
}
use maxwell_go_spine.Config.Keys.{IsKey, IsDated, key_list-IsKey, expiries_of-IsDated}

-- The three settings that `Load` and `Validate` check, and the keys as the API key middleware
-- takes them.
pub record IsValid (c : Config) : Type 0 where
  pub store : (c.in_memory ≡ true) ⊎ (c.db_dsn ≢ "")
  pub mode : (c.env ≡ "dev") ⊎ (c.env ≡ "prod")
  pub keys : All (IsKey b',') c.api_keys
  pub old_keys : All (IsKey b',') c.old_api_keys
  pub dated : All IsDated c.api_key_expiries

-- A variable's text, or what stands for it where it is unset or empty.
abbrev pub IsText : (String → String) → String → String → String → Type 0
IsText getenv name default v =
    (getenv name ≢ "" → v ≡ getenv name) × (getenv name ≡ "" → v ≡ default)

-- A variable's number, or what stands for it where the text is no number.
abbrev pub IsNumber : (String → String) → String → ℤ → ℤ → Type 0
IsNumber getenv name default v =
    ((i : ℤ) → getenv name ≢ "" → atoi (getenv name) ≡ (i, true) → v ≡ i)
    × ((i : ℤ) → atoi (getenv name) ≡ (i, false) → v ≡ default)
    × (getenv name ≡ "" → v ≡ default)

-- The configuration that README and config.go describe, variable by variable.
pub record Describes (platform : Platform) (c : Config) : Type 0 where
  pub app_name : IsText platform.getenv "APP_NAME" "maxwell-api" c.app_name
  pub env : IsText platform.getenv "ENV" "dev" c.env
  pub http_port :
      (t : String) → IsText platform.getenv "HTTP_PORT" "8080" t → atoi t ≡ (c.http_port, true)
  pub db_dsn : c.db_dsn ≡ platform.getenv "DB_DSN"
  pub in_memory : (c.in_memory ≡ true) ↔ (
      (platform.getenv "INMEMORY" ≡ "1")
      ⊎ (to_lower platform.unicode_lower (platform.getenv "INMEMORY") ≡ "true"))
  pub read_timeout :
      (t : String)
      → IsText platform.getenv "READ_TIMEOUT" "10s" t
      → platform.parse_duration t ≡ ok c.read_timeout
  pub write_timeout :
      (t : String)
      → IsText platform.getenv "WRITE_TIMEOUT" "15s" t
      → platform.parse_duration t ≡ ok c.write_timeout
  pub log_level : IsText platform.getenv "LOG_LEVEL" "info" c.log_level
  pub pprof_enabled : (c.pprof_enabled ≡ true) ↔ (platform.getenv "PPROF_ENABLED" ≡ "1")
  pub cors_origins : c.cors_origins ≡ origin_list (platform.getenv "CORS_ORIGINS")
  pub api_keys : c.api_keys ≡ key_list (platform.getenv "API_KEYS")
  pub old_api_keys : c.old_api_keys ≡ key_list (platform.getenv "API_KEYS_OLD")
  pub api_key_expiries :
      c.api_key_expiries ≡ expiries_of platform (platform.getenv "API_KEY_EXPIRIES")
  pub cache_max_cost : IsNumber platform.getenv "CACHE_MAX_COST" (pos 10000) c.cache_max_cost
  pub cache_num_counters :
      IsNumber platform.getenv "CACHE_NUM_COUNTERS" (pos 100000) c.cache_num_counters
  pub cache_buffer_items :
      IsNumber platform.getenv "CACHE_BUFFER_ITEMS" (pos 64) c.cache_buffer_items
  pub redis_addr : c.redis_addr ≡ platform.getenv "REDIS_ADDR"
  pub redis_password : c.redis_password ≡ platform.getenv "REDIS_PASSWORD"
  pub redis_db : IsNumber platform.getenv "REDIS_DB" (pos 0) c.redis_db

store_of : (b : Bool) (s : String) → (not b && s == "") ≡ false → (b ≡ true) ⊎ (s ≢ "")
store_of true s h = inl refl
store_of false s h = inr (λ same. ground (arith, eq_iff s ""))

mode_of :
    (s : String) → (not (s == "dev") && not (s == "prod")) ≡ false → (s ≡ "dev") ⊎ (s ≡ "prod")
mode_of s h = ground (arith, eq_iff s "dev", eq_iff s "prod")

abbrev lacks_store : Config → Bool
lacks_store c = not c.in_memory && c.db_dsn == ""

abbrev lacks_mode : Config → Bool
lacks_mode c = not (c.env == "dev") && not (c.env == "prod")

validate_ok : (c : Config) → validate c ≡ ok tt → (lacks_store c ≡ false) × (lacks_mode c ≡ false)
unfolding validate
validate_ok c h = ground arith

-- Three steps and what follows them.
three_steps :
    (a b d : Result ℤ) (f : ℤ → ℤ → ℤ → Result Config) (c : Config)
    → (and_then a λ n. and_then b λ rt. and_then d λ wt. f n rt wt) ≡ ok c
    → (n : ℤ) × (rt : ℤ) × (wt : ℤ) × (f n rt wt ≡ ok c)
three_steps a b d f c h =
    let (n, _, h1) = and_then-eq-ok a _ h in
    let (rt, _, h2) = and_then-eq-ok b _ h1 in
    let (wt, _, h3) = and_then-eq-ok d _ h2 in (n, rt, wt, h3)

validate_good :
    (c : Config)
    → (c.in_memory ≡ true) ⊎ (c.db_dsn ≢ "")
    → (c.env ≡ "dev") ⊎ (c.env ≡ "prod")
    → validate c ≡ ok tt
unfolding validate
validate_good c s m = ground (arith, eq_iff c.db_dsn "", eq_iff c.env "dev", eq_iff c.env "prod")

module _ (platform : Platform) where
  fill-IsValid :
      (n rt wt : ℤ) (c : Config) → validated platform (fill platform n rt wt) ≡ ok c → IsValid c
  unfolding validated fill
  fill-IsValid n rt wt c h =
      let (u, valid, same) = and_then-eq-ok _ _ h in
      let (s, m) = validate_ok (fill platform n rt wt) valid in
      let same' : fill platform n rt wt ≡ c = cc (same) in
      rw (sym same') (record {
        store = store_of _ _ s;
        mode = mode_of _ m;
        keys = key_list-IsKey _;
        old_keys = key_list-IsKey _;
        dated = expiries_of-IsDated platform _;
      })

  -- A configuration that `Load` returns has the in-memory store or a data source, runs as dev or
  -- prod, and each of its current, old and dated keys is trimmed and not empty; no current or old
  -- key holds a comma and no dated key a colon.
  pub load-IsValid : (c : Config) → load platform ≡ ok c → IsValid c
  unfolding load
  load-IsValid c h =
      let port = get_env_default platform "HTTP_PORT" "8080" in
      let read = platform.parse_duration (get_env_default platform "READ_TIMEOUT" "10s") in
      let write = platform.parse_duration (get_env_default platform "WRITE_TIMEOUT" "15s") in
      let (n, rt, wt, done) =
        three_steps (explained platform "invalid HTTP_PORT" (port_of platform port (atoi port)))
          (explained platform "invalid READ_TIMEOUT" read)
          (explained platform "invalid WRITE_TIMEOUT" write)
          (λ n rt wt. validated platform (fill platform n rt wt)) c h in
      fill-IsValid n rt wt c done

  get_env_default-IsText :
      (k d : String) → IsText platform.getenv k d (get_env_default platform k d)
  unfolding get_env_default
  get_env_default-IsText k d = (
    λ n. ground (arith, eq_iff (platform.getenv k) ""),
    λ e. ground (arith, eq_iff (platform.getenv k) ""),
  )

  -- A text that is read in this way is the one that `Load` reads.
  text_of : (k d t : String) → IsText platform.getenv k d t → get_env_default platform k d ≡ t
  unfolding get_env_default
  text_of k d t h = elim (Bool-cases (platform.getenv k == "")) [
    | inl e ↦ rw e (sym (h.1 ((eq_iff (platform.getenv k) "").0 e)))
    | inr e ↦ rw e (sym (h.0 (λ same. ground (arith, eq_iff (platform.getenv k) ""))))
  ]

  parsed-IsNumber :
      (k : String) (d v : ℤ)
      → v ≡ (if platform.getenv k == "" then d else parsed_or platform (atoi (platform.getenv k)) d)
      → IsNumber platform.getenv k d v
  parsed-IsNumber k d v e = (
    λ i n a.
        let full : (platform.getenv k == "") ≡ false =
          ground (arith, eq_iff (platform.getenv k) "", n) in
        e ∙ rw (full, a) refl,
    λ i a. e ∙ rw a (ground arith),
    λ m.
        let empty : (platform.getenv k == "") ≡ true = (eq_iff (platform.getenv k) "").1 m in
        e ∙ rw empty refl,
  )

  pub load_filled :
      (n rt wt : ℤ)
      → atoi (get_env_default platform "HTTP_PORT" "8080") ≡ (n, true)
      → platform.parse_duration (get_env_default platform "READ_TIMEOUT" "10s") ≡ ok rt
      → platform.parse_duration (get_env_default platform "WRITE_TIMEOUT" "15s") ≡ ok wt
      → ((fill platform n rt wt).in_memory ≡ true) ⊎ ((fill platform n rt wt).db_dsn ≢ "")
      → ((fill platform n rt wt).env ≡ "dev") ⊎ ((fill platform n rt wt).env ≡ "prod")
      → load platform ≡ ok (fill platform n rt wt)
  unfolding load validated
  load_filled n rt wt a r w s m = rw (a, r, w, validate_good (fill platform n rt wt) s m) refl

  fill-Describes :
      (n rt wt : ℤ)
      → atoi (get_env_default platform "HTTP_PORT" "8080") ≡ (n, true)
      → platform.parse_duration (get_env_default platform "READ_TIMEOUT" "10s") ≡ ok rt
      → platform.parse_duration (get_env_default platform "WRITE_TIMEOUT" "15s") ≡ ok wt
      → Describes platform (fill platform n rt wt)
  unfolding fill parse_int64_env redis_db_number is_in_memory get_env_default
  fill-Describes n rt wt a r w = record {
    app_name = get_env_default-IsText "APP_NAME" "maxwell-api";
    env = get_env_default-IsText "ENV" "dev";
    http_port = λ t h. ap atoi (sym (text_of "HTTP_PORT" "8080" t h)) ∙ a;
    db_dsn = refl;
    in_memory = (
      λ h. ground (
        arith,
        eq_iff (platform.getenv "INMEMORY") "1",
        eq_iff (to_lower platform.unicode_lower (platform.getenv "INMEMORY")) "true",
      ),
      λ h. ground (
        arith,
        eq_iff (platform.getenv "INMEMORY") "1",
        eq_iff (to_lower platform.unicode_lower (platform.getenv "INMEMORY")) "true",
      ),
    );
    read_timeout = λ t h. ap platform.parse_duration (sym (text_of "READ_TIMEOUT" "10s" t h)) ∙ r;
    write_timeout = λ t h. ap platform.parse_duration (sym (text_of "WRITE_TIMEOUT" "15s" t h)) ∙ w;
    log_level = get_env_default-IsText "LOG_LEVEL" "info";
    pprof_enabled = eq_iff (platform.getenv "PPROF_ENABLED") "1";
    cors_origins = refl;
    api_keys = refl;
    old_api_keys = refl;
    api_key_expiries = refl;
    cache_max_cost = parsed-IsNumber "CACHE_MAX_COST" (pos 10000) _ refl;
    cache_num_counters = parsed-IsNumber "CACHE_NUM_COUNTERS" (pos 100000) _ refl;
    cache_buffer_items = parsed-IsNumber "CACHE_BUFFER_ITEMS" (pos 64) _ refl;
    redis_addr = ground (arith, eq_iff (platform.getenv "REDIS_ADDR") "");
    redis_password = ground (arith, eq_iff (platform.getenv "REDIS_PASSWORD") "");
    redis_db = parsed-IsNumber "REDIS_DB" (pos 0) _ refl;
  }

  fill_store :
      (n rt wt : ℤ)
      → Describes platform (fill platform n rt wt)
      → ((platform.getenv "INMEMORY" ≡ "1")
          ⊎ (to_lower platform.unicode_lower (platform.getenv "INMEMORY") ≡ "true"))
        ⊎ (platform.getenv "DB_DSN" ≢ "")
      → ((fill platform n rt wt).in_memory ≡ true) ⊎ ((fill platform n rt wt).db_dsn ≢ "")
  fill_store n rt wt d (inl asked) = inl (d.in_memory.1 asked)
  fill_store n rt wt d (inr full) = inr (λ e. full (sym d.db_dsn ∙ e))

  fill_mode :
      (n rt wt : ℤ)
      → Describes platform (fill platform n rt wt)
      → (mode : String) → IsText platform.getenv "ENV" "dev" mode
      → (mode ≡ "dev") ⊎ (mode ≡ "prod")
      → ((fill platform n rt wt).env ≡ "dev") ⊎ ((fill platform n rt wt).env ≡ "prod")
  unfolding fill
  fill_mode n rt wt d mode h m = rw (text_of "ENV" "dev" mode h) m

  -- If the port is a number, both timeouts are durations, the in-memory store is asked for or a data
  -- source is named, and the mode is dev or prod, each with its default where the variable is unset
  -- or empty, then `Load` succeeds, and each field of what it returns comes from its own variable
  -- or, where that is unset, empty or no number, is its own default.
  pub load_complete :
      (port read write mode : String) (n rt wt : ℤ)
      → IsText platform.getenv "HTTP_PORT" "8080" port
      → atoi port ≡ (n, true)
      → IsText platform.getenv "READ_TIMEOUT" "10s" read
      → platform.parse_duration read ≡ ok rt
      → IsText platform.getenv "WRITE_TIMEOUT" "15s" write
      → platform.parse_duration write ≡ ok wt
      → ((platform.getenv "INMEMORY" ≡ "1")
          ⊎ (to_lower platform.unicode_lower (platform.getenv "INMEMORY") ≡ "true"))
        ⊎ (platform.getenv "DB_DSN" ≢ "")
      → IsText platform.getenv "ENV" "dev" mode
      → (mode ≡ "dev") ⊎ (mode ≡ "prod")
      → (c : Config) × (load platform ≡ ok c) × Describes platform c
  load_complete port read write mode n rt wt hp a hr r hw w store hm m =
      let a' = ap atoi (text_of "HTTP_PORT" "8080" port hp) ∙ a in
      let r' = ap platform.parse_duration (text_of "READ_TIMEOUT" "10s" read hr) ∙ r in
      let w' = ap platform.parse_duration (text_of "WRITE_TIMEOUT" "15s" write hw) ∙ w in
      let d = fill-Describes n rt wt a' r' w' in
      (
        fill platform n rt wt,
        load_filled n rt wt a' r' w' (fill_store n rt wt d store) (fill_mode n rt wt d mode hm m),
        d,
      )
