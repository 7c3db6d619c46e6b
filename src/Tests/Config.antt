-- ===== src/Tests/Config.antt =====
-- `Load` on a small environment.
use maxwell_go_spine.Prelude.{
  ◌≡◌, refl, inl, String, Option, none, some, List, [], ◌∷◌, ◌==◌, if◌then◌else◌,
}
use maxwell_go_spine.Prelude.Maps.Str.{lookup}
use maxwell_go_spine.Go.Int.{ℤ, pos}
use maxwell_go_spine.Go.Error.{plain, Result, ok, err}
use maxwell_go_spine.Go.Text.Split.{split}
use maxwell_go_spine.Go.Text.Trim.{trim_space}
use maxwell_go_spine.Go.Text.Number.{atoi}
use maxwell_go_spine.Config.{Platform, Config, fill, load, get_env_default, is_in_memory, key_list}
use maxwell_go_spine.Config.Loaded.{IsValid, Describes, load-IsValid, load_filled, load_complete}

abbrev or_empty : Option String → String
or_empty none = ""
or_empty (some v) = v

abbrev settings : List (String × String)
settings =
    ("INMEMORY", "1") ∷ ("API_KEYS", " k1, ,k2") ∷ ("API_KEY_EXPIRIES", "k1:2030-01-01,k2") ∷ []

abbrev seconds : String → Result ℤ
seconds v = if v == "10s" then ok (pos 10) else if v == "15s" then ok (pos 15) else err (plain v)

abbrev pub platform : Platform
platform = record {
  getenv = λ k. or_empty (lookup k settings);
  unicode_lower = λ c. c;
  parse_duration = seconds;
  parse_date = λ d. some (pos 1893456000);
  number_error = λ v. plain v;
}

abbrev pub config : Config
config = fill platform (pos 8080) (pos 10) (pos 15)

loaded : load platform ≡ ok config
unfolding atoi get_env_default fill is_in_memory
loaded = load_filled platform (pos 8080) (pos 10) (pos 15) refl refl refl (inl refl) (inl refl)

load_complete_example : (c : Config) × (load platform ≡ ok c) × Describes platform c
unfolding atoi
load_complete_example =
    load_complete platform "8080" "10s" "15s" "dev" (pos 8080) (pos 10) (pos 15)
      ((λ n. absurd (n refl)), (λ e. refl)) refl ((λ n. absurd (n refl)), (λ e. refl)) refl
      ((λ n. absurd (n refl)), (λ e. refl)) refl (inl (inl refl))
      ((λ n. absurd (n refl)), (λ e. refl)) (inl refl)

load-IsValid_example : IsValid config
load-IsValid_example = load-IsValid platform config loaded

keys_of_config : config.api_keys ≡ "k1" ∷ "k2" ∷ []
unfolding fill key_list split trim_space
keys_of_config = refl
