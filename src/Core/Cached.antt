-- ===== src/Core/Cached.antt =====
-- internal/core/cached_usersvc.go: `cachedUserService`, a user service with a cache in front.
pub mod Keys
pub mod Lists
pub mod InMemory
pub mod Fresh
pub mod Served
use Prim.Native.String.{◌++◌}
use maxwell_go_spine.Prelude.{ℕ, ◌+◌, ◌%◌, String, Option, none, some, List}
use maxwell_go_spine.Go.Int.{ℤ, word_mod}
use maxwell_go_spine.Go.Error.{Result, ok, err, panic, M}
use maxwell_go_spine.Go.Text.Number.{print_nat, print_int}
use maxwell_go_spine.Core.User.{Uuid, User, Env, UserService}
use maxwell_go_spine.Cache
use maxwell_go_spine.Cache.{Bytes, Layered, Stores}

-- `id.String()`, and package json on a user and on the anonymous structure of `List`.
pub record Codec : Type 0 where
  pub uuid_text : Uuid → String
  pub marshal_user : User → Bytes
  pub unmarshal_user : Bytes → Option User
  pub marshal_page : List User × ℤ → Bytes
  pub unmarshal_page : Bytes → Option (List User × ℤ)

-- The state of the service below, of the cache, and the list version, a uint64.
pub record Cached (S L R : Type 0) : Type 0 where
  pub base : S
  pub stores : Stores L R
  pub list_ver : ℕ

unfoldable pub cache_key_list : ℕ → ℤ → ℤ → String
cache_key_list ver page size =
    "user:list:v" ++ (print_nat ver ++ (":" ++ (print_int page ++ (":" ++ print_int size))))

module _ {S L R : Type 0} where
  -- s.listVer.Add(1)
  abbrev pub bump : Cached S L R → Cached S L R
  bump s = record s { list_ver = (s.list_ver + 1) % word_mod }

  -- A call of the service below.
  unfoldable pub on_base : {A : Type 0} → M S A → M (Cached S L R) A
  on_base call s = let (x, b) = call s.base in (x, record s { base = b })

module _ (codec : Codec) where
  open codec use {uuid_text, marshal_user, unmarshal_user, marshal_page, unmarshal_page}

  unfoldable pub cache_key_user : Uuid → String
  cache_key_user id = "user:get:" ++ uuid_text id

  module _ {S L R : Type 0} (cache : Layered L R) where
    unfoldable pub read_user : Option Bytes × Stores L R → Cached S L R → Option User × Cached S L R
    read_user (none, st) s = (none, record s { stores = st })
    read_user (some b, st) s = (unmarshal_user b, record s { stores = st })

    unfoldable pub get_user : Uuid → Cached S L R → Option User × Cached S L R
    unfolding read_user
    get_user id s = read_user (Cache.get cache (cache_key_user id) s.stores) s

    unfoldable pub set_user : User → Cached S L R → Cached S L R
    set_user u s = record s {
      stores = Cache.set cache (cache_key_user u.id) (marshal_user u) s.stores;
    }

    unfoldable pub del_user : Uuid → Cached S L R → Cached S L R
    del_user id s = record s { stores = Cache.delete cache (cache_key_user id) s.stores }

    -- `Create` behind `s.base.Create`.
    unfoldable pub created : Result User × Cached S L R → Result User × Cached S L R
    unfolding set_user
    created (ok u, s) = (ok u, set_user u (bump s))
    created (err e, s) = (err e, s)
    created (panic, s) = (panic, s)

    -- `Get` behind `s.base.Get`.
    unfoldable pub fetched : Result User × Cached S L R → Result User × Cached S L R
    unfolding set_user
    fetched (ok u, s) = (ok u, set_user u s)
    fetched (err e, s) = (err e, s)
    fetched (panic, s) = (panic, s)

    -- `Update` behind `s.base.Update`.
    unfoldable pub updated : Uuid → Result User × Cached S L R → Result User × Cached S L R
    unfolding set_user del_user
    updated id (ok u, s) = (ok u, set_user u (bump (del_user id s)))
    updated id (err e, s) = (err e, s)
    updated id (panic, s) = (panic, s)

    -- `Delete` behind `s.base.Delete`.
    unfoldable pub deleted :
        Uuid → Result (Unit {0}) × Cached S L R → Result (Unit {0}) × Cached S L R
    unfolding del_user
    deleted id (ok u, s) = (ok u, bump (del_user id s))
    deleted id (err e, s) = (err e, s)
    deleted id (panic, s) = (panic, s)

    -- `List` behind `s.base.List`.
    unfoldable pub listed :
        String → Result (List User × ℤ) × Cached S L R → Result (List User × ℤ) × Cached S L R
    listed key (ok p, s) =
        (ok p, record s { stores = Cache.set cache key (marshal_page p) s.stores })
    listed key (err e, s) = (err e, s)
    listed key (panic, s) = (panic, s)

    module _ (base : UserService S) where
      unfoldable pub create : Env → String → String → M (Cached S L R) User
      unfolding created
      create env name email s = created (on_base (base.create env name email) s)

      -- `Get` behind `s.getUser`.
      unfoldable pub after_get_user :
          Env → Uuid → Option User × Cached S L R → Result User × Cached S L R
      unfolding fetched
      after_get_user env id (some u, s) = (ok u, s)
      after_get_user env id (none, s) = fetched (on_base (base.get env id) s)

      unfoldable pub get : Env → Uuid → M (Cached S L R) User
      unfolding after_get_user
      get env id s = after_get_user env id (get_user id s)

      unfoldable pub update : Env → Uuid → Option String → Option String → M (Cached S L R) User
      unfolding updated
      update env id name email s = updated id (on_base (base.update env id name email) s)

      unfoldable pub delete : Env → Uuid → M (Cached S L R) (Unit {0})
      unfolding deleted
      delete env id s = deleted id (on_base (base.delete env id) s)

      -- `List` behind the page's decoding.
      unfoldable pub after_page :
          Env → ℤ → ℤ → String → Option (List User × ℤ) → M (Cached S L R) (List User × ℤ)
      unfolding listed
      after_page env page size key (some p) s = (ok p, s)
      after_page env page size key none s = listed key (on_base (base.list env page size) s)

      -- `List` behind `s.cache.Get`.
      unfoldable pub after_lookup :
          Env → ℤ → ℤ → String → Option Bytes × Stores L R → M (Cached S L R) (List User × ℤ)
      unfolding after_page
      after_lookup env page size key (none, st) s =
          after_page env page size key none (record s { stores = st })
      after_lookup env page size key (some b, st) s =
          after_page env page size key (unmarshal_page b) (record s { stores = st })

      unfoldable pub list : Env → ℤ → ℤ → M (Cached S L R) (List User × ℤ)
      unfolding after_lookup
      list env page size s =
          let key = cache_key_list s.list_ver page size in
          after_lookup env page size key (Cache.get cache key s.stores) s

  -- Without a cache the service below is used as it is.
  unfoldable pub new_cached_user_service :
      {S L R : Type 0} → UserService S → Option (Layered L R) → UserService (Cached S L R)
  new_cached_user_service base none = record {
    create = λ env name email. on_base (base.create env name email);
    get = λ env id. on_base (base.get env id);
    update = λ env id name email. on_base (base.update env id name email);
    delete = λ env id. on_base (base.delete env id);
    list = λ env page size. on_base (base.list env page size);
  }
  new_cached_user_service base (some cache) = record {
    create = create cache base;
    get = get cache base;
    update = update cache base;
    delete = delete cache base;
    list = list cache base;
  }

-- `WithTx` goes to the service below and leaves the cache alone.
unfoldable pub with_tx : {S L R : Type 0} → M S (Unit {0}) → M (Cached S L R) (Unit {0})
unfolding on_base
with_tx base_with_tx = on_base base_with_tx
