-- ===== src/Core/Cached/Served.antt =====
-- Sequences of calls on the caching service.
use mathlib.Core.Path.{subst}
use maxwell_go_spine.Prelude.{ℕ, ◌≡◌, refl, sym, ◌∙◌, String, Option, none, some, List, [], ◌∷◌}
use maxwell_go_spine.Go.Int.{ℤ}
use maxwell_go_spine.Go.Error.{Result, ok, err, panic}
use maxwell_go_spine.Core.User.{Uuid, User, Env, UserService}
use maxwell_go_spine.Cache.{Bytes, Layered, Stores}
use maxwell_go_spine.Cache.Coherence.{IsLocal, IsRedis, AnswerValid, Coherent, get-Coherent}
use maxwell_go_spine.Core.Cached.{
  Codec, Cached, cache_key_list, on_base, cache_key_user, read_user, get_user, set_user, del_user,
  created, fetched, updated, deleted, listed, create, after_get_user, get, update, delete,
  after_page, after_lookup, list,
}
use maxwell_go_spine.Core.Cached.Fresh.{
  IsCodec, Same, Wrote, Found, Removed, IsUserStore, Current, Fresh, created-Fresh, fetched-Fresh,
  updated-Fresh, deleted-Fresh, listed-Fresh,
}

pub data Call : Type 0 where
  create_call : Env → String → String → Call
  get_call : Env → Uuid → Call
  update_call : Env → Uuid → Option String → Option String → Call
  delete_call : Env → Uuid → Call
  list_call : Env → ℤ → ℤ → Call

module _ (codec : Codec) {S L R : Type 0} (cache : Layered L R) (base : UserService S) where
  -- The state that a call leaves, and a sequence of calls.
  unfoldable pub serve : Call → Cached S L R → Cached S L R
  serve (create_call env name email) s = (create codec cache base env name email s).1
  serve (get_call env id) s = (get codec cache base env id s).1
  serve (update_call env id name email) s = (update codec cache base env id name email s).1
  serve (delete_call env id) s = (delete codec cache base env id s).1
  serve (list_call env page size) s = (list codec cache base env page size s).1

  unfoldable pub serve_all : List Call → Cached S L R → Cached S L R
  unfolding serve
  serve_all [] s = s
  serve_all (c ∷ cs) s = serve_all cs (serve c s)

-- What the caching service leaves below is what the service below left.
module _ (codec : Codec) {S L R : Type 0} (cache : Layered L R) (s : Cached S L R) where
  created_base :
      (x : Result User × S) → (created codec cache (x.0, record s { base = x.1 })).1.base ≡ x.1
  unfolding created set_user del_user
  created_base (ok u, b) = refl
  created_base (err e, b) = refl
  created_base (panic, b) = refl

  updated_base :
      (id : Uuid) (x : Result User × S)
      → (updated codec cache id (x.0, record s { base = x.1 })).1.base ≡ x.1
  unfolding updated set_user del_user
  updated_base id (ok u, b) = refl
  updated_base id (err e, b) = refl
  updated_base id (panic, b) = refl

  deleted_base :
      (id : Uuid) (x : Result (Unit {0}) × S)
      → (deleted codec cache id (x.0, record s { base = x.1 })).1.base ≡ x.1
  unfolding deleted set_user del_user
  deleted_base id (ok u, b) = refl
  deleted_base id (err e, b) = refl
  deleted_base id (panic, b) = refl

  listed_base :
      (key : String) (x : Result (List User × ℤ) × S)
      → (listed codec cache key (x.0, record s { base = x.1 })).1.base ≡ x.1
  unfolding listed set_user del_user
  listed_base key (ok u, b) = refl
  listed_base key (err e, b) = refl
  listed_base key (panic, b) = refl

module _ (codec : Codec) (json : IsCodec codec) {S L R : Type 0} (base : UserService S)
    (find : Uuid → S → Option User) (Valid : S → Type 0) (store : IsUserStore base find Valid)
    (cache : Layered L R) (Near : String → Bytes → L → Type 0) (Far : String → Bytes → R → Type 0)
    (near : IsLocal Near cache.local) (far : IsRedis Far cache.ttl cache.redis) where
  -- The service below is in a valid state, and the cache is fresh.
  abbrev pub IsFresh : Cached S L R → Type 0
  IsFresh s = Valid s.base × Fresh codec find cache Near Far s

  -- A user that the cache answered is the one that the service below finds.
  abbrev Hit : Uuid → Option User × Cached S L R → Type 0
  Hit id (none, s) = IsFresh s
  Hit id (some u, s) = (find id s.base ≡ some u) × IsFresh s

  decoded-Hit :
      (id : Uuid) (s : Cached S L R) (w : Option User) (b : Bytes)
      → codec.unmarshal_user b ≡ w
      → Current codec find s.base (cache_key_user codec id) b
      → IsFresh s
      → Hit id (w, s)
  decoded-Hit id s none b e v f = f
  decoded-Hit id s (some u) b e v f = (v id u refl e, f)

  read_user-Hit :
      (id : Uuid) (s : Cached S L R) (x : Option Bytes × Stores L R)
      → Valid s.base
      → AnswerValid (Current codec find s.base) (cache_key_user codec id) x.0
      → Coherent cache Near Far (Current codec find s.base) x.1
      → Hit id (read_user codec cache x s)
  unfolding read_user
  read_user-Hit id s (none, st) valid a f = (valid, f)
  read_user-Hit id s (some b, st) valid a f =
      decoded-Hit id (record s { stores = st }) _ b refl a (valid, f)

  get_user-Hit : (id : Uuid) (s : Cached S L R) → IsFresh s → Hit id (get_user codec cache id s)
  unfolding get_user
  get_user-Hit id s (valid, f) =
      let (a, f') = get-Coherent cache Near Far near far (cache_key_user codec id) s.stores f in
      read_user-Hit id s _ valid a f'

  -- The answer of `Get`, and the state behind it.
  abbrev pub Answers : Uuid → Result User × Cached S L R → Type 0
  Answers id (ok u, s) = (find id s.base ≡ some u) × IsFresh s
  Answers id (err e, s) = IsFresh s
  Answers id (panic, s) = IsFresh s

  fetched-Answers :
      (env : Env) (id : Uuid) (s : Cached S L R) (x : Result User × S)
      → base.get env id s.base ≡ x
      → Found find s.base x
      → Valid x.1
      → Fresh codec find cache Near Far s
      → Answers id (fetched codec cache (x.0, record s { base = x.1 }))
  unfolding fetched set_user
  fetched-Answers env id s (ok u, b) e (h, same) valid f = (
    same id ∙ store.answers env id s.base b u e,
    (valid, fetched-Fresh codec json find cache Near Far near far s (ok u, b) (h, same) f),
  )
  fetched-Answers env id s (err x, b) e same valid f =
      (valid, fetched-Fresh codec json find cache Near Far near far s (err x, b) same f)
  fetched-Answers env id s (panic, b) e same valid f =
      (valid, fetched-Fresh codec json find cache Near Far near far s (panic, b) same f)

  after_get_user-Answers :
      (env : Env) (id : Uuid) (x : Option User × Cached S L R)
      → Hit id x
      → Answers id (after_get_user codec cache base env id x)
  unfolding after_get_user on_base
  after_get_user-Answers env id (some u, s) h = h
  after_get_user-Answers env id (none, s) (valid, f) =
      let (found, valid') = store.gets env id s.base valid in
      fetched-Answers env id s _ refl found valid' f

  pub get-Answers :
      (env : Env) (id : Uuid) (s : Cached S L R)
      → IsFresh s
      → Answers id (get codec cache base env id s)
  unfolding get
  get-Answers env id s f = after_get_user-Answers env id _ (get_user-Hit id s f)

  pub Answers-Fresh : (id : Uuid) (x : Result User × Cached S L R) → Answers id x → IsFresh x.1
  Answers-Fresh id (ok u, s) (h, f) = f
  Answers-Fresh id (err e, s) f = f
  Answers-Fresh id (panic, s) f = f

  created-IsFresh :
      (s : Cached S L R) (x : Result User × S)
      → Wrote find s.base x × Valid x.1
      → Fresh codec find cache Near Far s
      → IsFresh (created codec cache (x.0, record s { base = x.1 })).1
  created-IsFresh s x (w, valid) f = (
    subst Valid (sym (created_base codec cache s x)) valid,
    created-Fresh codec json find cache Near Far near far s x w f,
  )

  updated-IsFresh :
      (id : Uuid) (s : Cached S L R) (x : Result User × S)
      → Wrote find s.base x × Valid x.1
      → Fresh codec find cache Near Far s
      → IsFresh (updated codec cache id (x.0, record s { base = x.1 })).1
  updated-IsFresh id s x (w, valid) f = (
    subst Valid (sym (updated_base codec cache s id x)) valid,
    updated-Fresh codec json find cache Near Far near far id s x w f,
  )

  deleted-IsFresh :
      (id : Uuid) (s : Cached S L R) (x : Result (Unit {0}) × S)
      → Removed find id s.base x × Valid x.1
      → Fresh codec find cache Near Far s
      → IsFresh (deleted codec cache id (x.0, record s { base = x.1 })).1
  deleted-IsFresh id s x (w, valid) f = (
    subst Valid (sym (deleted_base codec cache s id x)) valid,
    deleted-Fresh codec json find cache Near Far near far id s x w f,
  )

  listed-IsFresh :
      (ver : ℕ) (page size : ℤ) (s : Cached S L R) (x : Result (List User × ℤ) × S)
      → Same find s.base x.1 × Valid x.1
      → Fresh codec find cache Near Far s
      → IsFresh (listed codec cache (cache_key_list ver page size) (x.0, record s { base = x.1 })).1
  listed-IsFresh ver page size s x (same, valid) f = (
    subst Valid (sym (listed_base codec cache s (cache_key_list ver page size) x)) valid,
    listed-Fresh codec json find cache Near Far near far ver page size s x same f,
  )

  after_page-Fresh :
      (env : Env) (ver : ℕ) (page size : ℤ) (w : Option (List User × ℤ)) (s : Cached S L R)
      → IsFresh s
      → IsFresh (after_page codec cache base env page size (cache_key_list ver page size) w s).1
  unfolding after_page on_base
  after_page-Fresh env ver page size (some p) s f = f
  after_page-Fresh env ver page size none s (valid, f) =
      listed-IsFresh ver page size s _ (store.lists env page size s.base valid) f

  after_lookup-Fresh :
      (env : Env) (ver : ℕ) (page size : ℤ) (x : Option Bytes × Stores L R) (s : Cached S L R)
      → Valid s.base
      → Coherent cache Near Far (Current codec find s.base) x.1
      → IsFresh (after_lookup codec cache base env page size (cache_key_list ver page size) x s).1
  unfolding after_lookup
  after_lookup-Fresh env ver page size (none, st) s valid f =
      after_page-Fresh env ver page size none (record s { stores = st }) (valid, f)
  after_lookup-Fresh env ver page size (some b, st) s valid f =
      after_page-Fresh env ver page size _ (record s { stores = st }) (valid, f)

  serve-Fresh : (c : Call) (s : Cached S L R) → IsFresh s → IsFresh (serve codec cache base c s)
  unfolding serve create update delete list on_base
  serve-Fresh (create_call env name email) s (valid, f) =
      created-IsFresh s _ (store.creates env name email s.base valid) f
  serve-Fresh (get_call env id) s f = Answers-Fresh id _ (get-Answers env id s f)
  serve-Fresh (update_call env id name email) s (valid, f) =
      updated-IsFresh id s _ (store.updates env id name email s.base valid) f
  serve-Fresh (delete_call env id) s (valid, f) =
      deleted-IsFresh id s _ (store.deletes env id s.base valid) f
  serve-Fresh (list_call env page size) s (valid, f) =
      after_lookup-Fresh env s.list_ver page size _ s valid
        (get-Coherent cache Near Far near far _ s.stores f).1

  pub serve_all-Fresh :
      (cs : List Call) (s : Cached S L R) → IsFresh s → IsFresh (serve_all codec cache base cs s)
  unfolding serve_all
  serve_all-Fresh [] s f = f
  serve_all-Fresh (c ∷ cs) s f = serve_all-Fresh cs _ (serve-Fresh c s f)

  found_answer :
      (id : Uuid) (u : User) (x : Result User × Cached S L R)
      → Answers id x
      → x.0 ≡ ok u
      → find id x.1.base ≡ some u
  found_answer id u (ok w, s) (h, f) e = cc (h, e)
  found_answer id u (err w, s) f e = cc
  found_answer id u (panic, s) f e = cc

  -- Suppose that the layers' writes take effect, that the codec gives back what it wrote, and that
  -- the service below, whose users `find` shows, keeps `Valid` and changes with each call in a valid
  -- state at most the user that it is about. Start from a valid state in which the cache holds for
  -- no user anything but what `find` shows, an empty cache for one. After any sequence of calls of
  -- the caching service, a user that its `Get` answers is the one that `find` shows: never an
  -- outdated or a deleted one.
  pub serve_all-get :
      (cs : List Call) (s : Cached S L R) (env : Env) (id : Uuid) (u : User)
      → IsFresh s
      → (get codec cache base env id (serve_all codec cache base cs s)).0 ≡ ok u
      → find id (get codec cache base env id (serve_all codec cache base cs s)).1.base ≡ some u
  serve_all-get cs s env id u f e =
      found_answer id u _ (get-Answers env id _ (serve_all-Fresh cs s f)) e
