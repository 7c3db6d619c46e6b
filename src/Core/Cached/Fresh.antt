-- ===== src/Core/Cached/Fresh.antt =====
-- The caching service never answers an outdated user, as long as every write goes through it and
-- the cache's writes do not fail.
use maxwell_go_spine.Prelude.{
  ◌≡◌, ◌≢◌, refl, sym, ap, ◌∙◌, String, Option, none, some, List, [], ◌∷◌,
}
use maxwell_go_spine.Prelude
use maxwell_go_spine.Go.Int.{ℤ}
use maxwell_go_spine.Go.Error.{Result, ok, err, panic}
use maxwell_go_spine.Core.User.{Uuid, User, Env, UserService}
use maxwell_go_spine.Cache
use maxwell_go_spine.Cache.{Bytes, Layered, Stores}
use maxwell_go_spine.Cache.Coherence.{
  IsLocal, IsRedis, KeepsOthers, Coherent, set-Coherent, delete-Coherent, weaken-Coherent,
}
use maxwell_go_spine.Core.Cached.{
  Codec, Cached, cache_key_list, cache_key_user, set_user, del_user, created, fetched, updated,
  deleted, listed,
}
use maxwell_go_spine.Core.Cached.Keys.{cache_key_user_injective, list_key_is_no_user_key}

-- What the program relies on in package json and in `uuid.UUID.String`.
pub record IsCodec (codec : Codec) : Type 0 where
  pub uuid_injective : (i j : Uuid) → codec.uuid_text i ≡ codec.uuid_text j → i ≡ j
  pub round_trip : (u : User) → codec.unmarshal_user (codec.marshal_user u) ≡ some u

-- What the calls of a user service do to the users that it finds.
module _ {S : Type 0} (find : Uuid → S → Option User) where
  abbrev pub Same : S → S → Type 0
  Same s s' = (j : Uuid) → find j s' ≡ find j s

  abbrev pub SameOthers : Uuid → S → S → Type 0
  SameOthers id s s' = (j : Uuid) → j ≢ id → find j s' ≡ find j s

  abbrev pub Wrote : S → Result User × S → Type 0
  Wrote s (ok u, s') = (find u.id s' ≡ some u) × SameOthers u.id s s'
  Wrote s (err e, s') = Same s s'
  Wrote s (panic, s') = Same s s'

  abbrev pub Found : S → Result User × S → Type 0
  Found s (ok u, s') = (find u.id s' ≡ some u) × Same s s'
  Found s (err e, s') = Same s s'
  Found s (panic, s') = Same s s'

  abbrev pub Removed : Uuid → S → Result (Unit {0}) × S → Type 0
  Removed id s (ok u, s') = SameOthers id s s'
  Removed id s (err e, s') = Same s s'
  Removed id s (panic, s') = Same s s'

-- A service whose `Get` answers what it finds, and whose other calls change at most their user, in
-- states with the invariant `Valid`, which its calls keep.
pub record IsUserStore {S : Type 0} (base : UserService S) (find : Uuid → S → Option User)
    (Valid : S → Type 0) : Type 0 where
  pub creates :
      (env : Env) (name email : String) (s : S)
      → Valid s
      → Wrote find s (base.create env name email s) × Valid (base.create env name email s).1
  pub gets :
      (env : Env) (id : Uuid) (s : S)
      → Valid s
      → Found find s (base.get env id s) × Valid (base.get env id s).1
  pub answers :
      (env : Env) (id : Uuid) (s s' : S) (u : User)
      → base.get env id s ≡ (ok u, s')
      → find id s ≡ some u
  pub updates :
      (env : Env) (id : Uuid) (name email : Option String) (s : S)
      → Valid s
      → Wrote find s (base.update env id name email s) × Valid (base.update env id name email s).1
  pub deletes :
      (env : Env) (id : Uuid) (s : S)
      → Valid s
      → Removed find id s (base.delete env id s) × Valid (base.delete env id s).1
  pub lists :
      (env : Env) (page size : ℤ) (s : S)
      → Valid s
      → Same find s (base.list env page size s).1 × Valid (base.list env page size s).1

-- A value under a user's key is, decoded, the user that the service finds.
abbrev pub Current : {S : Type 0} → Codec → (Uuid → S → Option User) → S → String → Bytes → Type 0
Current codec find s k b =
    (id : Uuid) (u : User)
    → k ≡ cache_key_user codec id
    → codec.unmarshal_user b ≡ some u
    → find id s ≡ some u

module _ (codec : Codec) (json : IsCodec codec) {S : Type 0} (find : Uuid → S → Option User) where
  key_of_other :
      (i j : Uuid) (k : String) → k ≢ cache_key_user codec j → k ≡ cache_key_user codec i → i ≢ j
  key_of_other i j k n e f = n (e ∙ ap (cache_key_user codec) f)

  keeps_others :
      (id : Uuid) (s s' : S)
      → SameOthers find id s s'
      → KeepsOthers (Current codec find s) (Current codec find s') (cache_key_user codec id)
  keeps_others id s s' same k w n v i u e d = same i (key_of_other i id k n e) ∙ v i u e d

  stored :
      (u : User) (s : S)
      → find u.id s ≡ some u
      → Current codec find s (cache_key_user codec u.id) (codec.marshal_user u)
  stored u s h i w e d =
      ap (λ (j : Uuid). find j s)
        (sym (cache_key_user_injective codec json.uuid_injective u.id i e))
      ∙ h
      ∙ sym (json.round_trip u)
      ∙ d

-- Every user that the cache may answer is the one that the service below finds.
abbrev pub Fresh :
    {S L R : Type 0} (codec : Codec) (find : Uuid → S → Option User) (cache : Layered L R)
    (Near : String → Bytes → L → Type 0) (Far : String → Bytes → R → Type 0)
    → Cached S L R
    → Type 0
Fresh codec find cache Near Far s = Coherent cache Near Far (Current codec find s.base) s.stores

module _ (codec : Codec) (json : IsCodec codec) {S L R : Type 0} (find : Uuid → S → Option User)
    (cache : Layered L R) (Near : String → Bytes → L → Type 0) (Far : String → Bytes → R → Type 0)
    (near : IsLocal Near cache.local) (far : IsRedis Far cache.ttl cache.redis) where
  abbrev IsFresh : Cached S L R → Type 0
  IsFresh = Fresh codec find cache Near Far

  pub moved :
      (s : Cached S L R) (b : S) → Same find s.base b → IsFresh s → IsFresh (record s { base = b })
  moved s b same f = weaken-Coherent cache Near Far (λ k w v i u e d. same i ∙ v i u e d) s.stores f

  wrote :
      (s : Cached S L R) (b : S) (u : User) (st : Stores L R)
      → find u.id b ≡ some u
      → SameOthers find u.id s.base b
      → Coherent cache Near Far (Current codec find s.base) st
      → Coherent cache Near Far
          (Current codec find b)
          (Cache.set cache (cache_key_user codec u.id) (codec.marshal_user u) st)
  wrote s b u st h same f =
      set-Coherent cache Near Far near far _ _ st f
        (keeps_others codec json find u.id s.base b same) (stored codec json find u b h)

  pub created-Fresh :
      (s : Cached S L R) (x : Result User × S)
      → Wrote find s.base x
      → IsFresh s
      → IsFresh (created codec cache (x.0, record s { base = x.1 })).1
  unfolding created set_user
  created-Fresh s (ok u, b) (h, same) f = wrote s b u s.stores h same f
  created-Fresh s (err e, b) same f = moved s b same f
  created-Fresh s (panic, b) same f = moved s b same f

  pub fetched-Fresh :
      (s : Cached S L R) (x : Result User × S)
      → Found find s.base x
      → IsFresh s
      → IsFresh (fetched codec cache (x.0, record s { base = x.1 })).1
  unfolding fetched set_user
  fetched-Fresh s (ok u, b) (h, same) f = wrote s b u s.stores h (λ j n. same j) f
  fetched-Fresh s (err e, b) same f = moved s b same f
  fetched-Fresh s (panic, b) same f = moved s b same f

  pub updated-Fresh :
      (id : Uuid) (s : Cached S L R) (x : Result User × S)
      → Wrote find s.base x
      → IsFresh s
      → IsFresh (updated codec cache id (x.0, record s { base = x.1 })).1
  unfolding updated set_user del_user
  updated-Fresh id s (ok u, b) (h, same) f =
      wrote s b u _ h same (
        delete-Coherent cache Near Far near far (cache_key_user codec id) s.stores f (λ k w n v. v))
  updated-Fresh id s (err e, b) same f = moved s b same f
  updated-Fresh id s (panic, b) same f = moved s b same f

  pub deleted-Fresh :
      (id : Uuid) (s : Cached S L R) (x : Result (Unit {0}) × S)
      → Removed find id s.base x
      → IsFresh s
      → IsFresh (deleted codec cache id (x.0, record s { base = x.1 })).1
  unfolding deleted del_user
  deleted-Fresh id s (ok u, b) same f =
      delete-Coherent cache Near Far near far (cache_key_user codec id) s.stores f
        (keeps_others codec json find id s.base b same)
  deleted-Fresh id s (err e, b) same f = moved s b same f
  deleted-Fresh id s (panic, b) same f = moved s b same f

  -- A list's entry says nothing about a user's key.
  pub listed-Fresh :
      (ver : Prelude.ℕ) (page size : ℤ) (s : Cached S L R) (x : Result (List User × ℤ) × S)
      → Same find s.base x.1
      → IsFresh s
      → IsFresh (listed codec cache (cache_key_list ver page size) (x.0, record s { base = x.1 })).1
  unfolding listed
  listed-Fresh ver page size s (ok p, b) same f =
      set-Coherent cache Near Far near far _ _ s.stores (moved s b same f) (λ k w n v. v)
        (λ i u e d. absurd (list_key_is_no_user_key codec ver page size i e))
  listed-Fresh ver page size s (err e, b) same f = moved s b same f
  listed-Fresh ver page size s (panic, b) same f = moved s b same f
