-- ===== src/Cache.antt =====
-- internal/cache/cache.go: `Layered`, a local cache in front of an optional Redis.
pub mod Coherence
use maxwell_go_spine.Prelude.{String, Option, none, some}
use maxwell_go_spine.Go.Int.{ℤ}
use maxwell_go_spine.Go.Error.{Err, Result, ok, err, panic}

-- A byte slice; `none` is nil.
abbrev pub Bytes : Type 0
Bytes = Option String

-- The ristretto cache, whose values are all byte slices here.
pub record LocalCache (L : Type 0) : Type 0 where
  pub get : String → L → Option Bytes × L
  pub set : String → Bytes → L → L
  pub del : String → L → L

-- The Redis client. `get` gives nothing on any error, a missing key included; `set` takes the time
-- to live.
pub record Redis (R : Type 0) : Type 0 where
  pub get : String → R → Option Bytes × R
  pub set : String → Bytes → ℤ → R → Option Err × R
  pub del : String → R → Option Err × R

pub record Layered (L R : Type 0) : Type 0 where
  pub local : LocalCache L
  pub redis : Option (Redis R)
  pub ttl : ℤ

-- What the two layers hold.
pub record Stores (L R : Type 0) : Type 0 where
  pub near : L
  pub far : R

-- The error of Redis is dropped.
unfoldable pub set_far : {R : Type 0} → Option (Redis R) → String → Bytes → ℤ → R → R
set_far none key val ttl r = r
set_far (some redis) key val ttl r = (redis.set key val ttl r).1

unfoldable pub delete_far : {R : Type 0} → Option (Redis R) → String → R → R
delete_far none key r = r
delete_far (some redis) key r = (redis.del key r).1

module _ {L R : Type 0} where
  -- `New`, behind `rcache.NewCache`.
  unfoldable pub new : Result (LocalCache L) → Option (Redis R) → ℤ → Result (Layered L R)
  new (ok c) redis ttl = ok (record { local = c; redis = redis; ttl = ttl })
  new (err e) redis ttl = err e
  new panic redis ttl = panic

  -- Behind `l.redis.Get(ctx, key).Bytes()`.
  unfoldable pub got_far : LocalCache L → String → L → Option Bytes × R → Option Bytes × Stores L R
  got_far local key l (none, r) = (none, record { near = l; far = r })
  got_far local key l (some res, r) = (some res, record { near = local.set key res l; far = r })

  -- `if l.redis != nil { … }`
  unfoldable pub ask_redis :
      LocalCache L → Option (Redis R) → String → L → R → Option Bytes × Stores L R
  unfolding got_far
  ask_redis local none key l r = (none, record { near = l; far = r })
  ask_redis local (some redis) key l r = got_far local key l (redis.get key r)

  -- Behind `l.local.Get(key)`; a nil value is no hit.
  unfoldable pub got_near : Layered L R → String → Option Bytes × L → R → Option Bytes × Stores L R
  unfolding ask_redis
  got_near c key (some (some b), l) r = (some (some b), record { near = l; far = r })
  got_near c key (some none, l) r = ask_redis c.local c.redis key l r
  got_near c key (none, l) r = ask_redis c.local c.redis key l r

  -- The error of `Get` is always nil.
  unfoldable pub get : Layered L R → String → Stores L R → Option Bytes × Stores L R
  unfolding got_near
  get c key s = got_near c key (c.local.get key s.near) s.far

  unfoldable pub set : Layered L R → String → Bytes → Stores L R → Stores L R
  unfolding set_far
  set c key val s = record {
    near = c.local.set key val s.near;
    far = set_far c.redis key val c.ttl s.far;
  }

  unfoldable pub delete : Layered L R → String → Stores L R → Stores L R
  unfolding delete_far
  delete c key s = record { near = c.local.del key s.near; far = delete_far c.redis key s.far }
