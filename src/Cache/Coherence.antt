-- ===== src/Cache/Coherence.antt =====
-- The two layers of the cache agree with what was stored.
use maxwell_go_spine.Prelude.{◌≡◌, ◌≢◌, refl, String, Option, none, some, inl, inr, ◌⊎◌}
use maxwell_go_spine.Go.Int.{ℤ}
use maxwell_go_spine.Cache.{
  Bytes, LocalCache, Redis, Layered, Stores, got_far, ask_redis, got_near, get, set_far, set,
  delete_far, delete,
}

-- What a store of values documents, where `Holds k b s` says that `s` may answer `b` for `k`. It may
-- forget a value at any time, but it never answers an old value behind a `set` or a `del`.
pub record IsStore {S : Type 0} (Holds : String → Bytes → S → Type 0)
    (get : String → S → Option Bytes × S) (set : String → Bytes → S → S) (del : String → S → S)
    : Type 0 where
  pub get_holds : (k : String) (b : Bytes) (s : S) → (get k s).0 ≡ some b → Holds k b s
  pub get_keeps : (k j : String) (w : Bytes) (s : S) → Holds j w (get k s).1 → Holds j w s
  pub set_holds :
      (k j : String) (b w : Bytes) (s : S)
      → Holds j w (set k b s)
      → ((j ≡ k) × (w ≡ b)) ⊎ ((j ≢ k) × Holds j w s)
  pub del_holds : (k j : String) (w : Bytes) (s : S) → Holds j w (del k s) → (j ≢ k) × Holds j w s

abbrev pub IsLocal : {L : Type 0} → (String → Bytes → L → Type 0) → LocalCache L → Type 0
IsLocal Holds c = IsStore Holds c.get c.set c.del

-- A Redis whose writes do not fail.
abbrev pub IsRedis : {R : Type 0} → (String → Bytes → R → Type 0) → ℤ → Option (Redis R) → Type 0
IsRedis Holds ttl none = Unit
IsRedis Holds ttl (some c) =
    IsStore Holds c.get (λ k b r. (c.set k b ttl r).1) (λ k r. (c.del k r).1)

-- Every value that a store may answer is valid under its key.
abbrev pub AllValid :
    {S : Type 0} → (String → Bytes → Type 0) → (String → Bytes → S → Type 0) → S → Type 0
AllValid Valid Holds s = (k : String) (b : Bytes) → Holds k b s → Valid k b

abbrev pub FarValid :
    {R : Type 0}
    → (String → Bytes → Type 0)
    → (String → Bytes → R → Type 0)
    → Option (Redis R)
    → R
    → Type 0
FarValid Valid Holds none r = Unit
FarValid Valid Holds (some c) r = AllValid Valid Holds r

-- What `Get` answered is valid.
abbrev pub AnswerValid : (String → Bytes → Type 0) → String → Option Bytes → Type 0
AnswerValid Valid k none = Unit
AnswerValid Valid k (some b) = Valid k b

-- The keys other than `k` that were valid stay so.
abbrev pub KeepsOthers : (String → Bytes → Type 0) → (String → Bytes → Type 0) → String → Type 0
KeepsOthers Valid Valid' k = (j : String) (w : Bytes) → j ≢ k → Valid j w → Valid' j w

module _ {S : Type 0} {Holds : String → Bytes → S → Type 0} {get : String → S → Option Bytes × S}
    {set : String → Bytes → S → S} {del : String → S → S} (store : IsStore Holds get set del)
    {Valid Valid' : String → Bytes → Type 0} where
  set-AllValid :
      (k : String) (b : Bytes) (s : S)
      → AllValid Valid Holds s
      → KeepsOthers Valid Valid' k
      → Valid' k b
      → AllValid Valid' Holds (set k b s)
  set-AllValid k b s all keeps v j w h = elim (store.set_holds k j b w s h) [
    | inl (e, f) ↦ rw (e, f) v
    | inr (n, old) ↦ keeps j w n (all j w old)
  ]

  del-AllValid :
      (k : String) (s : S)
      → AllValid Valid Holds s
      → KeepsOthers Valid Valid' k
      → AllValid Valid' Holds (del k s)
  del-AllValid k s all keeps j w h =
      let (n, old) = store.del_holds k j w s h in keeps j w n (all j w old)

module _ {L R : Type 0} (c : Layered L R) (Near : String → Bytes → L → Type 0)
    (Far : String → Bytes → R → Type 0) where
  -- Both layers hold valid values only.
  abbrev pub Coherent : (String → Bytes → Type 0) → Stores L R → Type 0
  Coherent Valid s = AllValid Valid Near s.near × FarValid Valid Far c.redis s.far

module _ {L R : Type 0} (c : Layered L R) (Near : String → Bytes → L → Type 0)
    (Far : String → Bytes → R → Type 0) (near : IsLocal Near c.local)
    (far : IsRedis Far c.ttl c.redis) {Valid Valid' : String → Bytes → Type 0} where
  set_far-FarValid :
      (redis : Option (Redis R)) (k : String) (b : Bytes) (r : R)
      → IsRedis Far c.ttl redis
      → FarValid Valid Far redis r
      → KeepsOthers Valid Valid' k
      → Valid' k b
      → FarValid Valid' Far redis (set_far redis k b c.ttl r)
  unfolding set_far
  set_far-FarValid none k b r store all keeps v = tt
  set_far-FarValid (some redis) k b r store all keeps v = set-AllValid store k b r all keeps v

  delete_far-FarValid :
      (redis : Option (Redis R)) (k : String) (r : R)
      → IsRedis Far c.ttl redis
      → FarValid Valid Far redis r
      → KeepsOthers Valid Valid' k
      → FarValid Valid' Far redis (delete_far redis k r)
  unfolding delete_far
  delete_far-FarValid none k r store all keeps = tt
  delete_far-FarValid (some redis) k r store all keeps = del-AllValid store k r all keeps

  -- If the layers hold valid values, and a value is stored under `k` that is valid by a notion that
  -- every other key's valid values meet too, then by that notion the layers hold valid values.
  pub set-Coherent :
      (k : String) (b : Bytes) (s : Stores L R)
      → Coherent c Near Far Valid s
      → KeepsOthers Valid Valid' k
      → Valid' k b
      → Coherent c Near Far Valid' (set c k b s)
  unfolding set
  set-Coherent k b s (n, f) keeps v =
      (set-AllValid near k b s.near n keeps v, set_far-FarValid c.redis k b s.far far f keeps v)

  -- `Delete` leaves nothing of its key, so nothing need be valid there.
  pub delete-Coherent :
      (k : String) (s : Stores L R)
      → Coherent c Near Far Valid s
      → KeepsOthers Valid Valid' k
      → Coherent c Near Far Valid' (delete c k s)
  unfolding delete
  delete-Coherent k s (n, f) keeps =
      (del-AllValid near k s.near n keeps, delete_far-FarValid c.redis k s.far far f keeps)

module _ {L R : Type 0} (c : Layered L R) (Near : String → Bytes → L → Type 0)
    (Far : String → Bytes → R → Type 0) (near : IsLocal Near c.local)
    (far : IsRedis Far c.ttl c.redis) {Valid : String → Bytes → Type 0} where
  got_far-Coherent :
      (redis : Redis R) (k : String) (l : L) (x : Option Bytes × R)
      → AllValid Valid Near l
      → AllValid Valid Far x.1
      → AnswerValid Valid k x.0
      → AnswerValid Valid k (got_far c.local k l x).0
        × (AllValid Valid Near (got_far c.local k l x).1.near
            × AllValid Valid Far (got_far c.local k l x).1.far)
  unfolding got_far
  got_far-Coherent redis k l (none, r) n f a = (tt, (n, f))
  got_far-Coherent redis k l (some b, r) n f a =
      (a, (set-AllValid near k b l n (λ j w _ v. v) a, f))

  answer :
      {S : Type 0} (Holds : String → Bytes → S → Type 0) (k : String) (x : Option Bytes) (s : S)
      → AllValid Valid Holds s
      → ((b : Bytes) → x ≡ some b → Holds k b s)
      → AnswerValid Valid k x
  answer Holds k none s all h = tt
  answer Holds k (some b) s all h = all k b (h b refl)

  ask_redis-Coherent :
      (redis : Option (Redis R)) (k : String) (l : L) (r : R)
      → IsRedis Far c.ttl redis
      → AllValid Valid Near l
      → FarValid Valid Far redis r
      → AnswerValid Valid k (ask_redis c.local redis k l r).0
        × (AllValid Valid Near (ask_redis c.local redis k l r).1.near
            × FarValid Valid Far redis (ask_redis c.local redis k l r).1.far)
  unfolding ask_redis
  ask_redis-Coherent none k l r store n f = (tt, (n, tt))
  ask_redis-Coherent (some redis) k l r store n f =
      got_far-Coherent redis k l (redis.get k r) n (λ j w h. f j w (store.get_keeps k j w r h))
        (answer Far k _ r f (λ b e. store.get_holds k b r e))

  got_near-Coherent :
      (k : String) (x : Option Bytes × L) (r : R)
      → AllValid Valid Near x.1
      → FarValid Valid Far c.redis r
      → AnswerValid Valid k x.0
      → AnswerValid Valid k (got_near c k x r).0 × Coherent c Near Far Valid (got_near c k x r).1
  unfolding got_near
  got_near-Coherent k (some (some b), l) r n f a = (a, (n, f))
  got_near-Coherent k (some none, l) r n f a = ask_redis-Coherent c.redis k l r far n f
  got_near-Coherent k (none, l) r n f a = ask_redis-Coherent c.redis k l r far n f

  -- If the layers hold valid values, `Get` answers a valid value or none, and copying Redis's answer
  -- into the local cache keeps the layers valid.
  pub get-Coherent :
      (k : String) (s : Stores L R)
      → Coherent c Near Far Valid s
      → AnswerValid Valid k (get c k s).0 × Coherent c Near Far Valid (get c k s).1
  unfolding get
  get-Coherent k s (n, f) =
      got_near-Coherent k (c.local.get k s.near) s.far
        (λ j w h. n j w (near.get_keeps k j w s.near h)) f
        (answer Near k _ s.near n (λ b e. near.get_holds k b s.near e))

-- Values that are valid stay valid by a weaker notion.
pub weaken-Coherent :
    {L R : Type 0} (c : Layered L R) (Near : String → Bytes → L → Type 0)
    (Far : String → Bytes → R → Type 0) {Valid Valid' : String → Bytes → Type 0}
    → ((j : String) (w : Bytes) → Valid j w → Valid' j w)
    → (s : Stores L R) → Coherent c Near Far Valid s
    → Coherent c Near Far Valid' s
weaken-Coherent {L} {R} c Near Far {Valid} {Valid'} weak s (n, f) =
    ((λ j w h. weak j w (n j w h)), weaken-FarValid c.redis f)
  where
    weaken-FarValid :
        (redis : Option (Redis R))
        → FarValid Valid Far redis s.far
        → FarValid Valid' Far redis s.far
    weaken-FarValid none g = tt
    weaken-FarValid (some redis) g = λ j w h. weak j w (g j w h)
