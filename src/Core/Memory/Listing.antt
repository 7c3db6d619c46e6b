-- ===== src/Core/Memory/Listing.antt =====
-- `InMemoryUserRepo.List` as a client sees it that reads page after page.
use mathlib.Core.List.{Mem, Perm}
use mathlib.Core.List.Perm
use mathlib.Core.Logic.Or
use maxwell_go_spine.Prelude.{ℕ, zero, suc, ◌≤◌, ◌≡◌, List, [], ◌∷◌, ◌++◌, All}
use maxwell_go_spine.Go.Int.{pos}
use maxwell_go_spine.Core.User.{User, Env}
use maxwell_go_spine.Core.Memory.{InMemoryUserRepo, list}
use maxwell_go_spine.Core.Memory.Paging.{users_of}

-- `CreatedAt` falls along the list, ties in any order.
abbrev pub NewestFirst : List User → Type 0
NewestFirst [] = Unit
NewestFirst (u ∷ us) = All (λ v. v.created_at ≤ u.created_at) us × NewestFirst us

-- What `sort.Slice` documents of the order in which it leaves a slice, whatever order it came in.
pub record Arranges (arrange : ℕ → List User → List User) : Type 0 where
  pub same_users : (n : ℕ) (l : List User) → Perm (arrange n l) l
  pub newest_first : (n : ℕ) (l : List User) → NewestFirst (arrange n l)

-- No two users of a list were created at the same time.
abbrev pub DistinctTimes : List User → Type 0
DistinctTimes l = (u v : User) → Mem u l → Mem v l → u.created_at ≡ v.created_at → u ≡ v

module _ (arrange : ℕ → List User → List User) where
  -- A client that asks for the pages 1 to `k` in turn, with no write in between; `envs` is what
  -- each call draws.
  unfoldable pub read_listing : InMemoryUserRepo → (ℕ → Env) → ℕ → ℕ → List User
  read_listing r envs size zero = []
  read_listing r envs size (suc k) =
      read_listing r envs size k
      ++ users_of (list arrange (envs (suc k)) (pos (suc k)) (pos size) r).0
