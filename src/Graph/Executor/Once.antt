-- ===== src/Graph/Executor/Once.antt =====
-- How often the handler of `Exec` answers.
use maxwell_go_spine.Prelude.{
  ◌≡◌, refl, ℕ, zero, suc, String, Bool, true, false, Option, none, some, List, [], ◌∷◌,
}
use maxwell_go_spine.Go.Error.{Result, ok, err, panic, M}
use maxwell_go_spine.Graph.Executor.{Marshaler, Run, ResolverRoot, Runtime}
use maxwell_go_spine.Graph.Executor.Roots.{
  Operation, query, mutation, Reply, data_reply, mutation_object, query_object, exec,
}

-- Calls of a response handler until it gives nil, at most as many as the fuel: the responses, and
-- whether nil came.
abbrev pub prepend :
    {S : Type 0} → Reply → Result (List Reply × Bool) × S → Result (List Reply × Bool) × S
prepend reply (ok (replies, ended), r) = (ok (reply ∷ replies, ended), r)
prepend reply (err e, r) = (err e, r)
prepend reply (panic, r) = (panic, r)

abbrev pub after_reply :
    {S : Type 0}
    → Result (Option Reply × Bool) × S
    → (Bool → M S (List Reply × Bool))
    → Result (List Reply × Bool) × S
after_reply (ok (none, first), r) rest = (ok ([], true), r)
after_reply (ok (some reply, first), r) rest = prepend reply (rest first r)
after_reply (err e, r) rest = (err e, r)
after_reply (panic, r) rest = (panic, r)

module _ {Sel S : Type 0} (rt : Runtime Sel S) (resolvers : ResolverRoot S)
    (one_shot : String → Bool → Option Reply × Bool) where
  unfoldable pub drain : ℕ → Operation → Sel → Bool → M (Run S) (List Reply × Bool)
  unfolding exec
  drain zero op sel first r = (ok ([], false), r)
  drain (suc fuel) op sel first r =
      after_reply (exec rt resolvers one_shot op sel first r) (drain fuel op sel)

  -- A handler of a query whose execution returns data, and one of a mutation, called until it gives
  -- nil, gives one response, with that data, and then nil: two calls are enough, and more change
  -- nothing.
  pub exec-once :
      (fuel : ℕ) (sel sel' : Sel) (r t : Run S) (m : Marshaler) (t' : Run S) (m' : Marshaler)
      → query_object rt resolvers sel r ≡ (ok m, t)
      → mutation_object rt resolvers sel' r ≡ (ok m', t')
      → (drain (suc (suc fuel)) query sel true r ≡ (ok (data_reply m ∷ [], true), t))
        × (drain (suc (suc fuel)) mutation sel' true r ≡ (ok (data_reply m' ∷ [], true), t'))
  unfolding drain exec
  exec-once fuel sel sel' r t m t' m' h h' = (rw h refl, rw h' refl)
