-- ===== src/Cmd/Life/Ends.antt =====
-- The server ends after a signal, and by itself only with an error status.
use maxwell_go_spine.Prelude.{
  ℕ, zero, suc, ◌<◌, ◌≤◌, ◌≡◌, ◌≢◌, refl, true, none, some, arith, Option-cases, inl, inr,
}
use maxwell_go_spine.Cmd.Life.{
  Main, waiting, stopping, closing, releasing, returned, Proc, begun, Own, receive, shut_down,
  shut_down_failed, close, release, finish, listen_failed, Step, own, signal, requests, database,
  expire, Reach, here, next, Exits, exited, goes_on,
}

abbrev pub rank : Main → ℕ
rank waiting = 5
rank stopping = 4
rank closing = 3
rank releasing = 2
rank returned = 1

rank_pos : (m : Main) → 0 < rank m
rank_pos waiting = omega arith
rank_pos stopping = omega arith
rank_pos closing = omega arith
rank_pos releasing = omega arith
rank_pos returned = omega arith

-- The steps left at most.
abbrev left : Proc → ℕ
left p = elim p.exit [ none ↦ rank p.main | some c ↦ 0 ]

-- A signal has come, the deadline has passed and no query runs.
abbrev Ready : Proc → Type 0
Ready p = (p.signalled ≡ true) × (p.expired ≡ true) × (p.queries ≡ 0)

module _ (after_failure : Main) (falls : rank after_failure < 4) where
  step_left : {p q : Proc} → Own after_failure p q → left q < left p
  step_left (receive p e m s) = ground arith
  step_left (shut_down p e m b) = ground arith
  step_left (shut_down_failed p e m b) = ground arith
  step_left (close p e m) = ground arith
  step_left (release p e m b) = ground arith
  step_left (finish p e m) = ground arith
  step_left (listen_failed p e m) = ground (arith, rank_pos p.main)

  keeps_Ready : {p q : Proc} → Own after_failure p q → Ready p → Ready q
  keeps_Ready (receive p e m s) h = h
  keeps_Ready (shut_down p e m b) h = h
  keeps_Ready (shut_down_failed p e m b) h = h
  keeps_Ready (close p e m) h = h
  keeps_Ready (release p e m b) h = h
  keeps_Ready (finish p e m) h = h
  keeps_Ready (listen_failed p e m) h = h

  moves :
      (p : Proc) (m : Main)
      → p.main ≡ m
      → p.exit ≡ none
      → Ready p
      → (q : Proc) × Own after_failure p q
  moves p waiting m e (s, d, k) = (_, receive p e m s)
  moves p stopping m e (s, d, k) = (_, shut_down_failed p e m d)
  moves p closing m e (s, d, k) = (_, close p e m)
  moves p releasing m e (s, d, k) = (_, release p e m k)
  moves p returned m e (s, d, k) = (_, finish p e m)

  Exits-within : (n : ℕ) (p : Proc) → left p ≤ n → Ready p → Exits after_failure p
  Exits-within zero p few s = elim (Option-cases p.exit) [
    | inl e ↦ let (q, o) = moves p p.main refl e s in absurd (omega (arith, step_left o))
    | inr (c, e) ↦ exited c e
  ]
  Exits-within (suc n) p few s = elim (Option-cases p.exit) [
    | inl e ↦
        let (q, o) = moves p p.main refl e s in
        goes_on q o
          (λ r step. Exits-within n r (omega (arith, step_left step)) (keeps_Ready step s))
    | inr (c, e) ↦ exited c e
  ]

  -- Once a signal has come, the deadline of `Shutdown` has passed and the database runs no query,
  -- the program is never stuck and exits after finitely many steps, whatever order the goroutines
  -- run in, also with requests in flight.
  pub signalled-Exits :
      (p : Proc) → p.signalled ≡ true → p.expired ≡ true → p.queries ≡ 0 → Exits after_failure p
  signalled-Exits p s d k = Exits-within (left p) p (omega arith) (s, d, k)

-- Only a signal makes the program leave its wait and exit with status 0.
abbrev Sound : Proc → Type 0
Sound p = (p.main ≢ waiting → p.signalled ≡ true) × (p.exit ≡ some 0 → p.signalled ≡ true)

Own-Sound : {a : Main} {p q : Proc} → Own a p q → Sound p → Sound q
Own-Sound (receive p e m s) h = ((λ n. s), h.1)
Own-Sound (shut_down p e m b) h = ((λ n. h.0 (ground arith)), h.1)
Own-Sound (shut_down_failed p e m b) h = ((λ n. h.0 (ground arith)), h.1)
Own-Sound (close p e m) h = ((λ n. h.0 (ground arith)), h.1)
Own-Sound (release p e m b) h = ((λ n. h.0 (ground arith)), h.1)
Own-Sound (finish p e m) h = (h.0, (λ n. h.0 (ground arith)))
Own-Sound (listen_failed p e m) h = (h.0, (λ n. ground arith))

Step-Sound : {a : Main} {p q : Proc} → Step a p q → Sound p → Sound q
Step-Sound (own o) h = Own-Sound o h
Step-Sound (signal p e) h = ((λ n. refl), (λ n. refl))
Step-Sound (requests p n e) h = h
Step-Sound (database p n e) h = h
Step-Sound (expire p e m) h = h

Reach-Sound : {a : Main} {p : Proc} → Reach a begun p → Sound p
Reach-Sound here = ((λ n. absurd (n refl)), (λ n. ground arith))
Reach-Sound (next r st) = Step-Sound st (Reach-Sound r)

-- A program that exits with status 0 has received a signal.
pub exit_0-signalled :
    {after_failure : Main} (p : Proc)
    → Reach after_failure begun p
    → p.exit ≡ some 0
    → p.signalled ≡ true
exit_0-signalled p r = (Reach-Sound r).1
