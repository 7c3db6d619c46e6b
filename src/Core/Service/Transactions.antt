-- ===== src/Core/Service/Transactions.antt =====
-- `WithTx`: all or nothing.
use maxwell_go_spine.Prelude.{◌≡◌, ◌↔◌, refl, ap, Bool, true, false, some, arith}
use maxwell_go_spine.Go.Error.{Err, Result, ok, err, panic, M}
use maxwell_go_spine.Core.User.{UnitOfWork, TxStarter}
use maxwell_go_spine.Core.Service.{rolled, roll_back, after_commit, after_fn, after_begin, with_tx}

-- What a database documents of its transactions: `Open s t` says that `t` is a transaction begun on
-- `s` and not yet ended. Rolling it back leaves `s`, whatever was done in it.
pub record IsTransactional {S T : Type 0} (starter : TxStarter S T) (Open : S → T → Type 0)
    : Type 0 where
  pub begun : (s s' : S) (t : T) → starter.begin_tx s ≡ (ok t, s') → Open s t
  pub refused : (s s' : S) (e : Err) → starter.begin_tx s ≡ (err e, s') → s' ≡ s
  pub broken : (s s' : S) → starter.begin_tx s ≡ (panic, s') → s' ≡ s
  pub commit_failed :
      (s : S) (t t' : T) (e : Err)
      → Open s t
      → starter.unit_of_work.commit t ≡ (err e, t')
      → Open s t'
  pub commit_broken :
      (s : S) (t t' : T) → Open s t → starter.unit_of_work.commit t ≡ (panic, t') → Open s t'
  pub rolled_back :
      (s : S) (t : T) → Open s t → starter.end_tx (starter.unit_of_work.rollback t).1 ≡ s

-- The calls of `fn` stay inside the transaction.
abbrev pub StaysInside : {S T : Type 0} → (S → T → Type 0) → M T (Unit {0}) → Type 0
StaysInside {S} {T} Open fn = (s : S) (t : T) → Open s t → Open s (fn t).1

-- What a failed call leaves: nothing for a call that returns no error.
abbrev pub Untouched : {S : Type 0} → S → Result (Unit {0}) × S → Type 0
Untouched s (ok u, s') = Unit
Untouched s (err e, s') = s' ≡ s
Untouched s (panic, s') = s' ≡ s

module _ {S T : Type 0} (starter : TxStarter S T) (Open : S → T → Type 0)
    (db : IsTransactional starter Open) where
  open starter use {unit_of_work as uow, end_tx}

  rolled-Untouched :
      (s : S) (result : Result (Unit {0})) (x : Result (Unit {0}) × T)
      → end_tx x.1 ≡ s
      → Untouched s ((rolled result x).0, end_tx (rolled result x).1)
  rolled-Untouched s (ok v) (ok u, t) e = tt
  rolled-Untouched s (err y) (ok u, t) e = e
  rolled-Untouched s panic (ok u, t) e = e
  rolled-Untouched s (ok v) (err x, t) e = tt
  rolled-Untouched s (err y) (err x, t) e = e
  rolled-Untouched s panic (err x, t) e = e
  rolled-Untouched s result (panic, t) e = e

  after_commit-Untouched :
      (s : S) (t : T) (x : Result (Unit {0}) × T)
      → Open s t
      → uow.commit t ≡ x
      → Untouched s ((after_commit uow x).0, end_tx (after_commit uow x).1)
  unfolding after_commit
  after_commit-Untouched s t (ok u, t') o e = tt
  after_commit-Untouched s t (err x, t') o e =
      rolled-Untouched s (err x) (uow.rollback t')
        (db.rolled_back s t' (db.commit_failed s t t' x o e))
  after_commit-Untouched s t (panic, t') o e =
      rolled-Untouched s panic (uow.rollback t') (db.rolled_back s t' (db.commit_broken s t t' o e))

  after_fn-Untouched :
      (s : S) (x : Result (Unit {0}) × T)
      → Open s x.1
      → Untouched s ((after_fn uow x).0, end_tx (after_fn uow x).1)
  unfolding after_fn
  after_fn-Untouched s (ok u, t) o = after_commit-Untouched s t (uow.commit t) o refl
  after_fn-Untouched s (err e, t) o =
      rolled-Untouched s (err e) (uow.rollback t) (db.rolled_back s t o)
  after_fn-Untouched s (panic, t) o =
      rolled-Untouched s panic (uow.rollback t) (db.rolled_back s t o)

  after_begin-Untouched :
      (fn : UnitOfWork T → M T (Unit {0}))
      → StaysInside Open (fn uow)
      → (s : S) (x : Result T × S) → starter.begin_tx s ≡ x
      → Untouched s (after_begin starter fn x)
  unfolding after_begin
  after_begin-Untouched fn inside s (ok t, s') e =
      after_fn-Untouched s (fn uow t) (inside s t (db.begun s s' t e))
  after_begin-Untouched fn inside s (err x, s') e = db.refused s s' x e
  after_begin-Untouched fn inside s (panic, s') e = db.broken s s' e

  -- If `WithTx` returns an error or panics, in `BeginTx`, in `fn` or in `Commit`, the state is the
  -- one before it, provided that the database rolls back and that `fn` works inside its
  -- transaction.
  pub with_tx-Untouched :
      (fn : UnitOfWork T → M T (Unit {0}))
      → StaysInside Open (fn uow)
      → (s : S) → Untouched s (with_tx (some starter) fn s)
  unfolding with_tx
  with_tx-Untouched fn inside s = after_begin-Untouched fn inside s (starter.begin_tx s) refl

-- A call of `fn` in a transaction that is then committed, from `s` to `s'`.
pub record Committed {S T : Type 0} (starter : TxStarter S T) (fn : UnitOfWork T → M T (Unit {0}))
    (s s' : S) : Type 0 where
  pub opened : T
  pub beside : S
  pub worked : T
  pub closed : T
  pub begins : starter.begin_tx s ≡ (ok opened, beside)
  pub works : fn starter.unit_of_work opened ≡ (ok tt, worked)
  pub commits : starter.unit_of_work.commit worked ≡ (ok tt, closed)
  pub leaves : starter.end_tx closed ≡ s'

abbrev is_ok : {A : Type 0} → Result A → Bool
is_ok (ok a) = true
is_ok (err e) = false
is_ok panic = false

module _ {S T : Type 0} (starter : TxStarter S T) (fn : UnitOfWork T → M T (Unit {0}))
    (s s' : S) where
  open starter use {unit_of_work as uow, end_tx}

  rolled-is_ok :
      (r : Result (Unit {0})) (x : Result (Unit {0}) × T)
      → is_ok r ≡ false
      → is_ok (rolled r x).0 ≡ false
  rolled-is_ok r (ok u, t) e = e
  rolled-is_ok r (err y, t) e = e
  rolled-is_ok r (panic, t) e = refl

  -- A result that is not ok is not the one asked for.
  not_this : (r : Result (Unit {0})) → is_ok r ≡ false → r ≡ ok tt → Committed starter fn s s'
  not_this r failed e = absurd (let clash : is_ok r ≡ true = ap is_ok e in ground arith)

  from_commit :
      (t t' : T) (z : S) (x : Result (Unit {0}) × T)
      → starter.begin_tx s ≡ (ok t, z)
      → fn uow t ≡ (ok tt, t')
      → uow.commit t' ≡ x
      → (after_commit uow x).0 ≡ ok tt
      → end_tx (after_commit uow x).1 ≡ s'
      → Committed starter fn s s'
  unfolding after_commit roll_back
  from_commit t t' z (ok u, t'') b f c e l = record {
    opened = t;
    beside = z;
    worked = t';
    closed = t'';
    begins = b;
    works = f;
    commits = c;
    leaves = l;
  }
  from_commit t t' z (err y, t'') b f c e l =
      not_this _ (rolled-is_ok (err y) (uow.rollback t'') refl) e
  from_commit t t' z (panic, t'') b f c e l =
      not_this _ (rolled-is_ok panic (uow.rollback t'') refl) e

  from_fn :
      (t : T) (z : S) (x : Result (Unit {0}) × T)
      → starter.begin_tx s ≡ (ok t, z)
      → fn uow t ≡ x
      → (after_fn uow x).0 ≡ ok tt
      → end_tx (after_fn uow x).1 ≡ s'
      → Committed starter fn s s'
  unfolding after_fn roll_back
  from_fn t z (ok u, t') b f e l = from_commit t t' z (uow.commit t') b f refl e l
  from_fn t z (err y, t') b f e l = not_this _ (rolled-is_ok (err y) (uow.rollback t') refl) e
  from_fn t z (panic, t') b f e l = not_this _ (rolled-is_ok panic (uow.rollback t') refl) e

  from_begin :
      (x : Result T × S)
      → starter.begin_tx s ≡ x
      → (after_begin starter fn x).0 ≡ ok tt
      → (after_begin starter fn x).1 ≡ s'
      → Committed starter fn s s'
  unfolding after_begin
  from_begin (ok t, z) b e l = from_fn t z (fn uow t) b refl e l
  from_begin (err y, z) b e l = not_this (err y) refl e
  from_begin (panic, z) b e l = not_this panic refl e

  -- `WithTx` reports success and leaves `s'` exactly if `BeginTx` gives a transaction, `fn` succeeds
  -- in it, `Commit` succeeds, and the committed transaction leaves `s'`: no failure of the three
  -- is lost, and nothing is rolled back behind a commit.
  pub with_tx-Committed : (with_tx (some starter) fn s ≡ (ok tt, s')) ↔ Committed starter fn s s'
  unfolding with_tx after_begin after_fn after_commit
  with_tx-Committed = (
    λ e. from_begin (starter.begin_tx s) refl (ap (λ p. p.0) e) (ap (λ p. p.1) e),
    λ c. rw (c.begins, c.works, c.commits, c.leaves) refl,
  )
