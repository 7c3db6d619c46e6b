-- ===== src/Postgres/Transaction.antt =====
-- internal/storage/postgres/user_repo.go: transactions, and `txUserRepo`, the repository inside one.
use maxwell_go_spine.Prelude.{List, [], ◌∷◌}
use maxwell_go_spine.Go.Int.{ℤ}
use maxwell_go_spine.Go.Error.{wrapped, Result, ok, err, panic, M}
use maxwell_go_spine.Core.User.{Uuid, User, Env, UserRepository, TxStarter}
use maxwell_go_spine.Postgres.{
  Conn, uuid_arg, text_arg, time_arg, int_arg, insert_sql, select_sql, update_sql, delete_sql,
  list_sql, inserted, got_row, changed, page_from, size_from, offset_from, after_rows,
}

-- A pool and its transactions: `tx` is what `*sql.Tx` does, `end_tx` the pool behind a transaction.
pub record Database (S T : Type 0) : Type 0 where
  pub pool : Conn S
  pub tx : Conn T
  pub begin : M S T
  pub commit : M T (Unit {0})
  pub rollback : M T (Unit {0})
  pub end_tx : T → S

module _ {T : Type 0} (tx : Conn T) where
  open tx use {exec, query_row, query, query_count}

  unfoldable pub create : User → M T (Unit {0})
  unfolding inserted
  create u s = inserted (
      exec insert_sql
        (uuid_arg u.id
          ∷ text_arg u.name
          ∷ text_arg u.email
          ∷ time_arg u.created_at
          ∷ time_arg u.updated_at
          ∷ [])
        s)

  unfoldable pub get : Uuid → M T User
  unfolding got_row
  get id s = got_row (query_row select_sql (uuid_arg id ∷ []) s)

  unfoldable pub update : User → M T (Unit {0})
  unfolding changed
  update u s = changed "update user" (
      exec update_sql
        (uuid_arg u.id ∷ text_arg u.name ∷ text_arg u.email ∷ time_arg u.updated_at ∷ []) s)

  unfoldable pub delete : Env → Uuid → M T (Unit {0})
  unfolding changed
  delete env id s =
      changed "soft delete user" (exec delete_sql (uuid_arg id ∷ time_arg env.now ∷ []) s)

  unfoldable pub list : ℤ → ℤ → M T (List User × ℤ)
  unfolding page_from size_from offset_from after_rows
  list page page_size s =
      let size = size_from page_size in
      after_rows query_count
        (query list_sql (int_arg size ∷ int_arg (offset_from (page_from page) size) ∷ []) s)

  unfoldable pub tx_user_repository : UserRepository T
  tx_user_repository = record {
    create = create;
    get = get;
    update = update;
    delete = delete;
    list = λ env page page_size. list page page_size;
  }

-- `BeginTx` behind `r.db.BeginTx`.
unfoldable pub begun : {S T : Type 0} → Result T × S → Result T × S
begun (ok t, s) = (ok t, s)
begun (err e, s) = (err (wrapped "begin tx" e), s)
begun (panic, s) = (panic, s)

unfoldable pub tx_starter : {S T : Type 0} → Database S T → TxStarter S T
unfolding begun
tx_starter db = record {
  begin_tx = λ s. begun (db.begin s);
  unit_of_work = record {
    user_repo = tx_user_repository db.tx;
    commit = db.commit;
    rollback = db.rollback;
  };
  end_tx = db.end_tx;
}
