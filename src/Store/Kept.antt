-- ===== src/Store/Kept.antt =====
-- What the methods leave alone: a statement that fails, a query, and a transaction that fails.
use shell_sentry.Base.{List, [], ◌∷◌, Option, none, some, ◌≡◌, refl, ◌∙◌}
use shell_sentry.Base.Order.{order_by}
use shell_sentry.Text.{Text}
use shell_sentry.Result.{Result, ok, err, Act, and_then}
use shell_sentry.Store.Tables.{SessionRow, Tables, by_start, commands_of}
use shell_sentry.Store.Driver.{Statement, Driver, Db, perform, execute, roll_back}
use shell_sentry.Store.Methods.{only, open_store, transact, load_each, load_rows}

module _ {W F : Type 0} (v : Driver W) where
  perform_kept :
      {A : Type 0} (q : Statement) (x : Option Text × W) (a : A) (t : Tables F)
      → (perform q x (a, t) t).1.tables ≡ t
  perform_kept q (some e, w) a t = refl
  perform_kept q (none, w) a t = refl

  only_kept : (q : Statement) (db : Db W F) → (only v q db).1.tables ≡ db.tables
  unfolding execute
  only_kept q db = perform_kept q (v.attempt q db.world) tt db.tables

  and_then_kept :
      {A B : Type 0} (f : A → Act (Db W F) B) (r : Result A × Db W F)
      → ((a : A) (db : Db W F) → (f a db).1.tables ≡ db.tables)
      → (and_then f r).1.tables ≡ r.1.tables
  and_then_kept f (ok a, db) h = h a db
  and_then_kept f (err e, db) h = refl

  pub open_store_kept : (db : Db W F) → (open_store v db).1.tables ≡ db.tables
  unfolding open_store
  open_store_kept db =
      and_then_kept _ (only v Statement.make_dir db) (λ u db₁.
        and_then_kept _ (only v Statement.open_db db₁) (λ u₂. only_kept Statement.create_tables)
        ∙ only_kept Statement.open_db db₁)
      ∙ only_kept Statement.make_dir db

  roll_back_err :
      {A : Type 0} (before : Tables F) (r : Result A × Db W F) {e : Text} {db' : Db W F}
      → roll_back before r ≡ (err e, db')
      → db'.tables ≡ before
  roll_back_err before (ok a, db) h = cc
  roll_back_err before (err m, db) h = cc

  -- a call that opens the store and runs a transaction leaves the tables alone if it fails
  pub open_then_transact_err :
      {A : Type 0} (body : Act (Db W F) A) (r : Result (Unit {0}) × Db W F) (before : Tables F)
      {e : Text} {db' : Db W F}
      → r.1.tables ≡ before
      → and_then (λ u. transact v body) r ≡ (err e, db')
      → db'.tables ≡ before
  unfolding transact
  open_then_transact_err body (ok u, db) before k h = roll_back_err db.tables _ h ∙ k
  open_then_transact_err body (err m, db) before k h = cc

  pub query_kept :
      {A : Type 0} (q : Statement) (f : Tables F → A) (db : Db W F)
      → (execute v q (λ t. (f t, t)) db).1.tables ≡ db.tables
  unfolding execute
  query_kept q f db = perform_kept q (v.attempt q db.world) (f db.tables) db.tables

  load_each_kept :
      (rows : List SessionRow) (db : Db W F) → (load_each v rows db).1.tables ≡ db.tables
  unfolding load_each
  load_each_kept [] db = refl
  load_each_kept (r ∷ rows) db =
      and_then_kept _ (execute v Statement.query_commands (λ t. (commands_of r.id t, t)) db)
        (λ cs db₁.
          and_then_kept _ (only v Statement.scan_command db₁) (λ u db₂.
            and_then_kept _ (only v Statement.iterate_commands db₂) (λ u₂ db₃.
              and_then_kept _ (load_each v rows db₃) (λ rest db₄. refl) ∙ load_each_kept rows db₃)
            ∙ only_kept Statement.iterate_commands db₂)
          ∙ only_kept Statement.scan_command db₁)
      ∙ query_kept Statement.query_commands (commands_of r.id) db

  pub load_rows_kept : (db : Db W F) → (load_rows v db).1.tables ≡ db.tables
  unfolding load_rows
  load_rows_kept db =
      and_then_kept _
        (execute v Statement.query_sessions (λ t. (order_by by_start t.sessions, t)) db)
        (λ rows db₁.
          and_then_kept _ (only v Statement.scan_session db₁) (λ u db₂.
            and_then_kept _ (only v Statement.iterate_sessions db₂) (λ u₂. load_each_kept rows)
            ∙ only_kept Statement.iterate_sessions db₂)
          ∙ only_kept Statement.scan_session db₁)
      ∙ query_kept Statement.query_sessions (λ t. order_by by_start t.sessions) db

  pub open_then_kept :
      {A : Type 0} (body : Act (Db W F) A) (db : Db W F)
      → ((db : Db W F) → (body db).1.tables ≡ db.tables)
      → (and_then (λ u. body) (open_store v db)).1.tables ≡ db.tables
  open_then_kept body db h = and_then_kept _ (open_store v db) (λ u. h) ∙ open_store_kept db
