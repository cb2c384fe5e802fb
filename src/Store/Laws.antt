-- ===== src/Store/Laws.antt =====
-- What a statement, a transaction and `SaveSession` do to the tables, where they return no error.
use shell_sentry.Base.{
  ℕ, ◌-◌, true, List, [], ◌∷◌, if◌then◌else◌, length, map, keep, Option, none, some, ◌≡◌, sym, ap,
  ◌∙◌,
}
use shell_sentry.Base.Int.{ℤ, pos, pos_part, ltb_ℤ}
use shell_sentry.Base.Keep.{keep_all}
use shell_sentry.Base.Order.{order_by}
use shell_sentry.Text.{Text}
use shell_sentry.Result.{Result, ok, err, Act, and_then-eq-ok}
use shell_sentry.Ports.{CommandRecord, Session}
use shell_sentry.Store.Tables.{
  SessionRow, Tables, by_start, insert_session, insert_command, delete_commands, delete_sessions,
  commands_of, oldest,
}
use shell_sentry.Store.Driver.{Statement, Driver, Db, perform, execute, roll_back}
use shell_sentry.Store.Methods.{only, open_store, transact, insert_commands, save_session}

module _ {F : Type 0} where
  -- the session with its commands, as the tables hold it
  abbrev pub session_of : Tables F → SessionRow → Session F
  session_of t r = record {
    start_ts = r.start_ts;
    end_ts = r.end_ts;
    commands = commands_of r.id t;
    valid = true;
  }

  -- the history: every session, oldest first
  abbrev pub history : Tables F → List (Session F)
  history t = map (session_of t) (order_by by_start t.sessions)

  abbrev pub with_commands : ℕ → List (CommandRecord F) → Tables F → Tables F
  with_commands sid [] t = t
  with_commands sid (c ∷ cs) t = with_commands sid cs (insert_command sid c t)

  -- the tables with one more session
  abbrev pub with_session : Session F → Tables F → Tables F
  with_session s t = let (sid, t') = insert_session s t in with_commands sid s.commands t'

  -- the tables without their oldest sessions
  abbrev pub without_oldest : ℕ → Tables F → Tables F
  without_oldest n t = delete_sessions n (delete_commands n t)

  -- how many sessions there are beyond those to keep
  abbrev pub excess : ℤ → Tables F → ℕ
  excess keep t = if ltb_ℤ (pos 0) keep then length t.sessions - pos_part keep else 0

  pub without_oldest_none : (t : Tables F) → without_oldest 0 t ≡ t
  unfolding delete_sessions delete_commands oldest
  without_oldest_none t = cc (keep_all t.sessions, keep_all t.commands)

module _ {W F : Type 0} (v : Driver W) where
  perform-eq-ok :
      {A : Type 0} (q : Statement) (x : Option Text × W) (r : A × Tables F) (t : Tables F) {a : A}
      {db' : Db W F}
      → perform q x r t ≡ (ok a, db')
      → (r.0 ≡ a) × (r.1 ≡ db'.tables)
  perform-eq-ok q (some e, w) (b, done) t h = cc
  perform-eq-ok q (none, w) (b, done) t h = (cc, cc)

  pub execute-eq-ok :
      {A : Type 0} (q : Statement) (effect : Tables F → A × Tables F) (db : Db W F) {a : A}
      {db' : Db W F}
      → execute v q effect db ≡ (ok a, db')
      → ((effect db.tables).0 ≡ a) × ((effect db.tables).1 ≡ db'.tables)
  unfolding execute
  execute-eq-ok q effect db h =
      perform-eq-ok q (v.attempt q db.world) (effect db.tables) db.tables h

  insert_commands-eq-ok :
      (sid : ℕ) (cs : List (CommandRecord F)) (db : Db W F) {u : Unit {0}} {db' : Db W F}
      → insert_commands v sid cs db ≡ (ok u, db')
      → db'.tables ≡ with_commands sid cs db.tables
  unfolding insert_commands
  insert_commands-eq-ok sid [] db h = cc
  insert_commands-eq-ok sid (c ∷ cs) db h =
      let (a, db₁, e, k) = and_then-eq-ok _ (execute v Statement.insert_command _ db) h in
      insert_commands-eq-ok sid cs db₁ k
      ∙ ap (with_commands sid cs) (sym (execute-eq-ok Statement.insert_command _ db e).1)

  pub only-eq-ok :
      (q : Statement) (db : Db W F) {u : Unit {0}} {db' : Db W F}
      → only v q db ≡ (ok u, db')
      → db.tables ≡ db'.tables
  only-eq-ok q db h = (execute-eq-ok q _ db h).1

  pub open_store-eq-ok :
      (db : Db W F) {u : Unit {0}} {db' : Db W F}
      → open_store v db ≡ (ok u, db')
      → db.tables ≡ db'.tables
  unfolding open_store
  open_store-eq-ok db h =
      let (_, db₁, e₁, k₁) = and_then-eq-ok _ (only v Statement.make_dir db) h in
      let (_, db₂, e₂, k₂) = and_then-eq-ok _ (only v Statement.open_db db₁) k₁ in
      only-eq-ok Statement.make_dir db e₁
      ∙ only-eq-ok Statement.open_db db₁ e₂
      ∙ only-eq-ok Statement.create_tables db₂ k₂

  roll_back-eq-ok :
      {A : Type 0} (before : Tables F) (r : Result A × Db W F) {a : A} {db' : Db W F}
      → roll_back before r ≡ (ok a, db')
      → r ≡ (ok a, db')
  roll_back-eq-ok before (ok b, db) h = h
  roll_back-eq-ok before (err e, db) h = cc

  -- a transaction that succeeds has the effect of its body
  pub transact-eq-ok :
      {A : Type 0} (body : Act (Db W F) A) (db : Db W F) {a : A} {db' : Db W F}
      → transact v body db ≡ (ok a, db')
      → (db₁ : Db W F) × (db₂ : Db W F) × (db.tables ≡ db₁.tables)
        × (body db₁ ≡ (ok a, db₂))
        × (db₂.tables ≡ db'.tables)
  unfolding transact
  transact-eq-ok body db h =
      let whole = roll_back-eq-ok db.tables _ h in
      let (_, db₁, e₁, k₁) = and_then-eq-ok _ (only v Statement.begin db) whole in
      let (b, db₂, e₂, k₂) = and_then-eq-ok _ (body db₁) k₁ in
      let (_, db₃, e₃, k₃) = and_then-eq-ok _ (only v Statement.commit db₂) k₂ in
      (
        db₁,
        db₂,
        only-eq-ok Statement.begin db e₁,
        cc (e₂, k₃),
        only-eq-ok Statement.commit db₂ e₃ ∙ ap (λ (p : Result _ × Db W F). p.1.tables) k₃,
      )

  pub save_session-eq-ok :
      (s : Session F) (db : Db W F) {u : Unit {0}} {db' : Db W F}
      → save_session v s db ≡ (ok u, db')
      → db'.tables ≡ with_session s db.tables
  unfolding save_session
  save_session-eq-ok s db h =
      let (_, db₀, e₀, k₀) = and_then-eq-ok _ (open_store v db) h in
      let (db₁, db₂, b, body, a) = transact-eq-ok _ db₀ k₀ in
      let (sid, db₃, e₃, k₃) = and_then-eq-ok _ (execute v Statement.insert_session _ db₁) body in
      let (_, db₄, e₄, k₄) = and_then-eq-ok _ (only v Statement.last_insert_id db₃) k₃ in
      let (f, g) = execute-eq-ok Statement.insert_session _ db₁ e₃ in
      let before : db.tables ≡ db₁.tables = open_store-eq-ok db e₀ ∙ b in
      sym a
      ∙ insert_commands-eq-ok sid s.commands db₄ k₄
      ∙ ap (with_commands sid s.commands) (sym (only-eq-ok Statement.last_insert_id db₃ e₄) ∙ sym g)
      ∙ ap (λ n. with_commands n s.commands (insert_session s db₁.tables).1) (sym f)
      ∙ ap (with_session s) (sym before)
