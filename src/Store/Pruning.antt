-- ===== src/Store/Pruning.antt =====
-- What pruning and loading do to the tables, and what they return, where they return no error.
use shell_sentry.Base.{
  ℕ, ◌-◌, true, List, [], ◌∷◌, ltb, map, keep, ◌≡◌, sym, ap, ◌∙◌, arith, Bool-cases, inl, inr,
}
use shell_sentry.Base.Int.{ℤ, pos, pos_part, ltb_ℤ}
use shell_sentry.Result.{Result, ok, and_then-eq-ok, pure-eq-ok}
use shell_sentry.Ports.{Session}
use shell_sentry.Store.Tables.{SessionRow, Tables, delete_sessions}
use shell_sentry.Store.Driver.{Statement, Driver, Db, execute}
use shell_sentry.Store.Methods.{
  only, open_store, delete_oldest, prune_oldest, load_each, load_rows, prune_and_load,
}
use shell_sentry.Store.Laws.{
  session_of, history, without_oldest, without_oldest_none, excess, execute-eq-ok, only-eq-ok,
  open_store-eq-ok, transact-eq-ok,
}

module _ {W F : Type 0} (v : Driver W) where
  load_each-eq-ok :
      (rows : List SessionRow) (db : Db W F) {xs : List (Session F)} {db' : Db W F}
      → load_each v rows db ≡ (ok xs, db')
      → (xs ≡ map (session_of db.tables) rows) × (db'.tables ≡ db.tables)
  unfolding load_each
  load_each-eq-ok [] db h = (cc, cc)
  load_each-eq-ok (r ∷ rows) db h =
      let (cs, db₁, e₁, k₁) = and_then-eq-ok _ (execute v Statement.query_commands _ db) h in
      let (_, db₂, e₂, k₂) = and_then-eq-ok _ (only v Statement.scan_command db₁) k₁ in
      let (_, db₃, e₃, k₃) = and_then-eq-ok _ (only v Statement.iterate_commands db₂) k₂ in
      let (rest, db₄, e₄, k₄) = and_then-eq-ok _ (load_each v rows db₃) k₃ in
      let (f, g₁) = execute-eq-ok v Statement.query_commands _ db e₁ in
      let g : db.tables ≡ db₃.tables =
        g₁
        ∙ only-eq-ok v Statement.scan_command db₁ e₂
        ∙ only-eq-ok v Statement.iterate_commands db₂ e₃ in
      let (i, j) = load_each-eq-ok rows db₃ e₄ in
      let tails : rest ≡ map (session_of db.tables) rows =
        i ∙ ap (λ (t : Tables F). map (session_of t) rows) (sym g) in
      (
        sym (pure-eq-ok k₄).0
            ∙ ap
                (λ cs.
                  record { start_ts = r.start_ts; end_ts = r.end_ts; commands = cs; valid = true }
                  ∷ rest)
                (sym f)
            ∙ ap (◌∷◌ (session_of db.tables r)) tails,
        ap (λ (d : Db W F). d.tables) (sym (pure-eq-ok k₄).1) ∙ j ∙ sym g,
      )

  pub load_rows-eq-ok :
      (db : Db W F) {xs : List (Session F)} {db' : Db W F}
      → load_rows v db ≡ (ok xs, db')
      → (xs ≡ history db.tables) × (db'.tables ≡ db.tables)
  unfolding load_rows
  load_rows-eq-ok db h =
      let (rows, db₁, e, k) = and_then-eq-ok _ (execute v Statement.query_sessions _ db) h in
      let (_, db₂, e₂, k₂) = and_then-eq-ok _ (only v Statement.scan_session db₁) k in
      let (_, db₃, e₃, k₃) = and_then-eq-ok _ (only v Statement.iterate_sessions db₂) k₂ in
      let (f, g₁) = execute-eq-ok v Statement.query_sessions _ db e in
      let g : db.tables ≡ db₃.tables =
        g₁
        ∙ only-eq-ok v Statement.scan_session db₁ e₂
        ∙ only-eq-ok v Statement.iterate_sessions db₂ e₃ in
      let (i, j) = load_each-eq-ok rows db₃ k₃ in
      (
        i
            ∙ ap (λ (t : Tables F). map (session_of t) rows) (sym g)
            ∙ ap (map (session_of db.tables)) (sym f),
        j ∙ sym g,
      )

  delete_oldest-eq-ok :
      (keep total : ℕ) (db : Db W F) {n : ℕ} {db' : Db W F}
      → delete_oldest v keep total db ≡ (ok n, db')
      → (n ≡ total - keep) × (db'.tables ≡ without_oldest n db.tables)
  unfolding delete_oldest
  delete_oldest-eq-ok keep total db {n} h = elim (Bool-cases (ltb keep total)) [
    | inl e ↦
        let run = rw e at h in
        let (_, db₁, e₁, k₁) = and_then-eq-ok _ (execute v Statement.delete_commands _ db) run in
        let (_, db₂, e₂, k₂) = and_then-eq-ok _ (execute v Statement.delete_sessions _ db₁) k₁ in
        let f = (execute-eq-ok v Statement.delete_commands _ db e₁).1 in
        let g = (execute-eq-ok v Statement.delete_sessions _ db₁ e₂).1 in
        let size : total - keep ≡ n = cc in
        (
          sym size,
          ap (λ (p : Result ℕ × Db W F). p.1.tables) (sym k₂)
              ∙ sym g
              ∙ ap (delete_sessions (total - keep)) (sym f)
              ∙ ap (λ m. without_oldest m db.tables) size,
        )
    | inr e ↦
        let run = rw e at h in
        let none_left : total - keep ≡ 0 = ground arith in
        let zero_deleted : 0 ≡ n = cc in
        (
          cc,
          ap (λ (p : Result ℕ × Db W F). p.1.tables) (sym run)
              ∙ sym (without_oldest_none db.tables)
              ∙ ap (λ m. without_oldest m db.tables) zero_deleted,
        )
  ]

  pub prune_oldest-eq-ok :
      (keep : ℤ) (db : Db W F) {n : ℕ} {db' : Db W F}
      → prune_oldest v keep db ≡ (ok n, db')
      → (n ≡ excess keep db.tables) × (db'.tables ≡ without_oldest n db.tables)
  unfolding prune_oldest
  prune_oldest-eq-ok keep db {n} h = elim (Bool-cases (ltb_ℤ (pos 0) keep)) [
    | inl e ↦
        let run = rw e at h in
        let (total, db₁, e₁, k₁) = and_then-eq-ok _ (execute v Statement.count_sessions _ db) run in
        let (f, g) = execute-eq-ok v Statement.count_sessions _ db e₁ in
        let (size, rest) = delete_oldest-eq-ok (pos_part keep) total db₁ k₁ in
        (rw e (size ∙ ap (λ m. m - pos_part keep) (sym f)), rest ∙ ap (without_oldest _) (sym g))
    | inr e ↦
        let run = rw e at h in
        let zero_deleted : 0 ≡ n = cc in
        (
          rw e (sym zero_deleted),
          ap (λ (p : Result ℕ × Db W F). p.1.tables) (sym run)
              ∙ sym (without_oldest_none db.tables)
              ∙ ap (λ m. without_oldest m db.tables) zero_deleted,
        )
  ]

  pub prune_and_load-eq-ok :
      (keep : ℤ) (db : Db W F) {xs : List (Session F)} {n : ℕ} {db' : Db W F}
      → prune_and_load v keep db ≡ (ok (xs, n), db')
      → (n ≡ excess keep db.tables)
        × (db'.tables ≡ without_oldest n db.tables)
        × (xs ≡ history (without_oldest n db.tables))
  unfolding prune_and_load
  prune_and_load-eq-ok keep db {xs} {n} h =
      let (_, db₀, e₀, k₀) = and_then-eq-ok _ (open_store v db) h in
      let (db₁, db₂, b, body, a) = transact-eq-ok v _ db₀ k₀ in
      let (m, db₃, e₃, k₃) = and_then-eq-ok _ (prune_oldest v keep db₁) body in
      let (ys, db₄, e₄, k₄) = and_then-eq-ok _ (load_rows v db₃) k₃ in
      let (size, pruned) = prune_oldest-eq-ok keep db₁ e₃ in
      let (loaded, kept) = load_rows-eq-ok db₃ e₄ in
      let before : db.tables ≡ db₁.tables = open_store-eq-ok v db e₀ ∙ b in
      let (values, states) = pure-eq-ok k₄ in
      let m_n : m ≡ n = ap (λ (p : List (Session F) × ℕ). p.1) values in
      let ys_xs : ys ≡ xs = ap (λ (p : List (Session F) × ℕ). p.0) values in
      let db₄_db₂ : db₄.tables ≡ db₂.tables = ap (λ (p : Db W F). p.tables) states in
      let left : db₃.tables ≡ without_oldest n db.tables =
        pruned ∙ ap (λ i. without_oldest i db₁.tables) m_n ∙ ap (without_oldest n) (sym before) in
      (
        sym m_n ∙ size ∙ ap (excess keep) (sym before),
        sym a ∙ sym db₄_db₂ ∙ kept ∙ left,
        sym ys_xs ∙ loaded ∙ ap history left,
      )
