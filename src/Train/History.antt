-- ===== src/Train/History.antt =====
-- The rows of a training on the SQLite store.
use shell_sentry.Base.{
  List, [], ◌∷◌, ◌++◌, map, drop, any, false, ◌≡◌, ◌⊎◌, inl, inr, refl, sym, ap, ◌∙◌,
}
use shell_sentry.Base.Int.{ℤ}
use shell_sentry.Text.{Text}
use shell_sentry.Decide.{Floats}
use shell_sentry.Ports.{CommandRecord, Session}
use shell_sentry.Training.{TrainRow}
use shell_sentry.Store.Driver.{Driver, Db}
use shell_sentry.Store.Methods.{prune_and_load}
use shell_sentry.Store.Laws.{history, excess}
use shell_sentry.Store.Retention.{IsSound, prune_and_load_lem}
use shell_sentry.Setup.Config.{Config}
use shell_sentry.Train.Job.{
  Surroundings, Call, row_of, flatten_commands, flatten_rows, dicts_path, dicts_tmp, train_session,
}
use shell_sentry.Train.Publish.{
  touches, is_ok, before_rename, FromStore, train_session-PublishedFrom,
}

-- the row of a command, where `geo` gives the country of an address
abbrev pub row_for : {F : Type 0} → (Text → Text) → CommandRecord F → TrainRow F
row_for geo c = record {
  raw_cmd = c.raw_cmd;
  country = geo c.ip;
  time_cos = c.feat.time_cos;
  time_sin = c.feat.time_sin;
  secs_since_last = c.feat.secs_since_last;
}

-- the rows of the commands, session after session
abbrev pub rows_for : {F : Type 0} → (Text → Text) → List (Session F) → List (TrainRow F)
rows_for geo [] = []
rows_for geo (s ∷ sessions) = map (row_for geo) s.commands ++ rows_for geo sessions

module _ {W F : Type 0} (fl : Floats F) (h : Surroundings W F) (geo : Text → Text)
    (resolves : (ip : Text) (w : W) → (h.country ip w).0 ≡ geo ip) where
  flatten_commands-rows :
      (cs : List (CommandRecord F)) (w : W) → (flatten_commands fl h cs w).0 ≡ map (row_for geo) cs
  unfolding flatten_commands
  flatten_commands-rows [] w = refl
  flatten_commands-rows (c ∷ cs) w =
      ap (λ country. row_of fl h c country ∷ (flatten_commands fl h cs (h.country c.ip w).1).0)
        (resolves c.ip w)
      ∙ ap (◌∷◌ (row_for geo c)) (flatten_commands-rows cs (h.country c.ip w).1)

  flatten_rows-rows :
      (sessions : List (Session F)) (w : W)
      → (flatten_rows fl h sessions w).0 ≡ rows_for geo sessions
  unfolding flatten_rows
  flatten_rows-rows [] w = refl
  flatten_rows-rows (s ∷ sessions) w =
      let first = flatten_commands fl h s.commands w in
      ap (λ l. l ++ (flatten_rows fl h sessions first.1).0) (flatten_commands-rows s.commands w)
      ∙ ap (λ l. map (row_for geo) s.commands ++ l) (flatten_rows-rows sessions first.1)

module _ {W F : Type 0} (fl : Floats F) (h : Surroundings (Db W F) F) (cfg : Config)
    (user bin script : Text) (geo : Text → Text)
    (resolves : (ip : Text) (w : Db W F) → (h.country ip w).0 ≡ geo ip) where
  FromStore-rows :
      (v : Driver W) (db : Db W F) (rows : List (TrainRow F))
      → ((keep : ℤ) (db : Db W F) → h.prune_and_load user keep db ≡ prune_and_load v keep db)
      → IsSound db.tables
      → FromStore fl h cfg user bin script db rows
      → rows ≡ rows_for geo (drop (excess cfg.max_sessions_keep db.tables) (history db.tables))
  FromStore-rows v db rows same sound (sessions, pruned, db', loaded, e) =
      let (size, kept, _, _) =
        prune_and_load_lem v cfg.max_sessions_keep db db' sessions pruned sound
          (sym (same cfg.max_sessions_keep db) ∙ loaded) in
      e
      ∙ flatten_rows-rows fl h geo resolves sessions db'
      ∙ ap (rows_for geo) (kept ∙ ap (λ n. drop n (history db.tables)) size)

  -- Let the store of a training be the SQLite store with a sound database, and let the resolver give each
  -- address its one country. Either `trainSession` has nothing to do with dicts.json, or it replaces it
  -- behind a trainer that succeeded on the matrix of the very rows of the history: a row for each command
  -- of the saved sessions, oldest session first and each command in its place, with its line, its time
  -- and spacing as they were saved and the country of its address, without the oldest sessions beyond
  -- `max_sessions_keep`.
  pub train_on_history :
      (v : Driver W) (db : Db W F)
      → ((keep : ℤ) (db : Db W F) → h.prune_and_load user keep db ≡ prune_and_load v keep db)
      → IsSound db.tables
      → (let out = train_session fl h cfg user bin script (record { world = db; calls = [] }) in
          let rows =
            rows_for geo (drop (excess cfg.max_sessions_keep db.tables) (history db.tables)) in
          (any (touches (dicts_path fl h cfg user)) out.1.calls ≡ false)
          ⊎ ((gen : ℤ) × (out.1.calls
                ≡ Call.removed (dicts_tmp fl h cfg user)
                  ∷ Call.renamed (dicts_tmp fl h cfg user) (dicts_path fl h cfg user) (is_ok out.0)
                  ∷ before_rename fl h cfg user bin script rows gen)))
  train_on_history v db same sound =
      elim (train_session-PublishedFrom fl h cfg user bin script db) [
        | inl e ↦ inl e
        | inr (rows, from, gen, e) ↦ inr (
          gen,
          e
              ∙ ap
                  (λ r.
                    Call.removed (dicts_tmp fl h cfg user)
                    ∷ Call.renamed (dicts_tmp fl h cfg user) (dicts_path fl h cfg user) (
                        is_ok
                          (train_session fl h cfg user bin script
                            (record { world = db; calls = [] })).0)
                    ∷ before_rename fl h cfg user bin script r gen)
                  (FromStore-rows v db rows same sound from),
        )
      ]
