-- ===== src/Train/Publish.antt =====
-- When dicts.json is replaced.
use shell_sentry.Base.{
  ℕ, Bool, true, false, ◌||◌, List, [], ◌∷◌, ◌++◌, Option, none, some, any, is_empty, length, ◌≡◌,
  refl, arith, Bool-cases, ◌⊎◌, inl, inr,
}
use shell_sentry.Base.Int.{ℤ, pos, ltb_ℤ}
use shell_sentry.Text.{Text, codes, text_eq}
use shell_sentry.Result.{Result, ok, err, and_then, context}
use shell_sentry.Decide.{Floats}
use shell_sentry.Ports.{Session}
use shell_sentry.Training.{TrainRow, build_dicts, build_matrix}
use shell_sentry.Setup.Config.{Config}
use shell_sentry.Train.Job.{
  Surroundings, Call, Job, note, with_calls, write_encoded, run_encoded, trainer_args, publish,
  remove_staged, write_dicts, run_trainer, user_dir, dicts_path, dicts_tmp, flatten_rows,
  train_staged, train_rows, train_loaded, train_session,
}

-- whether a call, other than that of the trainer, has to do with the file of this path
abbrev pub touches : {F : Type 0} → Text → Call F → Bool
touches path (Call.wrote p d done) = text_eq p path
touches path (Call.renamed a b done) = text_eq a path || text_eq b path
touches path (Call.removed p) = text_eq p path
touches path (Call.made_dir p done) = false
touches path (Call.trained args m done) = false

abbrev pub is_ok : {A : Type 0} → Result A → Bool
is_ok (ok a) = true
is_ok (err e) = false

longer_differs : (s : Text) (c : ℕ) (t : Text) → text_eq (s ++ c ∷ t) s ≡ false
unfolding text_eq
longer_differs [] c t = refl
longer_differs (d ∷ s) c t = ground (arith, longer_differs s c t)

module _ {W F : Type 0} (fl : Floats F) (h : Surroundings W F) (cfg : Config)
    (user bin script : Text) where
  -- the staged file is another one
  tmp_differs : text_eq (dicts_tmp fl h cfg user) (dicts_path fl h cfg user) ≡ false
  tmp_differs = longer_differs (dicts_path fl h cfg user) b'.' (codes "tmp")

  -- the calls before the rename: the encoders are staged, and the trainer succeeds on their matrix
  abbrev pub before_rename : List (TrainRow F) → ℤ → List (Call F)
  before_rename rows gen =
      Call.trained (trainer_args fl h script (user_dir fl h cfg user) cfg.model_hmac_key_path gen)
        (build_matrix fl rows (build_dicts rows)) true
      ∷ Call.wrote (dicts_tmp fl h cfg user) (build_dicts rows) true
      ∷ Call.made_dir (user_dir fl h cfg user) true
      ∷ []

  -- either dicts.json was left alone, or the rename comes last and decides the outcome
  abbrev pub Published : List (TrainRow F) → Result (Unit {0}) × Job W F → Type 0
  Published rows (r, j) =
      (any (touches (dicts_path fl h cfg user)) j.calls ≡ false)
      ⊎ ((gen : ℤ) × (j.calls
            ≡ Call.removed (dicts_tmp fl h cfg user)
              ∷ Call.renamed (dicts_tmp fl h cfg user) (dicts_path fl h cfg user) (is_ok r)
              ∷ before_rename rows gen))

  after_trainer :
      (rows : List (TrainRow F)) (gen : ℤ) (o : Option Text × W)
      → Published rows (
          remove_staged fl h (dicts_tmp fl h cfg user) (
            note
              (Call.renamed (dicts_tmp fl h cfg user) (dicts_path fl h cfg user))
              (codes "publish dicts: ")
              (before_rename rows gen)
              o))
  after_trainer rows gen (none, w) = inr (gen, refl)
  after_trainer rows gen (some e, w) = inr (gen, refl)

  after_write :
      (rows : List (TrainRow F)) (gen : ℤ) (w : W) (enc : Result Text)
      → Published rows (
          remove_staged fl h (dicts_tmp fl h cfg user) (
            and_then
              (λ u. publish fl h (dicts_tmp fl h cfg user) (dicts_path fl h cfg user))
              (run_encoded fl h bin
                (trainer_args fl h script (user_dir fl h cfg user) cfg.model_hmac_key_path gen)
                (build_matrix fl rows (build_dicts rows))
                enc
                (record {
                  world = w;
                  calls =
                      Call.wrote (dicts_tmp fl h cfg user) (build_dicts rows) true
                      ∷ Call.made_dir (user_dir fl h cfg user) true
                      ∷ [];
                }))))
  after_write rows gen w (err e) = inl (rw tmp_differs refl)
  after_write rows gen w (ok payload) = after_run (h.run bin _ payload w)
    where
      after_run :
          (o : Option Text × W)
          → Published rows (
              remove_staged fl h (dicts_tmp fl h cfg user) (
                and_then
                  (λ u. publish fl h (dicts_tmp fl h cfg user) (dicts_path fl h cfg user))
                  (note
                    (Call.trained
                      (trainer_args fl h script
                        (user_dir fl h cfg user)
                        cfg.model_hmac_key_path
                        gen)
                      (build_matrix fl rows (build_dicts rows)))
                    (codes "python trainer: run " ++ bin ++ codes ": ")
                    (Call.wrote (dicts_tmp fl h cfg user) (build_dicts rows) true
                      ∷ Call.made_dir (user_dir fl h cfg user) true
                      ∷ [])
                    o)))
      after_run (some e, w') = inl (rw tmp_differs refl)
      after_run (none, w') = after_trainer rows gen (h.rename _ _ w')

  staged :
      (rows : List (TrainRow F)) (w : W)
      → Published rows (
          remove_staged fl h (dicts_tmp fl h cfg user) (
            train_staged fl h cfg user bin script
              (build_matrix fl rows (build_dicts rows))
              (record {
                world = w;
                calls =
                    Call.wrote (dicts_tmp fl h cfg user) (build_dicts rows) true
                    ∷ Call.made_dir (user_dir fl h cfg user) true
                    ∷ [];
              })))
  unfolding train_staged run_trainer
  staged rows w = after_write rows (h.now w).0 (h.now w).1 (h.encode_matrix _)

  -- from the encoders on
  after_dir :
      (rows : List (TrainRow F)) (w : W) (enc : Result Text)
      → Published rows (
          and_then
            (λ u j.
              remove_staged fl h
                (dicts_tmp fl h cfg user)
                (train_staged fl h cfg user bin script (build_matrix fl rows (build_dicts rows)) j))
            (write_encoded fl h
              (dicts_tmp fl h cfg user)
              (build_dicts rows)
              enc
              (record { world = w; calls = Call.made_dir (user_dir fl h cfg user) true ∷ [] })))
  after_dir rows w (err e) = inl refl
  after_dir rows w (ok raw) = after_file (h.write_file _ raw w)
    where
      after_file :
          (o : Option Text × W)
          → Published rows (
              and_then
                (λ u j. remove_staged fl h (dicts_tmp fl h cfg user) (
                  train_staged fl h cfg user bin script
                    (build_matrix fl rows (build_dicts rows))
                    j))
                (note
                  (Call.wrote (dicts_tmp fl h cfg user) (build_dicts rows))
                  (codes "write dicts: write file: ")
                  (Call.made_dir (user_dir fl h cfg user) true ∷ [])
                  o))
      after_file (some e, w') = inl (rw tmp_differs refl)
      after_file (none, w') = staged rows w'

  train_rows-Published :
      (rows : List (TrainRow F)) (w : W)
      → Published rows (train_rows fl h cfg user bin script rows (record { world = w; calls = [] }))
  unfolding train_rows write_dicts
  train_rows-Published rows w = made (h.mkdir_all _ w)
    where
      made :
          (o : Option Text × W)
          → Published rows (
              and_then
                (λ u j.
                  and_then
                    (λ u₂ j₂. remove_staged fl h (dicts_tmp fl h cfg user) (
                      train_staged fl h cfg user bin script
                        (build_matrix fl rows (build_dicts rows))
                        j₂))
                    (write_dicts fl h (dicts_tmp fl h cfg user) (build_dicts rows) j))
                (note (Call.made_dir (user_dir fl h cfg user)) (codes "mkdir user dir: ") [] o))
      made (some e, w') = inl refl
      made (none, w') = after_dir rows w' (h.encode_dicts _)

  -- the rows of the sessions that the store returned
  abbrev pub FromStore : W → List (TrainRow F) → Type 0
  FromStore w rows =
      (sessions : List (Session F)) × (pruned : ℕ) × (w' : W) × (h.prune_and_load user
          cfg.max_sessions_keep w
        ≡ (ok (sessions, pruned), w'))
      × (rows ≡ (flatten_rows fl h sessions w').0)

  -- either dicts.json was left alone, or all of this: the rows are those of the sessions that the store
  -- returned, their encoders were staged, the trainer succeeded on their matrix, and only then were
  -- the encoders renamed into place, with which the call ends
  abbrev pub PublishedFrom : W → Result (Unit {0}) × Job W F → Type 0
  PublishedFrom w o =
      (any (touches (dicts_path fl h cfg user)) o.1.calls ≡ false)
      ⊎ ((rows : List (TrainRow F)) × FromStore w rows
          × (gen : ℤ) × (o.1.calls
              ≡ Call.removed (dicts_tmp fl h cfg user)
                ∷ Call.renamed (dicts_tmp fl h cfg user) (dicts_path fl h cfg user) (is_ok o.0)
                ∷ before_rename rows gen))

  from_rows :
      (w : W) (rows : List (TrainRow F)) (out : Result (Unit {0}) × Job W F)
      → FromStore w rows
      → Published rows out
      → PublishedFrom w out
  from_rows w rows out f (inl e) = inl e
  from_rows w rows out f (inr (gen, e)) = inr (rows, f, gen, e)

  loaded-PublishedFrom :
      (w : W) (r : Result (List (Session F) × ℕ) × W)
      → h.prune_and_load user cfg.max_sessions_keep w ≡ r
      → PublishedFrom w (
          and_then
            (λ x. train_loaded fl h cfg user bin script x.0)
            (with_calls [] (context (codes "prune+load: ") r)))
  loaded-PublishedFrom w (err m, w') e = inl refl
  loaded-PublishedFrom w (ok (sessions, pruned), w') e =
      elim (Bool-cases (ltb_ℤ (pos (length sessions)) cfg.min_sessions_train)) [
        | inl k ↦ rw k (inl refl)
        | inr k ↦
            let rows = (flatten_rows fl h sessions w').0 in
            elim (Bool-cases (is_empty rows)) [
              | inl n ↦ rw (k, n) (inl refl)
              | inr n ↦
                  rw (k, n)
                    (from_rows w rows
                      (train_rows fl h cfg user bin script rows
                        (record { world = (flatten_rows fl h sessions w').1; calls = [] }))
                      (sessions, pruned, w', e, refl)
                      (train_rows-Published rows (flatten_rows fl h sessions w').1))
            ]
      ]

  -- Either `trainSession` has nothing to do with dicts.json: it does not write, rename or remove it; or it
  -- replaces it by a rename, behind a trainer that succeeded on the matrix of the encoders that were
  -- staged in another file and of the same rows, which are those of the sessions that the store returned.
  -- The rename is then the last step but for the removal of the staged file, and no error is returned if
  -- and only if it succeeded.
  pub train_session-PublishedFrom :
      (w : W)
      → PublishedFrom w (train_session fl h cfg user bin script (record { world = w; calls = [] }))
  unfolding train_session
  train_session-PublishedFrom w =
      loaded-PublishedFrom w (h.prune_and_load user cfg.max_sessions_keep w) refl
