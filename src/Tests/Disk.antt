-- ===== src/Tests/Disk.antt =====
-- A disk that is an association list, with constants for the TOTP library; paths are joined as
-- `userFile` does.
use shell_sentry.Base.{
  true, false, List, [], ◌∷◌, ◌++◌, none, ◌≡◌, ◌≢◌, refl, sym, ap, ◌∙◌, arith, Bool-cases, inl, inr,
  if◌then◌else◌,
}
use shell_sentry.Base.Slices.{append_cancel}
use shell_sentry.Text.{Text, codes, text_eq}
use shell_sentry.Text.Laws.{text_eq_iff, text_eq_refl, text_eq_sound}
use shell_sentry.Username.{valid_username, user_file}
use shell_sentry.Username.Traversal.{components, has_slash, user_file-components}
use shell_sentry.Result.{Result, ok, err}
use shell_sentry.Otp.Vault.{System, Vault}
use shell_sentry.Otp.Laws.{SystemLaws, VaultFile, name_of, path_of, is_ok}

abbrev pub Disk : Type 0
Disk = List (Text × Text)

abbrev pub lookup : Text → Disk → Result Text
lookup p [] = err (codes "no such file")
lookup p ((q, c) ∷ d) = if text_eq q p then ok c else lookup p d

abbrev without : Text → Disk → Disk
without p [] = []
without p ((q, c) ∷ d) = elim (text_eq q p) [ true ↦ without p d | false ↦ (q, c) ∷ without p d ]

abbrev pub system : System Disk
system = record {
  join = user_file;
  dir = λ p. p;
  read_file = lookup;
  stat = λ p d. is_ok (lookup p d);
  mkdir_all = λ p d. (none, d);
  write_file = λ p c d. (none, (p, c) ∷ d);
  remove = λ p d. (none, without p d);
  generate = λ issuer account d. (ok (codes "SECRET"), d);
  code_valid = λ code secret d. text_eq code (codes "123456");
  encode_query = λ pairs. codes "q";
  print_url = λ scheme host path query. scheme ++ codes "://" ++ host ++ path ++ codes "?" ++ query;
}

abbrev pub vault : Vault
vault = record { root = codes "/root/otp"; issuer = codes "shellsentry" }

lookup-without : (p : Text) (d : Disk) → is_ok (lookup p (without p d)) ≡ false
lookup-without p [] = refl
lookup-without p ((q, c) ∷ d) = ground (arith, lookup-without p d)

lookup-without_other : (p q : Text) (d : Disk) → q ≢ p → lookup q (without p d) ≡ lookup q d
lookup-without_other p q [] n = refl
lookup-without_other p q ((r, c) ∷ d) n = elim (Bool-cases (text_eq r p)) [
  | inl e ↦
      let apart : text_eq r q ≡ false = elim (Bool-cases (text_eq r q)) [
        | inl x ↦ absurd (n (sym (text_eq_sound r q x) ∙ text_eq_sound r p e))
        | inr x ↦ x
      ] in
      ground (arith, apart, lookup-without_other p q d n)
  | inr e ↦ ground (arith, lookup-without_other p q d n)
]

lookup-write_other : (p c q : Text) (d : Disk) → q ≢ p → lookup q ((p, c) ∷ d) ≡ lookup q d
lookup-write_other p c q d n = ground (arith, text_eq_iff p q)

user_file_injective :
    (root u f u' f' : Text)
    → valid_username u ≡ none
    → valid_username u' ≡ none
    → has_slash f ≡ false
    → has_slash f' ≡ false
    → user_file root u f ≡ user_file root u' f'
    → (u ≡ u') × (f ≡ f')
user_file_injective root u f u' f' h h' k k' e =
    let c = (user_file-components root u f h k).0 in
    let c' = (user_file-components root u' f' h' k').0 in
    let same =
      append_cancel (components root) (u ∷ f ∷ []) (u' ∷ f' ∷ []) (sym c ∙ ap components e ∙ c') in
    (cc, cc)

no_slash : (f : VaultFile) → has_slash (name_of f) ≡ false
no_slash VaultFile.secret_file = refl
no_slash VaultFile.mark_file = refl

pub laws : SystemLaws system vault
laws = record {
  write_stat = λ u f c d n h. rw text_eq_refl;
  write_read = λ u f c d n h. rw text_eq_refl;
  remove_read = λ u f d n h. lookup-without (path_of system vault u f) d;
  write_other = λ u u' f f' c d n n' other. lookup-write_other _ c _ d other;
  remove_other = λ u u' f f' d n n' other. lookup-without_other _ _ d other;
  mkdir_kept = λ u u' f f' d n n'. refl;
  generate_kept = λ issuer account u' f' d n'. refl;
  join_apart = λ u u' f f' n n' e.
      (user_file_injective vault.root u (name_of f) u' (name_of f') n n' (no_slash f) (no_slash f')
        e).0;
}
