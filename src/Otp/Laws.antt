-- ===== src/Otp/Laws.antt =====
-- What the vault relies on in the operating system and in the TOTP library: the two files of each user
-- with an accepted name, as `os` and `filepath.Join` treat them.
use shell_sentry.Base.{Bool, true, false, none, ◌≡◌, ◌≢◌}
use shell_sentry.Text.{Text, codes}
use shell_sentry.Username.{valid_username}
use shell_sentry.Result.{Result, ok, err}
use shell_sentry.Otp.Vault.{System, Vault}

abbrev pub is_ok : {A : Type 0} → Result A → Bool
is_ok (ok a) = true
is_ok (err m) = false

-- a user's secret, and the mark of a confirmed enrollment
pub data VaultFile : Type 0 where
  secret_file mark_file : VaultFile

abbrev pub name_of : VaultFile → Text
name_of VaultFile.secret_file = codes "totp.secret"
name_of VaultFile.mark_file = codes "totp.enrolled"

abbrev pub path_of : {D : Type 0} → System D → Vault → Text → VaultFile → Text
path_of y v user f = y.join v.root user (name_of f)

-- The root of the vault is a directory of the daemon's user, who is root, and is closed to all others:
-- the disks `D` are those on which nothing below it is a link, each of these files is absent or a regular
-- file, and different names name different files. The daemon keeps it so. Nothing is asked of other paths.
pub record SystemLaws {D : Type 0} (y : System D) (v : Vault) : Type 0 where
  -- what was written is there, and can be read
  pub write_stat :
      (u : Text) (f : VaultFile) (c : Text) (d : D)
      → valid_username u ≡ none
      → (y.write_file (path_of y v u f) c d).0 ≡ none
      → y.stat (path_of y v u f) (y.write_file (path_of y v u f) c d).1 ≡ true
  pub write_read :
      (u : Text) (f : VaultFile) (c : Text) (d : D)
      → valid_username u ≡ none
      → (y.write_file (path_of y v u f) c d).0 ≡ none
      → y.read_file (path_of y v u f) (y.write_file (path_of y v u f) c d).1 ≡ ok c
  pub remove_read :
      (u : Text) (f : VaultFile) (d : D)
      → valid_username u ≡ none
      → (y.remove (path_of y v u f) d).0 ≡ none
      → is_ok (y.read_file (path_of y v u f) (y.remove (path_of y v u f) d).1) ≡ false
  -- a file of another path keeps its contents, whether the call succeeds or not
  pub write_other :
      (u u' : Text) (f f' : VaultFile) (c : Text) (d : D)
      → valid_username u ≡ none
      → valid_username u' ≡ none
      → path_of y v u' f' ≢ path_of y v u f
      → y.read_file (path_of y v u' f') (y.write_file (path_of y v u f) c d).1
        ≡ y.read_file (path_of y v u' f') d
  pub remove_other :
      (u u' : Text) (f f' : VaultFile) (d : D)
      → valid_username u ≡ none
      → valid_username u' ≡ none
      → path_of y v u' f' ≢ path_of y v u f
      → y.read_file (path_of y v u' f') (y.remove (path_of y v u f) d).1
        ≡ y.read_file (path_of y v u' f') d
  pub mkdir_kept :
      (u u' : Text) (f f' : VaultFile) (d : D)
      → valid_username u ≡ none
      → valid_username u' ≡ none
      → y.read_file (path_of y v u' f') (y.mkdir_all (y.dir (path_of y v u f)) d).1
        ≡ y.read_file (path_of y v u' f') d
  pub generate_kept :
      (issuer account u' : Text) (f' : VaultFile) (d : D)
      → valid_username u' ≡ none
      → y.read_file (path_of y v u' f') (y.generate issuer account d).1
        ≡ y.read_file (path_of y v u' f') d
  -- `Join` cleans a path, which takes nothing away from an accepted name or from these two names
  pub join_apart :
      (u u' : Text) (f f' : VaultFile)
      → valid_username u ≡ none
      → valid_username u' ≡ none
      → path_of y v u f ≡ path_of y v u' f'
      → u ≡ u'
