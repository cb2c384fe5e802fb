-- ===== src/Tests/Otp.antt =====
-- The daemon on a disk that is a list.
use shell_sentry.Base.{ap, ◌+◌, length, List, some, true, false, [], ◌∷◌, none, ◌≡◌, ◌≢◌, refl}
use shell_sentry.Text.{Text, codes, text_eq}
use shell_sentry.Text.Bytes.{trim_bytes}
use shell_sentry.Username.{valid_username, user_file}
use shell_sentry.Result.{ok}
use shell_sentry.Otp.Vault.{
  System, secret_path, provisioning_uri, provision, discard, validate, write_secret,
}
use shell_sentry.Otp.Server.{Request, serve, dispatch}
use shell_sentry.Otp.Laws.{SystemLaws}
use shell_sentry.Otp.Client.{ask_confirmation, call, ensure_provisioned, read_line, confirmed}
use shell_sentry.Otp.Session.{IsSettled, ensure_provisioned-IsSettled}
use shell_sentry.Otp.Connection.{Untouched}
use shell_sentry.Otp.Daemon.{Conn, Listener, serve_all, serve_all-isolated}
use shell_sentry.Otp.Race.{Phase, interleave, both_look, provision_race}
use shell_sentry.Base.{ℕ}
use shell_sentry.Base.Int.{pos}
use shell_sentry.Decide.{sev_hard}
use shell_sentry.Ports.{new_session}
use shell_sentry.Repl.State.{Deps, State}
use shell_sentry.Setup.SecondFactor.{verifier}
use shell_sentry.Tests.Surroundings.{quiet, deps, typed}
use shell_sentry.Tests.Disk.{Disk, lookup, system, vault, laws}

abbrev alice : Text
alice = codes "alice"

abbrev bob : Text
bob = codes "bob"

-- alice's secret, not confirmed, and confirmed
abbrev pending : Disk
pending = (codes "/root/otp/alice/totp.secret", codes "S") ∷ []

abbrev pub enrolled : Disk
enrolled = (codes "/root/otp/alice/totp.enrolled", codes "1") ∷ pending

abbrev pub ask : Text → Text → Text → Request
ask op user code = record { op = op; user = user; code = code }

-- the user declines
ensure_provisioned-IsSettled_example : IsSettled system vault laws alice []
unfolding ensure_provisioned ask_confirmation call confirmed read_line serve dispatch provision
    write_secret discard valid_username user_file text_eq trim_bytes
ensure_provisioned-IsSettled_example =
    ensure_provisioned-IsSettled system vault laws alice (codes "no\n") [] [] refl refl

-- three connections, none of them from alice: one cannot be named, one asks for her, one for bob
abbrev listener : Listener Disk
listener = record {
  listen = λ p d. (none, d);
  chmod = λ p d. (none, d);
  look_up = λ uid. some bob;
  accepted = [];
  accept_error = codes "closed";
}

abbrev conns : List Conn
conns =
    record { uid = none; request = some (ask (codes "discard") alice []) }
    ∷ record { uid = some 1001; request = some (ask (codes "discard") alice []) }
    ∷ record { uid = some 1001; request = some (ask (codes "provision") bob []) }
    ∷ []

serve_all-isolated_example :
    Untouched system vault laws alice enrolled (serve_all system listener vault conns enrolled).1
unfolding valid_username text_eq
serve_all-isolated_example =
    serve_all-isolated system vault laws listener alice conns enrolled refl
      (λ n e q. cc, (λ n e q. cc, (λ n e q. cc, tt)))

-- every secret is another, and its URI is the secret itself
abbrev changing : System Disk
changing = record system {
  generate = λ issuer account d. (ok ((b'0' + length d) ∷ []), d);
  encode_query = λ pairs. elim pairs [ [] ↦ [] | p ∷ rest ↦ p.1 ];
  print_url = λ scheme host path query. query;
}

abbrev changing_laws : SystemLaws changing vault
changing_laws = record {
  write_stat = laws.write_stat;
  write_read = laws.write_read;
  write_other = laws.write_other;
  mkdir_kept = laws.mkdir_kept;
  remove_read = laws.remove_read;
  remove_other = laws.remove_other;
  generate_kept = λ issuer account u f d n. refl;
  join_apart = laws.join_apart;
}

abbrev first_secret : Disk
first_secret = (codes "/root/otp/alice/totp.secret", codes "0") ∷ []

abbrev second_secret : Disk
second_secret = (codes "/root/otp/alice/totp.secret", codes "1") ∷ first_secret

abbrev shown_uri : Text → Text
shown_uri secret = provisioning_uri changing (codes "shellsentry") alice secret

provision_race_example :
    (interleave changing vault alice (true ∷ true ∷ false ∷ false ∷ []) (both_look []) ≡ record {
      left = Phase.answered (ok (shown_uri (codes "0")));
      right = Phase.answered (ok (shown_uri (codes "0")));
      disk = first_secret;
    })
    × (interleave changing vault alice (true ∷ false ∷ true ∷ false ∷ []) (both_look []) ≡ record {
      left = Phase.answered (ok (shown_uri (codes "0")));
      right = Phase.answered (ok (shown_uri (codes "1")));
      disk = second_secret;
    })
    × (secret : Text) × (lookup (secret_path changing vault alice) second_secret ≡ ok secret)
    × (shown_uri (codes "0") ≢ shown_uri secret)
unfolding write_secret user_file text_eq valid_username
provision_race_example =
    provision_race changing vault changing_laws alice [] first_secret second_secret
      (shown_uri (codes "0")) (shown_uri (codes "1")) refl refl refl refl
      (λ e. let equal : true ≡ false = ap (text_eq (codes "0")) e in cc)

-- the command loop on that disk, with her right code as the answer to a challenge
abbrev together : Deps (Disk × ℕ) ℕ
together = record {
  ports = record quiet { validate = verifier system vault };
  rules = deps.rules;
  dicts = deps.dicts;
  soft_thr = 20;
  hard_thr = 10;
  gen = pos 1;
  otp_retries = pos 2;
  novelty_severity = sev_hard;
  host = codes "box";
  home_dir = codes "/home/alice";
}

abbrev asked : State (Disk × ℕ) ℕ
asked = record {
  world = (pending, 0);
  input = typed (codes "000000") ∷ typed (codes "123456\n") ∷ [];
  trace = [];
  session = new_session (pos 0);
  last_cmd_time = 0;
  authorized = [];
}
