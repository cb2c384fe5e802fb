-- ===== src/Rules/Precedence.antt =====
-- What `Rules.Check` decides, against the tokens of the entries and of the segments.
use shell_sentry.Base.{
  ℕ, Bool, true, false, ◌&&◌, ◌||◌, not, [], ◌∷◌, ◌++◌, ◌≡◌, ◌≢◌, ◌↔◌, ◌⊎◌, inl, inr, sym, ◌∙◌,
  arith, is_empty, if◌then◌else◌, any, any-append, All, Any, all,
}
use shell_sentry.Base.Iff.{
  false_iff, or_iff, and_iff, and_and_iff, nonempty_iff, all_iff, or_or_iff,
}
use shell_sentry.Base.Int.{ℤ, pos, ltb_ℤ}
use shell_sentry.Text.{Text}
use shell_sentry.Rules.{
  Rules, RuleOutcome, rule_none, rule_allow, rule_challenge_soft, rule_challenge_hard,
  token_prefix_match, has_shell_expansion, contains, split_segments, check, bypasses,
}
use shell_sentry.Rules.Segments.{is_operator, split_segments-chain}
use shell_sentry.Rules.Match.{TokenPrefix, contains_iff, any_match_iff, bypasses_iff}

-- some segment of the line, or the country, stands on the deny list
abbrev pub IsDenied : Rules → Text → Text → Type 0
IsDenied r line country =
    Any (λ seg. Any (TokenPrefix seg) r.commands.deny) (split_segments line)
    ⊎ Any (λ x. x ≡ country) r.countries.deny

-- the country is allowed, or every segment is, by its leading tokens and with no expansion in it
abbrev pub IsAllowed : Rules → Text → Text → Type 0
IsAllowed r line country =
    Any (λ x. x ≡ country) r.countries.allow
    ⊎ ((r.commands.allow ≢ [])
        × (split_segments line ≢ [])
        × All (λ seg. Any (TokenPrefix seg) r.commands.allow × (has_shell_expansion seg ≡ false))
            (split_segments line))

abbrev denied : Rules → Text → Text → Bool
denied r line country =
    any (token_prefix_match r.commands.deny) (split_segments line)
    || contains r.countries.deny country

abbrev allowed : Rules → Text → Text → Bool
allowed r line country =
    contains r.countries.allow country
    || (not (is_empty r.commands.allow)
        && not (is_empty (split_segments line))
        && all (bypasses r.commands.allow) (split_segments line))

abbrev too_fast : Rules → ℤ → Bool
too_fast r secs = ltb_ℤ (pos 0) r.min_seconds_between && ltb_ℤ secs r.min_seconds_between

-- the order of the tests
abbrev verdict : Bool → Bool → Bool → RuleOutcome
verdict deny allow fast =
    if deny
    then rule_challenge_hard
    else if allow
    then rule_allow
    else if fast
    then rule_challenge_soft
    else rule_none

check-verdict :
    (r : Rules) (line country : Text) (secs : ℤ)
    → check r line country secs
      ≡ verdict (denied r line country) (allowed r line country) (too_fast r secs)
unfolding check
check-verdict r line country secs = ground arith

verdict-hard : (d a f : Bool) → (verdict d a f ≡ rule_challenge_hard) ↔ (d ≡ true)
verdict-hard d a f = (λ h. ground arith, λ h. ground arith)

verdict-allow : (d a f : Bool) → (verdict d a f ≡ rule_allow) ↔ ((d ≡ false) × (a ≡ true))
verdict-allow d a f = (λ h. ground arith, λ h. ground arith)

verdict-soft :
    (d a f : Bool)
    → (verdict d a f ≡ rule_challenge_soft) ↔ ((d ≡ false) × (a ≡ false) × (f ≡ true))
verdict-soft d a f = (λ h. ground arith, λ h. ground arith)

denied_iff :
    (r : Rules) (line country : Text) → (denied r line country ≡ true) ↔ IsDenied r line country
denied_iff r line country =
    or_iff (any (token_prefix_match r.commands.deny) (split_segments line))
      (any_match_iff r.commands.deny (split_segments line)) (contains_iff r.countries.deny country)

allowed_iff :
    (r : Rules) (line country : Text) → (allowed r line country ≡ true) ↔ IsAllowed r line country
allowed_iff r line country =
    or_iff (contains r.countries.allow country) (contains_iff r.countries.allow country) (
      and_and_iff (not (is_empty r.commands.allow)) (not (is_empty (split_segments line)))
        (nonempty_iff r.commands.allow) (nonempty_iff (split_segments line))
        (all_iff (bypasses r.commands.allow)
          (λ seg. Any (TokenPrefix seg) r.commands.allow × (has_shell_expansion seg ≡ false))
          (bypasses_iff r.commands.allow) (split_segments line)))

-- `Check` answers the hard challenge if and only if a segment is denied by its leading tokens or
-- the country is denied, whatever the allow lists and the time since the last command are.
pub check-hard_iff :
    (r : Rules) (line country : Text) (secs : ℤ)
    → (check r line country secs ≡ rule_challenge_hard) ↔ IsDenied r line country
check-hard_iff r line country secs =
    let v = verdict-hard (denied r line country) (allowed r line country) (too_fast r secs) in
    let d = denied_iff r line country in rw check-verdict (λ h. d.0 (v.0 h), λ h. v.1 (d.1 h))

-- `Check` lets a line bypass the model if and only if it is not denied and either its country is
-- allowed, or there are allowed commands and segments, and the leading tokens of every segment are
-- allowed and no segment holds a shell expansion.
pub check-allow_iff :
    (r : Rules) (line country : Text) (secs : ℤ)
    → (check r line country secs ≡ rule_allow)
      ↔ ((¬ IsDenied r line country) × IsAllowed r line country)
check-allow_iff r line country secs =
    let v = verdict-allow (denied r line country) (allowed r line country) (too_fast r secs) in
    let d = false_iff (denied r line country) (denied_iff r line country) in
    let a = allowed_iff r line country in
    rw check-verdict (λ h. (d.0 (v.0 h).0, a.0 (v.0 h).1), λ h. v.1 (d.1 h.0, a.1 h.1))

-- `Check` answers the soft challenge if and only if the line is neither denied nor allowed, a
-- positive minimum is set, and fewer seconds than that have passed.
pub check-soft_iff :
    (r : Rules) (line country : Text) (secs : ℤ)
    → (check r line country secs ≡ rule_challenge_soft) ↔ (
        (¬ IsDenied r line country)
        × (¬ IsAllowed r line country)
        × (ltb_ℤ (pos 0) r.min_seconds_between ≡ true)
        × (ltb_ℤ secs r.min_seconds_between ≡ true))
check-soft_iff r line country secs =
    let v = verdict-soft (denied r line country) (allowed r line country) (too_fast r secs) in
    let d = false_iff (denied r line country) (denied_iff r line country) in
    let a = false_iff (allowed r line country) (allowed_iff r line country) in
    let f = and_iff (ltb_ℤ (pos 0) r.min_seconds_between) (λ e. e, λ e. e) (λ e. e, λ e. e) in
    rw check-verdict (
      λ h. let (x, y, z) = v.0 h in (d.0 x, a.0 y, (f.0 z).0, (f.0 z).1),
      λ h. v.1 (d.1 h.0, a.1 h.1, f.1 (h.2, h.3)),
    )

-- `Check` answers the hard challenge if and only if a segment is denied by its leading tokens or
-- the country is denied, whatever else holds. It lets a line bypass the model if and only if it is not
-- denied and either its country is allowed, or there are allowed commands and segments, and the
-- leading tokens of every segment are allowed and no segment holds a shell expansion. It answers the
-- soft challenge if and only if the line is neither denied nor allowed, a positive minimum is set, and
-- fewer seconds than that have passed.
pub check_lem :
    (r : Rules) (line country : Text) (secs : ℤ)
    → ((check r line country secs ≡ rule_challenge_hard) ↔ IsDenied r line country)
      × ((check r line country secs ≡ rule_allow)
          ↔ ((¬ IsDenied r line country) × IsAllowed r line country))
      × ((check r line country secs ≡ rule_challenge_soft) ↔ (
          (¬ IsDenied r line country)
          × (¬ IsAllowed r line country)
          × (ltb_ℤ (pos 0) r.min_seconds_between ≡ true)
          × (ltb_ℤ secs r.min_seconds_between ≡ true)))
check_lem r line country secs = (
  check-hard_iff r line country secs,
  check-allow_iff r line country secs,
  check-soft_iff r line country secs,
)

check-hard :
    (r : Rules) (line country : Text) (secs : ℤ)
    → (check r line country secs ≡ rule_challenge_hard) ↔ (denied r line country ≡ true)
check-hard r line country secs =
    rw check-verdict
      (verdict-hard (denied r line country) (allowed r line country) (too_fast r secs))

denied-chain :
    (r : Rules) (a b country : Text) (op : ℕ)
    → is_operator op ≡ true
    → denied r (a ++ op ∷ b) country ≡ (
        (any (token_prefix_match r.commands.deny) (split_segments a)
          || any (token_prefix_match r.commands.deny) (split_segments b))
        || contains r.countries.deny country)
denied-chain r a b country op h = rw (split_segments-chain a b op h, any-append)

-- A command chained by an operator character is denied if and only if one of its two sides is.
pub check-chain :
    (r : Rules) (a b country : Text) (op : ℕ) (secs : ℤ)
    → is_operator op ≡ true
    → (check r (a ++ op ∷ b) country secs ≡ rule_challenge_hard) ↔ (
        (check r a country secs ≡ rule_challenge_hard)
        ⊎ (check r b country secs ≡ rule_challenge_hard))
check-chain r a b country op secs h =
    let v = λ (line : Text). check-hard r line country secs in
    let d = any (token_prefix_match r.commands.deny) in
    let split =
      or_or_iff (d (split_segments a)) (d (split_segments b)) (contains r.countries.deny country) in
    let e = denied-chain r a b country op h in
    (
      λ p. elim (split.0 (sym e ∙ (v (a ++ op ∷ b)).0 p)) [
        | inl x ↦ inl ((v a).1 x)
        | inr y ↦ inr ((v b).1 y)
      ],
      λ p.
          (v (a ++ op ∷ b)).1
            (e ∙ split.1 (elim p [ inl x ↦ inl ((v a).0 x) | inr y ↦ inr ((v b).0 y) ])),
    )
