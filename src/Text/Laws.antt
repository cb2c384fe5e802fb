-- ===== src/Text/Laws.antt =====
-- What the string functions compute, for the modules that use them shut.
use shell_sentry.Base.{ℕ, Bool, true, false, [], ◌∷◌, ◌++◌, ◌≡◌, ◌↔◌, refl, ◌∙◌, arith, keep}
use shell_sentry.Text.{Text, text_eq, has_prefix, drop_while, drop_while_end, trim_space, is_space}

pub text_eq_refl : (s : Text) → text_eq s s ≡ true
unfolding text_eq
text_eq_refl [] = refl
text_eq_refl (c ∷ s) = ground (arith, text_eq_refl s)

pub text_eq_sound : (s t : Text) → text_eq s t ≡ true → s ≡ t
unfolding text_eq
text_eq_sound [] [] h = refl
text_eq_sound [] (d ∷ t) h = cc
text_eq_sound (c ∷ s) [] h = cc
text_eq_sound (c ∷ s) (d ∷ t) h = ground (arith, text_eq_sound s t)

pub text_eq_iff : (s t : Text) → (text_eq s t ≡ true) ↔ (s ≡ t)
text_eq_iff s t = (text_eq_sound s t, λ e. rw e (text_eq_refl t))

pub has_prefix_append : (p rest : Text) → has_prefix (p ++ rest) p ≡ true
unfolding has_prefix
has_prefix_append [] rest = refl
has_prefix_append (c ∷ p) rest = ground (arith, has_prefix_append p rest)

-- a filter that drops what the trim drops sees no difference
keep-drop_while :
    (p q : ℕ → Bool) (s : Text)
    → ((c : ℕ) → p c ≡ true → q c ≡ false)
    → keep q (drop_while p s) ≡ keep q s
unfolding drop_while
keep-drop_while p q [] h = refl
keep-drop_while p q (c ∷ s) h = ground (arith, h c, keep-drop_while p q s h)

keep-drop_while_end :
    (p q : ℕ → Bool) (s : Text)
    → ((c : ℕ) → p c ≡ true → q c ≡ false)
    → keep q (drop_while_end p s) ≡ keep q s
unfolding drop_while_end
keep-drop_while_end p q [] h = refl
keep-drop_while_end p q (c ∷ s) h = ground (arith, h c, keep-drop_while_end p q s h)

pub keep-trim_space :
    (q : ℕ → Bool) (s : Text)
    → ((c : ℕ) → is_space c ≡ true → q c ≡ false)
    → keep q (trim_space s) ≡ keep q s
unfolding trim_space
keep-trim_space q s h =
    keep-drop_while_end is_space q (drop_while is_space s) h ∙ keep-drop_while is_space q s h
