-- ===== src/Shell/Sealed.antt =====
-- The injected text against the test that lets a line through.
use shell_sentry.Base.{ℕ, true, [], ◌∷◌, ◌++◌, append_assoc, ◌≡◌, ◌≢◌, refl, ap, ◌∙◌, arith, All}
use shell_sentry.Text.{Text, codes}
use shell_sentry.Complete.{line_complete}
use shell_sentry.Complete.Append.{line_complete-append, line_complete-quoted}
use shell_sentry.Base.Keep.{All-append}
use shell_sentry.Shell.Free.{Free, decimal-Free}
use shell_sentry.Shell.Marker.{decimal, inject_of}

-- what stands between the quotes of the injected text
abbrev format : Text → ℕ → Text
format nonce id = codes "\\036" ++ nonce ++ decimal id ++ codes "\\036" ++ codes "%d\\036\\n"

format-Free : (nonce : Text) (id : ℕ) → Free b'\'' nonce → Free b'\'' (format nonce id)
format-Free nonce id k =
    All-append (λ c. c ≢ b'\'') (codes "\\036" ++ nonce ++ decimal id ++ codes "\\036") _
      (All-append (λ c. c ≢ b'\'') (codes "\\036" ++ nonce ++ decimal id) _
        (All-append (λ c. c ≢ b'\'') (codes "\\036" ++ nonce) _
          (All-append (λ c. c ≢ b'\'') (codes "\\036") nonce (omega arith) k)
          (decimal-Free b'\'' (omega arith) id))
        (omega arith))
      (omega arith)

inject_of-format :
    (line nonce : Text) (id : ℕ)
    → inject_of line nonce id
      ≡ line ++ (codes "; printf " ++ (b'\'' ∷ format nonce id ++ b'\'' ∷ codes " $?\n"))
unfolding inject_of
inject_of-format line nonce id = simp append_assoc

-- For a complete line and a nonce without a single quote, the injected text is complete.
pub inject_of_complete :
    (line nonce : Text) (id : ℕ)
    → (line_complete line).0 ≡ true
    → All (λ c. c ≢ b'\'') nonce
    → line_complete (inject_of line nonce id) ≡ (true, [])
inject_of_complete line nonce id h k =
    let quoted = b'\'' ∷ format nonce id ++ b'\'' ∷ codes " $?\n" in
    ap line_complete (inject_of-format line nonce id)
    ∙ line_complete-append line (codes "; printf " ++ quoted) h
    ∙ line_complete-append (codes "; printf ") quoted (unfold line_complete in refl)
    ∙ line_complete-quoted (format nonce id) (codes " $?\n") (format-Free nonce id k)
    ∙ (unfold line_complete in refl)
