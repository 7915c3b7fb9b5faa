-- ===== src/Security/Examples.antt =====
-- The sanitiser at concrete inputs; every code point counts as printable, and a byte is its code point.
use i_pulse.Base.{inl, inr, ◌≡◌, ℕ, ◌≤◌, ◌<◌, ◌⊎◌, refl, Bool, true, List, [], ◌∷◌, arith, All}
use i_pulse.Security.Sanitize.{sanitize_value, sanitize_key}
use i_pulse.Security.Sanitize.Values.{IsClean, IsPlain, sanitize_value_safe, sanitize_value_plain}
use i_pulse.Security.Sanitize.Keys.{IsIdentifier, sanitize_key_normal}

abbrev all_print : ℕ → Bool
all_print r = true

abbrev ascii : List ℕ → List ℕ
ascii bytes = bytes

-- A host name that tries to start a record of its own.
abbrev forged : List ℕ
forged = b'h' ∷ 10 ∷ b'E' ∷ []

sanitize_value_safe_example : All (IsClean all_print) (sanitize_value all_print ascii forged)
sanitize_value_safe_example = (sanitize_value_safe all_print ascii forged).0

letter-IsPlain : (r : ℕ) → 64 ≤ r → (r < 92) ⊎ ((96 ≤ r) × (r < 127)) → IsPlain all_print r
letter-IsPlain r low high =
    (refl, omega arith, λ e. ground arith, λ e. ground arith, λ e. ground arith, λ e. ground arith)

sanitize_value_plain_example : sanitize_value all_print ascii (b'h' ∷ b'E' ∷ []) ≡ b'h' ∷ b'E' ∷ []
sanitize_value_plain_example =
    sanitize_value_plain all_print ascii b'h' (b'E' ∷ []) (omega arith)
      (
        letter-IsPlain b'h' (omega arith) (inr (omega arith, omega arith)),
        (letter-IsPlain b'E' (omega arith) (inl (omega arith)), tt),
      )
      (omega arith)

sanitize_key_normal_example : IsIdentifier (sanitize_key (b'9' ∷ b'-' ∷ b'a' ∷ []))
sanitize_key_normal_example = (sanitize_key_normal (b'9' ∷ b'-' ∷ b'a' ∷ [])).0
