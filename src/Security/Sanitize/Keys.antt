-- ===== src/Security/Sanitize/Keys.antt =====
-- internal/security/sanitize.go: `SanitizeKey`.
use i_pulse.Base.{ℕ, ◌≡◌, refl, true, false, List, [], ◌∷◌, ◌&&◌, ◌||◌, arith, All, if◌then◌else◌}
use i_pulse.Security.Sanitize.{is_letter, is_digit, key_runes, sanitize_key}

abbrev pub IsKeyRune : ℕ → Type 0
IsKeyRune r = (is_letter r || is_digit r) ≡ true

-- Letters, digits and underscores, at least one of them, the first no digit.
abbrev pub IsIdentifier : List ℕ → Type 0
IsIdentifier [] = ⊥
IsIdentifier (r ∷ rs) = (is_letter r ≡ true) × All IsKeyRune rs

key_rune : (r : ℕ) → IsKeyRune (if is_letter r then r else if is_digit r && true then r else b'_')
key_rune r = ground arith

key_runes-IsKeyRune : (rs : List ℕ) → All IsKeyRune (key_runes false rs)
unfolding key_runes
key_runes-IsKeyRune [] = tt
key_runes-IsKeyRune (r ∷ rs) = (key_rune r, key_runes-IsKeyRune rs)

key_runes_same : (rs : List ℕ) → All IsKeyRune rs → key_runes false rs ≡ rs
unfolding key_runes
key_runes_same [] h = refl
key_runes_same (r ∷ rs) h = ground (arith, key_runes_same rs h.1)

sanitize_key-IsIdentifier : (rs : List ℕ) → IsIdentifier (sanitize_key rs)
unfolding sanitize_key
sanitize_key-IsIdentifier [] = ground arith
sanitize_key-IsIdentifier (r ∷ rs) = ground (arith, key_runes-IsKeyRune rs)

sanitize_key_same : (rs : List ℕ) → IsIdentifier rs → sanitize_key rs ≡ rs
unfolding sanitize_key
sanitize_key_same [] h = absurd h
sanitize_key_same (r ∷ rs) h = ground (arith, key_runes_same rs h.1)

-- Every sanitised key is an identifier, a key that is one already is kept as it is, and so
-- sanitising twice is sanitising once.
pub sanitize_key_normal :
    (rs : List ℕ)
    → IsIdentifier (sanitize_key rs)
      × (IsIdentifier rs → sanitize_key rs ≡ rs)
      × (sanitize_key (sanitize_key rs) ≡ sanitize_key rs)
sanitize_key_normal rs = (
  sanitize_key-IsIdentifier rs,
  sanitize_key_same rs,
  sanitize_key_same (sanitize_key rs) (sanitize_key-IsIdentifier rs),
)
