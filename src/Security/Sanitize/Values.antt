-- ===== src/Security/Sanitize/Values.antt =====
-- internal/security/sanitize.go: `SanitizeValue` and `SanitizeSingleLine` against forged records.
use i_pulse.Base.{
  ℕ, zero, suc, ◌+◌, ◌-◌, ◌*◌, ◌/◌, ◌≤◌, ◌<◌, ◌⊎◌, ◌≡◌, ◌≢◌, refl, ap, Bool, true, false, List, [],
  ◌∷◌, arith, length, length-append, All, All-append, Bool-cases, inl, inr, ltb, leb, if◌then◌else◌,
  take,
}
use i_pulse.Security.Sanitize.{
  hex, pad_rounds, zero_pad, zero_pad4, escape, sanitize_runes, sanitize_value, max_log_value_len,
}

-- No control character: a graphic character of ASCII, or a printable one beyond it.
abbrev pub IsClean : (ℕ → Bool) → ℕ → Type 0
IsClean is_print c = (32 ≤ c) × ((c < 127) ⊎ ((127 < c) × (is_print c ≡ true)))

-- A graphic character of ASCII.
abbrev IsGraphic : ℕ → Type 0
IsGraphic c = (32 ≤ c) × (c < 127)

hex-IsGraphic : (f n : ℕ) → All IsGraphic (hex f n)
unfolding hex
hex-IsGraphic zero n = tt
hex-IsGraphic (suc f) n = elim (Bool-cases (ltb n 16)) [
  | inl small ↦ rw small (ground arith)
  | inr large ↦
      rw large (All-append IsGraphic (hex f (n / 16)) _ (hex-IsGraphic f (n / 16)) (ground arith))
]

length-hex : (f n : ℕ) → length (hex f n) ≤ f
unfolding hex
length-hex zero n = omega arith
length-hex (suc f) n = elim (Bool-cases (ltb n 16)) [
  | inl small ↦ rw small (omega arith)
  | inr large ↦ rw large (omega (arith, length-append {0} (hex f (n / 16)), length-hex f (n / 16)))
]

pad_rounds-IsGraphic : (k : ℕ) (s : List ℕ) → All IsGraphic s → All IsGraphic (pad_rounds k s)
unfolding pad_rounds
pad_rounds-IsGraphic zero s h = h
pad_rounds-IsGraphic (suc k) s h = pad_rounds-IsGraphic k (b'0' ∷ s) (omega arith, h)

length-pad_rounds : (k : ℕ) (s : List ℕ) → length (pad_rounds k s) ≡ k + length s
unfolding pad_rounds
length-pad_rounds zero s = omega arith
length-pad_rounds (suc k) s = omega (arith, length-pad_rounds k (b'0' ∷ s))

zero_pad-IsGraphic : (s : List ℕ) → All IsGraphic s → All IsGraphic (zero_pad s)
unfolding zero_pad
zero_pad-IsGraphic s h = ground arith

one_digit : (f n : ℕ) → n < 16 → length (hex (suc f) n) ≡ 1
unfolding hex
one_digit f n h = ground arith

two_digits : (f n : ℕ) → n < 256 → length (hex (suc (suc f)) n) ≤ 2
unfolding hex
two_digits f n h = elim (Bool-cases (ltb n 16)) [
  | inl small ↦ rw small (omega arith)
  | inr large ↦
      rw large (
        omega (arith, length-append {0} (hex (suc f) (n / 16)), one_digit f (n / 16) (omega arith)))
]

length-zero_pad : (s : List ℕ) → length s ≤ 2 → length (zero_pad s) ≤ 2
unfolding zero_pad
length-zero_pad s h = ground arith

-- The digits that follow `\x`.
byte_digits :
    (r : ℕ) → All IsGraphic (zero_pad (hex 6 r)) × (r < 256 → length (zero_pad (hex 6 r)) ≤ 2)
byte_digits r = (
  zero_pad-IsGraphic (hex 6 r) (hex-IsGraphic 6 r),
  λ h. length-zero_pad (hex 6 r) (two_digits 4 r h),
)

-- The digits that follow `\u`.
rune_digits : (r : ℕ) → All IsGraphic (zero_pad4 (hex 6 r)) × (length (zero_pad4 (hex 6 r)) ≤ 6)
unfolding zero_pad4
rune_digits r = (
  pad_rounds-IsGraphic (4 - length (hex 6 r)) (hex 6 r) (hex-IsGraphic 6 r),
  omega (arith, length-pad_rounds (4 - length (hex 6 r)) (hex 6 r), length-hex 6 r),
)

module _ (is_print : ℕ → Bool) where
  graphic-IsClean : (s : List ℕ) → All IsGraphic s → All (IsClean is_print) s
  graphic-IsClean [] h = tt
  graphic-IsClean (c ∷ s) h = ((h.0.0, inl h.0.1), graphic-IsClean s h.1)

  escape-IsClean : (r : ℕ) → All (IsClean is_print) (escape is_print r).0
  unfolding escape
  escape-IsClean r = ground (
    arith,
    graphic-IsClean (zero_pad (hex 6 r)) (byte_digits r).0,
    graphic-IsClean (zero_pad4 (hex 6 r)) (rune_digits r).0,
  )

  -- Three code points for each four that are counted, at most.
  length-escape : (r : ℕ) → 3 * length (escape is_print r).0 ≤ 4 * (escape is_print r).1
  unfolding escape
  length-escape r = ground (arith, byte_digits r, rune_digits r)

  sanitize_runes-IsClean :
      (written : ℕ) (rs : List ℕ) → All (IsClean is_print) (sanitize_runes is_print written rs)
  unfolding sanitize_runes
  sanitize_runes-IsClean written [] = tt
  sanitize_runes-IsClean written (r ∷ rs) = elim (Bool-cases (leb max_log_value_len written)) [
    | inl full ↦ rw full (omega arith)
    | inr room ↦ rw room (
        All-append (IsClean is_print) (escape is_print r).0 _ (escape-IsClean r)
          (sanitize_runes-IsClean (written + (escape is_print r).1) rs))
  ]

  cost-escape : (r : ℕ) → (escape is_print r).1 ≤ 6
  unfolding escape
  cost-escape r = ground arith

  length-sanitize_runes :
      (written : ℕ) (rs : List ℕ)
      → written ≤ 517
      → 3 * length (sanitize_runes is_print written rs) + 4 * written ≤ 2110
  unfolding sanitize_runes
  length-sanitize_runes written [] h = omega arith
  length-sanitize_runes written (r ∷ rs) h = elim (Bool-cases (leb max_log_value_len written)) [
    | inl full ↦ rw full (omega arith)
    | inr room ↦
        let few : written < 512 = ground arith in
        let cost = cost-escape r in
        let part = length-escape r in
        let rest = length-sanitize_runes (written + (escape is_print r).1) rs (omega arith) in
        rw room (omega (arith, length-append {0} (escape is_print r).0))
  ]

  -- Written as it is: printable, and none of the code points with an escape of their own.
  abbrev pub IsPlain : ℕ → Type 0
  IsPlain r = (is_print r ≡ true) × (32 ≤ r) × (r ≢ 127) × (r ≢ b'"') × (r ≢ 92) × (r ≢ 0xfffd)

  escape_plain : (r : ℕ) → IsPlain r → escape is_print r ≡ (r ∷ [], 1)
  unfolding escape
  escape_plain r h = ground arith

  sanitize_runes_plain :
      (written : ℕ) (rs : List ℕ)
      → All IsPlain rs
      → written + length rs ≤ 512
      → sanitize_runes is_print written rs ≡ rs
  unfolding sanitize_runes
  sanitize_runes_plain written [] h le = refl
  sanitize_runes_plain written (r ∷ rs) h le =
      let room : leb max_log_value_len written ≡ false = ground arith in
      rw (room, escape_plain r h.0)
        (ap (λ l. r ∷ l) (sanitize_runes_plain (written + 1) rs h.1 (omega arith)))

-- No value can forge a log record: whatever the bytes, whatever counts as printable, every code point
-- that is logged for a value is a graphic character of ASCII or the space, or lies beyond ASCII and
-- counts as printable; so there is no control character among them, and there are at most 703.
pub sanitize_value_safe :
    (is_print : ℕ → Bool) (decode : List ℕ → List ℕ) (bytes : List ℕ)
    → All (IsClean is_print) (sanitize_value is_print decode bytes)
      × (length (sanitize_value is_print decode bytes) ≤ 703)
unfolding sanitize_value
sanitize_value_safe is_print decode [] = (tt, omega arith)
sanitize_value_safe is_print decode (b ∷ bs) =
    let runes = decode (
      if ltb (max_log_value_len * 4) (length (b ∷ bs))
      then take (max_log_value_len * 4) (b ∷ bs)
      else b ∷ bs) in
    (
      sanitize_runes-IsClean is_print 0 runes,
      omega (arith, length-sanitize_runes is_print 0 runes (omega arith)),
    )

-- An ordinary value is logged as it is: if it is not longer than 2048 bytes and decodes into at most
-- 512 printable code points, none of which is a control character, a quote, a backslash or
-- U+FFFD, it is left unchanged.
pub sanitize_value_plain :
    (is_print : ℕ → Bool) (decode : List ℕ → List ℕ) (b : ℕ) (bs : List ℕ)
    → length (b ∷ bs) ≤ 2048
    → All (IsPlain is_print) (decode (b ∷ bs))
    → length (decode (b ∷ bs)) ≤ 512
    → sanitize_value is_print decode (b ∷ bs) ≡ decode (b ∷ bs)
unfolding sanitize_value
sanitize_value_plain is_print decode b bs h plain le =
    let short : ltb 2048 (suc (length bs)) ≡ false = ground arith in
    rw short (sanitize_runes_plain is_print 0 (decode (b ∷ bs)) plain (omega arith))
