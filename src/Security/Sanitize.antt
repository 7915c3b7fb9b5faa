-- ===== src/Security/Sanitize.antt =====
-- internal/security/sanitize.go. Text is a list of code points, as Go's `range` hands them out;
-- `decode` turns the bytes of a string into them, with U+FFFD for invalid UTF-8, and `is_print` is
-- `unicode.IsPrint`. Both are the standard library's tables and stay parameters.
pub mod Values
pub mod Keys
use Prim.Native.Char.{code}
use i_pulse.Base.{
  ℕ, zero, suc, ◌+◌, ◌-◌, ◌*◌, ◌/◌, ◌%◌, Bool, true, false, not, ◌&&◌, ◌||◌, List, [], ◌∷◌, ◌++◌,
  String, ltb, leb, ◌==◌, if◌then◌else◌, length, take,
}

abbrev pub codes : String → List ℕ
codes String.[] = []
codes (String.◌∷◌ c s) = code c ∷ codes s

abbrev pub max_log_value_len : ℕ
max_log_value_len = 512

abbrev hex_digit : ℕ → ℕ
hex_digit d = if ltb d 10 then d + 48 else d + 87

-- `strconv.FormatInt(int64(r), 16)`: six digits hold every code point.
hex : ℕ → ℕ → List ℕ
hex zero n = []
hex (suc f) n = if ltb n 16 then hex_digit n ∷ [] else hex f (n / 16) ++ hex_digit (n % 16) ∷ []

pad_rounds : ℕ → List ℕ → List ℕ
pad_rounds zero s = s
pad_rounds (suc n) s = pad_rounds n (b'0' ∷ s)

-- `zeroPad`
zero_pad : List ℕ → List ℕ
zero_pad s = if ltb (length s) 2 then b'0' ∷ s else s

-- `zeroPad4`: one round for each digit that is missing.
zero_pad4 : List ℕ → List ℕ
unfolding pad_rounds
zero_pad4 s = pad_rounds (4 - length s) s

module _ (is_print : ℕ → Bool) where
  -- What one code point writes, and what it counts for.
  escape : ℕ → List ℕ × ℕ
  escape r =
      if r == 0xfffd
      then (codes "\\ufffd", 6)
      else if r == 10
      then (codes "\\n", 2)
      else if r == 13
      then (codes "\\r", 2)
      else if r == 9
      then (codes "\\t", 2)
      else if r == b'"'
      then (codes "\\\"", 2)
      else if r == 92
      then (codes "\\\\", 2)
      else if r == 32 || r == b'='
      then (r ∷ [], 1)
      else if ltb r 32 || r == 127
      then (codes "\\x" ++ zero_pad (hex 6 r), 4)
      else if not (is_print r)
      then (codes "\\u" ++ zero_pad4 (hex 6 r), 6)
      else (r ∷ [], 1)

  sanitize_runes : ℕ → List ℕ → List ℕ
  sanitize_runes written [] = []
  sanitize_runes written (r ∷ rs) =
      let rest = sanitize_runes (written + (escape r).1) rs in
      if leb max_log_value_len written then codes "...[truncated]" else (escape r).0 ++ rest

  -- `SanitizeValue`, on the bytes of the value.
  unfoldable pub sanitize_value : (List ℕ → List ℕ) → List ℕ → List ℕ
  unfolding sanitize_runes escape hex zero_pad zero_pad4
  sanitize_value decode [] = []
  sanitize_value decode (b ∷ bs) =
      let s = b ∷ bs in
      sanitize_runes 0 (
        decode
          (if ltb (max_log_value_len * 4) (length s) then take (max_log_value_len * 4) s else s))

abbrev pub is_letter : ℕ → Bool
is_letter r = (leb b'a' r && leb r b'z') || (leb b'A' r && leb r b'Z') || r == b'_'

abbrev pub is_digit : ℕ → Bool
is_digit r = leb b'0' r && leb r b'9'

-- The loop of `SanitizeKey`; `first` is `i == 0`.
key_runes : Bool → List ℕ → List ℕ
key_runes first [] = []
key_runes first (r ∷ rs) =
    (if is_letter r then r else if is_digit r && not first then r else b'_') ∷ key_runes false rs

or_field : List ℕ → List ℕ
or_field [] = codes "Field"
or_field (r ∷ rs) = r ∷ rs

-- `SanitizeKey`, on the code points of the key.
unfoldable pub sanitize_key : List ℕ → List ℕ
unfolding key_runes or_field
sanitize_key rs = or_field (key_runes true rs)

-- `NeedsQuoting`, on the code points of the value.
unfoldable pub needs_quoting : List ℕ → Bool
needs_quoting [] = false
needs_quoting (r ∷ rs) =
    let rest = needs_quoting rs in if r == 32 || r == b'=' || r == b'"' then true else rest

-- The loop of `SanitizeSingleLine`.
line_runes : ℕ → List ℕ → List ℕ
line_runes n [] = []
line_runes n (r ∷ rs) =
    let rest = line_runes (n + 1) rs in
    if leb max_log_value_len n
    then codes "..."
    else if r == 10 || r == 13 || r == 9
    then 32 ∷ rest
    else if ltb r 32 || r == 127 || r == 0xfffd
    then b'?' ∷ rest
    else r ∷ rest

-- `SanitizeSingleLine`; `trim` is `strings.TrimSpace`.
unfoldable pub sanitize_single_line : (List ℕ → List ℕ) → List ℕ → List ℕ
unfolding line_runes
sanitize_single_line trim rs = trim (line_runes 0 rs)
