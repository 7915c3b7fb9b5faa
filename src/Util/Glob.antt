-- ===== src/Util/Glob.antt =====
-- internal/util/addr.go: the glob patterns of the configuration. A string is its list of bytes; upper and
-- lower case are Unicode's, a parameter.
pub mod Parts
pub mod Occurrences
pub mod Greedy
use i_pulse.Base.{
  ℕ, ◌-◌, Bool, true, false, not, ◌&&◌, ◌||◌, List, [], ◌∷◌, Option, none, some, leb, ◌==◌,
  if◌then◌else◌, length, drop,
}

abbrev pub star : ℕ
star = b'*'

-- Equality of strings.
unfoldable pub same : List ℕ → List ℕ → Bool
same [] [] = true
same [] (b ∷ bs) = false
same (a ∷ xs) [] = false
same (a ∷ xs) (b ∷ ys) = a == b && same xs ys

abbrev pub prepend : ℕ → List (List ℕ) → List (List ℕ)
prepend c [] = (c ∷ []) ∷ []
prepend c (p ∷ ps) = (c ∷ p) ∷ ps

-- `strings.Split(pattern, "*")`
unfoldable pub split : List ℕ → List (List ℕ)
split [] = [] ∷ []
split (c ∷ cs) = let rest = split cs in if c == star then [] ∷ rest else prepend c rest

-- `strings.HasPrefix`, with the string after the prefix.
unfoldable pub strip : List ℕ → List ℕ → Option (List ℕ)
strip [] s = some s
strip (c ∷ p) [] = none
strip (c ∷ p) (d ∷ s) = if c == d then strip p s else none

-- `strings.Index`, with the string after the first occurrence.
unfoldable pub after_first : List ℕ → List ℕ → Option (List ℕ)
after_first p [] = strip p []
after_first p (d ∷ s) =
    let later = after_first p s in elim (strip p (d ∷ s)) [ some rest ↦ some rest | none ↦ later ]

-- `strings.HasSuffix`
unfoldable pub has_suffix : List ℕ → List ℕ → Bool
has_suffix s p = leb (length p) (length s) && same (drop (length s - length p) s) p

-- The loop over the parts after the first, of which the last is anchored.
unfoldable pub match_rest : List (List ℕ) → List ℕ → Bool
match_rest [] s = true
match_rest (p ∷ []) s = has_suffix s p || same p []
match_rest (p ∷ q ∷ ps) s = elim (if same p [] then some s else after_first p s) [
  | none ↦ false
  | some rest ↦ match_rest (q ∷ ps) rest
]

abbrev pub match_parts : List (List ℕ) → List ℕ → Bool
match_parts [] s = false
match_parts (p ∷ ps) s = elim (strip p s) [ none ↦ false | some rest ↦ match_rest ps rest ]

-- `MatchGlob`, of strings in lower case.
unfoldable pub match_lower : List ℕ → List ℕ → Bool
match_lower pattern s =
    if same pattern []
    then same s []
    else if same pattern (star ∷ [])
    then true
    else if length (split pattern) == 1
    then same pattern s
    else match_parts (split pattern) s

-- `MatchGlob`
unfoldable pub match_glob : (List ℕ → List ℕ) → List ℕ → List ℕ → Bool
match_glob lower pattern s = match_lower (lower pattern) (lower s)

-- `MatchesAnyGlob`
unfoldable pub matches_any_glob : (List ℕ → List ℕ) → List (List ℕ) → List ℕ → Bool
matches_any_glob lower [] s = false
matches_any_glob lower (p ∷ ps) s =
    let rest = matches_any_glob lower ps s in if match_glob lower p s then true else rest
