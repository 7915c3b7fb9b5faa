-- ===== src/Util/Examples.antt =====
-- Glob patterns of the configuration, in lower case.
use i_pulse.Base.{ℕ, ◌≡◌, ◌↔◌, true, List, [], ◌∷◌}
use i_pulse.Util.Glob.{match_glob, star}
use i_pulse.Util.Glob.Parts.{Glob}
use i_pulse.Util.Glob.Greedy.{match_glob-Glob}

abbrev veth : List ℕ
veth = b'v' ∷ star ∷ b'0' ∷ []

abbrev veth10 : List ℕ
veth10 = b'v' ∷ b'1' ∷ b'0' ∷ []

match_glob-Glob_example : (match_glob (λ s. s) veth veth10 ≡ true) ↔ Glob veth veth10
match_glob-Glob_example = match_glob-Glob (λ s. s) veth veth10
