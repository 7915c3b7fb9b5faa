-- ===== src/Lateral/Tally.antt =====
-- internal/lateral/detector.go: the sets and sorted lists of `evaluate`, and what it collects from the
-- attempts of a process.
pub mod Counts
use Prim.Native.String.{compare}
use text.Mathlib.Text.{is_le}
use i_pulse.Base.{
  ℕ, suc, ◌+◌, ◌≡◌, refl, ap, ◌∙◌, arith, Bool, true, false, List, [], ◌∷◌, ◌++◌, String, leb,
  if◌then◌else◌, length, take, Eq, string_eq, nat_eq,
}
use i_pulse.Lateral.State.{Attempt}

module _ {A : Type 0} ⦃e : Eq A⦄ where
  unfoldable pub mem : A → List A → Bool
  mem x [] = false
  mem x (y ∷ ys) = let rest = mem x ys in if e.beq y x then true else rest

  -- `m[x] = true`
  unfoldable pub add_key : A → List A → List A
  unfolding mem
  add_key x l = if mem x l then l else l ++ x ∷ []

unfoldable pub insert_string : String → List String → List String
insert_string s [] = s ∷ []
insert_string s (t ∷ l) =
    let rest = insert_string s l in if is_le (compare s t) then s ∷ t ∷ l else t ∷ rest

unfoldable pub sort_strings : List String → List String
unfolding insert_string
sort_strings [] = []
sort_strings (s ∷ l) = insert_string s (sort_strings l)

unfoldable pub insert_nat : ℕ → List ℕ → List ℕ
insert_nat n [] = n ∷ []
insert_nat n (k ∷ l) = let rest = insert_nat n l in if leb n k then n ∷ k ∷ l else k ∷ rest

unfoldable pub sort_nats : List ℕ → List ℕ
unfolding insert_nat
sort_nats [] = []
sort_nats (n ∷ l) = insert_nat n (sort_nats l)

-- `sortedKeys` and `sortedInts`
unfoldable pub sorted_keys : List String → List String
sorted_keys l = take 32 (sort_strings l)

unfoldable pub sorted_ints : List ℕ → List ℕ
sorted_ints l = take 64 (sort_nats l)

-- What the loop over a process's attempts collects.
pub record Tally : Type 0 where
  pub hosts : List String
  pub ports : List ℕ
  pub admin_hosts : List String
  pub admin_ports : List ℕ
  pub failed : ℕ

unfoldable pub tally : List ℕ → List Attempt → Tally → Tally
unfolding add_key mem
tally admin [] t = t
tally admin (a ∷ l) t =
    let watched = mem a.port admin in
    tally admin l (record {
      hosts = add_key a.host t.hosts;
      ports = add_key a.port t.ports;
      admin_hosts = if watched then add_key a.host t.admin_hosts else t.admin_hosts;
      admin_ports = if watched then add_key a.port t.admin_ports else t.admin_ports;
      failed = if a.failed then t.failed + 1 else t.failed;
    })

abbrev pub no_tally : Tally
no_tally = record { hosts = []; ports = []; admin_hosts = []; admin_ports = []; failed = 0 }

unfoldable pub ports_of : List (ℕ × ℕ) → List ℕ
ports_of [] = []
ports_of ((port, at) ∷ l) = port ∷ ports_of l

length-insert_nat : (n : ℕ) (l : List ℕ) → length (insert_nat n l) ≡ suc (length l)
unfolding insert_nat
length-insert_nat n [] = refl
length-insert_nat n (k ∷ l) = ground (arith, length-insert_nat n l)

pub length-sorted_ports : (l : List (ℕ × ℕ)) → length (sort_nats (ports_of l)) ≡ length l
unfolding sort_nats ports_of
length-sorted_ports [] = refl
length-sorted_ports ((port, at) ∷ l) =
    length-insert_nat port (sort_nats (ports_of l)) ∙ ap suc (length-sorted_ports l)
