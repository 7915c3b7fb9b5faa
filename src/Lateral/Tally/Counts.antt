-- ===== src/Lateral/Tally/Counts.antt =====
-- internal/lateral/detector.go: what the loop over a process's attempts counts.
use i_pulse.Base.{
  ℕ, ◌+◌, ◌≡◌, refl, ap, sym, ◌∙◌, Bool, true, false, ◌&&◌, ◌||◌, List, [], ◌∷◌, ◌++◌, String, any,
  arith, inl, inr, Bool-cases, if◌then◌else◌, Eq, string_eq, nat_eq,
}
use i_pulse.Lateral.State.{Attempt}
use i_pulse.Lateral.Tally.{Tally, tally, no_tally, mem, add_key}

module _ {A : Type 0} ⦃e : Eq A⦄ where
  abbrev pub has : A → List A → Bool
  has x l = any (λ y. e.beq y x) l

  abbrev pub IsDistinct : List A → Type 0
  IsDistinct [] = Unit
  IsDistinct (x ∷ xs) = (has x xs ≡ false) × IsDistinct xs

  mem-has : (x : A) (l : List A) → mem x l ≡ has x l
  unfolding mem
  mem-has x [] = refl
  mem-has x (y ∷ l) = ground (arith, mem-has x l)

  has-append : (x y : A) (l : List A) → has x (l ++ y ∷ []) ≡ (has x l || e.beq y x)
  has-append x y [] = ground arith
  has-append x y (z ∷ l) = ground (arith, has-append x y l)

  beq-swap : (x y : A) → e.beq x y ≡ false → e.beq y x ≡ false
  beq-swap x y h = elim (Bool-cases (e.beq y x)) [
    | inl on ↦ absurd (cc (h, (e.beq_iff x y).1 (sym ((e.beq_iff y x).0 on))))
    | inr off ↦ off
  ]

  append-IsDistinct :
      (l : List A) (x : A) → IsDistinct l → has x l ≡ false → IsDistinct (l ++ x ∷ [])
  append-IsDistinct [] x h new = (refl, tt)
  append-IsDistinct (y ∷ l) x h new =
      let other : e.beq y x ≡ false = ground (arith, new) in
      let rest : has x l ≡ false = ground (arith, new) in
      let back = beq-swap y x other in
      (has-append y x l ∙ ground (arith, h.0, back), append-IsDistinct l x h.1 rest)

  add_key-IsDistinct : (x : A) (l : List A) → IsDistinct l → IsDistinct (add_key x l)
  unfolding add_key
  add_key-IsDistinct x l h = elim (Bool-cases (mem x l)) [
    | inl known ↦ rw known h
    | inr new ↦ rw new (append-IsDistinct l x h (sym (mem-has x l) ∙ new))
  ]

  has-add_key : (x y : A) (l : List A) → has x (add_key y l) ≡ (has x l || e.beq y x)
  unfolding add_key
  has-add_key x y l = elim (Bool-cases (mem y l)) [
    | inl known ↦ elim (Bool-cases (e.beq y x)) [
      | inl same ↦
          let is = (e.beq_iff y x).0 same in
          let found : has x l ≡ true = ap (λ z. has z l) (sym is) ∙ sym (mem-has y l) ∙ known in
          rw (known, same, found) refl
      | inr other ↦ rw (known, other) (ground arith)
    ]
    | inr new ↦ rw new (has-append x y l)
  ]

-- A list of different hosts, exactly those of the attempts that pass a test.
pub record AreHosts (p : Attempt → Bool) (l : List Attempt) (hosts : List String) : Type 0 where
  pub distinct : IsDistinct hosts
  pub exact : (h : String) → has h hosts ≡ any (λ a. p a && string_eq.beq a.host h) l

abbrev pub failures : List Attempt → ℕ
failures [] = 0
failures (a ∷ l) = (if a.failed then 1 else 0) + failures l

abbrev pub at_port : List ℕ → Attempt → Bool
at_port admin a = has a.port admin

-- One round of the loop.
abbrev counted : List ℕ → Attempt → Tally → Tally
counted admin a t =
    let watched = mem a.port admin in
    record {
      hosts = add_key a.host t.hosts;
      ports = add_key a.port t.ports;
      admin_hosts = if watched then add_key a.host t.admin_hosts else t.admin_hosts;
      admin_ports = if watched then add_key a.port t.admin_ports else t.admin_ports;
      failed = if a.failed then t.failed + 1 else t.failed;
    }

watched-IsDistinct :
    (b : Bool) (x : String) (l : List String)
    → IsDistinct l
    → IsDistinct (if b then add_key x l else l)
watched-IsDistinct true x l h = add_key-IsDistinct x l h
watched-IsDistinct false x l h = h

has_watched :
    (b : Bool) (h x : String) (l : List String)
    → has h (if b then add_key x l else l) ≡ (has h l || (b && string_eq.beq x h))
has_watched true h x l = has-add_key h x l
has_watched false h x l = or_false (has h l)
  where
    or_false : (b : Bool) → b ≡ (b || false)
    or_false true = refl
    or_false false = refl

or_assoc : (a b c : Bool) → (a || b || c) ≡ (a || (b || c))
or_assoc true b c = refl
or_assoc false b c = refl

IsTallied : List ℕ → List Attempt → Tally → Tally → Type 0
IsTallied admin l t r =
    (IsDistinct t.hosts → IsDistinct r.hosts)
    × (IsDistinct t.admin_hosts → IsDistinct r.admin_hosts)
    × ((h : String) → has h r.hosts ≡ (has h t.hosts || any (λ a. string_eq.beq a.host h) l))
    × ((h : String)
        → has h r.admin_hosts
          ≡ (has h t.admin_hosts || any (λ a. at_port admin a && string_eq.beq a.host h) l))
    × (r.failed ≡ t.failed + failures l)

tally-IsTallied :
    (admin : List ℕ) (l : List Attempt) (t : Tally) → IsTallied admin l t (tally admin l t)
unfolding tally IsTallied
tally-IsTallied admin [] t =
    ((λ h. h), (λ h. h), (λ h. ground arith), (λ h. ground arith), omega arith)
tally-IsTallied admin (a ∷ l) t =
    let u = counted admin a t in
    let (x, y, z, v, w) = tally-IsTallied admin l u in
    let watched = mem a.port admin in
    (
      (λ h. x (add_key-IsDistinct a.host t.hosts h)),
      (λ h. y (watched-IsDistinct watched a.host t.admin_hosts h)),
      (λ h.
          let more = any (λ a. string_eq.beq a.host h) l in
          z h
          ∙ ap (λ b. b || more) (has-add_key h a.host t.hosts)
          ∙ or_assoc (has h t.hosts) (string_eq.beq a.host h) more),
      (λ h.
          let more = any (λ a. at_port admin a && string_eq.beq a.host h) l in
          v h
          ∙ ap (λ b. b || more)
              (has_watched watched h a.host t.admin_hosts
                ∙ ap (λ b. has h t.admin_hosts || (b && string_eq.beq a.host h))
                    (mem-has a.port admin))
          ∙ or_assoc (has h t.admin_hosts) (at_port admin a && string_eq.beq a.host h) more),
      w ∙ ground arith,
    )

-- From nothing: the hosts of the attempts, of those to the given ports, and the number of failures.
pub no_tally-AreHosts :
    (admin : List ℕ) (l : List Attempt)
    → let t = tally admin l no_tally in
      AreHosts (λ a. true) l t.hosts
      × AreHosts (at_port admin) l t.admin_hosts
      × (t.failed ≡ failures l)
unfolding IsTallied
no_tally-AreHosts admin l =
    let (x, y, z, v, w) = tally-IsTallied admin l no_tally in
    (record { distinct = x tt; exact = z }, record { distinct = y tt; exact = v }, omega (arith, w))
