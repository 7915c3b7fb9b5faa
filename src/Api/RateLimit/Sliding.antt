-- ===== src/Api/RateLimit/Sliding.antt =====
-- internal/api/api.go: the limiter against a sliding window over all the requests it granted.
use mathlib.Core.Path.{subst}
use mathlib.Core.List.{append-nil, append_assoc}
use i_pulse.Base.{
  ℕ, ℤ, ◌≤◌, ◌<◌, ◌≡◌, ◌↔◌, refl, ap, sym, ◌∙◌, inl, inr, Bool, true, false, List, [], ◌∷◌, ◌++◌,
  String, arith, leb, if◌then◌else◌, length, keep_if, get, put, string_eq, Bool-cases,
}
use i_pulse.Api.RateLimit.{Limiter, new_limiter, recent, instants, bounded, allow}
use i_pulse.Api.RateLimit.Hits.{
  hits_of, Tracks, later-Tracks, pushed-Tracks, refused-hits, granted-hits, bounded-Tracks,
}

-- Requests, each a key with its instant.
unfoldable pub run_requests : Limiter → List (String × ℕ) → Limiter
run_requests l [] = l
run_requests l ((key, now) ∷ rs) = run_requests (allow l key now).0 rs

abbrev one_if : Bool → ℕ → List ℕ
one_if true now = now ∷ []
one_if false now = []

-- The instants at which requests of a key were granted.
unfoldable pub granted : String → Limiter → List (String × ℕ) → List ℕ
granted k l [] = []
granted k l ((key, now) ∷ rs) =
    (if string_eq.beq key k then one_if (allow l key now).1 now else [])
    ++ granted k (allow l key now).0 rs

-- In order of time, none before an instant.
abbrev pub InOrder : ℕ → List (String × ℕ) → Type 0
InOrder t [] = Unit
InOrder t ((key, now) ∷ rs) = (t ≤ now) × InOrder now rs

abbrev pub end_of : ℕ → List (String × ℕ) → ℕ
end_of t [] = t
end_of t ((key, now) ∷ rs) = end_of now rs

-- One request, seen by the key.
abbrev grants : Limiter → String → String → ℕ → List ℕ
grants l key k now = if string_eq.beq key k then one_if (allow l key now).1 now else []

abbrev TracksKey : Limiter → Limiter → String → List ℕ → ℕ → Type 0
TracksKey c l k g t =
    (l.limit ≡ c.limit) × (l.window ≡ c.window) × Tracks c.limit c.window (hits_of l k) g t

grants-refused :
    (l : Limiter) (key k : String) (now : ℕ) (g : List ℕ)
    → (allow l key now).1 ≡ false
    → g ++ grants l key k now ≡ g
grants-refused l key k now g no_grant = elim (Bool-cases (string_eq.beq key k)) [
  | inl equal ↦ rw (equal, no_grant) (append-nil g)
  | inr other ↦ rw other (append-nil g)
]

put-Tracks :
    (l : Limiter) (key k : String) (g : List ℕ) (now : ℕ)
    → Tracks l.limit l.window (hits_of l k) g now
    → length (keep_if (recent l.window now) (hits_of l key)) < l.limit
    → (allow l key now).1 ≡ true
    → Tracks l.limit l.window
        (instants
          (get k (put key (keep_if (recent l.window now) (hits_of l key) ++ now ∷ []) l.hits)))
        (g ++ grants l key k now)
        now
put-Tracks l key k g now h room grant =
    let after = granted-hits l key k now in
    let kept = keep_if (recent l.window now) (hits_of l key) in
    elim (Bool-cases (string_eq.beq key k)) [
      | inl equal ↦
          let own : length (keep_if (recent l.window now) (hits_of l k)) < l.limit =
            subst (λ j. length (keep_if (recent l.window now) (hits_of l j)) < l.limit)
              ((string_eq.beq_iff key k).0 equal) room in
          let grown = keep_if (recent l.window now) (hits_of l k) ++ now ∷ [] in
          let hits : instants (get k (put key (kept ++ now ∷ []) l.hits)) ≡ grown =
            after ∙ rw equal refl in
          let gained : g ++ grants l key k now ≡ g ++ now ∷ [] = rw (equal, grant) refl in
          subst (λ hs. Tracks l.limit l.window hs (g ++ grants l key k now) now) (sym hits)
            (subst (λ gs. Tracks l.limit l.window grown gs now) (sym gained)
              (pushed-Tracks l.limit l.window (hits_of l k) g now h own))
      | inr other ↦
          let hits : instants (get k (put key (kept ++ now ∷ []) l.hits)) ≡ hits_of l k =
            after ∙ rw other refl in
          let gained : g ++ grants l key k now ≡ g = rw other (append-nil g) in
          subst (λ hs. Tracks l.limit l.window hs (g ++ grants l key k now) now) (sym hits)
            (subst (λ gs. Tracks l.limit l.window (hits_of l k) gs now) (sym gained) h)
    ]

allow-Tracks :
    (l : Limiter) (key k : String) (g : List ℕ) (t now : ℕ)
    → Tracks l.limit l.window (hits_of l k) g t
    → t ≤ now
    → TracksKey l (allow l key now).0 k (g ++ grants l key k now) now
unfolding allow
allow-Tracks l key k g t now before le =
    let h = later-Tracks l.limit l.window (hits_of l k) g t now before le in
    let kept = keep_if (recent l.window now) (hits_of l key) in
    elim (Bool-cases (leb l.limit (length kept))) [
      | inl full ↦
          let no_grant : (allow l key now).1 ≡ false = rw full refl in
          let hits : hits_of (allow l key now).0 k ≡ hits_of l k =
            rw full (refused-hits l key k now h.within full) in
          (
            rw full refl,
            rw full refl,
            subst (λ hs. Tracks l.limit l.window hs (g ++ grants l key k now) now) (sym hits)
                (subst (λ gs. Tracks l.limit l.window (hits_of l k) gs now)
                  (sym (grants-refused l key k now g no_grant)) h),
          )
      | inr room ↦
          let grant : (allow l key now).1 ≡ true = rw room refl in
          let m = put key (kept ++ now ∷ []) l.hits in
          let hits : hits_of (allow l key now).0 k ≡ instants (get k (bounded l.window now m)) =
            rw room refl in
          (
            rw room refl,
            rw room refl,
            subst (λ hs. Tracks l.limit l.window hs (g ++ grants l key k now) now) (sym hits)
                (bounded-Tracks l.limit l.window k m (g ++ grants l key k now) now
                  (put-Tracks l key k g now h (ground arith) grant)),
          )
    ]

run_requests-Tracks :
    (c l : Limiter) (k : String) (g : List ℕ) (t : ℕ) (rs : List (String × ℕ))
    → TracksKey c l k g t
    → InOrder t rs
    → TracksKey c (run_requests l rs) k (g ++ granted k l rs) (end_of t rs)
unfolding run_requests granted
run_requests-Tracks c l k g t [] h order = subst (λ gs. TracksKey c l k gs t) (sym (append-nil g)) h
run_requests-Tracks c l k g t ((key, now) ∷ rs) (same_n, same_w, h) order =
    let here =
      subst (λ n. Tracks n l.window (hits_of l k) g t) (sym same_n)
        (subst (λ w. Tracks c.limit w (hits_of l k) g t) (sym same_w) h) in
    let next = (allow l key now).0 in
    let gs = g ++ grants l key k now in
    let (next_n, next_w, stepped) = allow-Tracks l key k g t now here order.0 in
    let there =
      subst (λ n. Tracks n c.window (hits_of next k) gs now) same_n
        (subst (λ w. Tracks l.limit w (hits_of next k) gs now) same_w stepped) in
    subst (λ l2. TracksKey c (run_requests next rs) k l2 (end_of now rs))
      (append_assoc g (grants l key k now) (granted k next rs))
      (run_requests-Tracks c next k gs now rs (next_n ∙ same_n, next_w ∙ same_w, there) order.1)

allow-decision :
    (l : Limiter) (k : String) (now : ℕ)
    → ((allow l k now).1 ≡ true) ↔ (length (keep_if (recent l.window now) (hits_of l k)) < l.limit)
unfolding allow
allow-decision l k now = (λ h. ground arith, λ h. ground arith)

-- The limiter is a sliding window, for each key and whatever is requested of other keys: after any
-- requests in order of time to a new limiter, a request at a later instant is granted exactly when
-- fewer than the limit of the key's earlier granted requests lie within the window before it, the
-- limit being 10 if a positive one was not asked for. Overwriting the stored hits in place and
-- deleting idle keys never change that.
pub allow-granted :
    (n : ℤ) (window : ℕ) (k : String) (rs : List (String × ℕ)) (now : ℕ)
    → InOrder 0 rs
    → end_of 0 rs ≤ now
    → let l = new_limiter n window in
      ((allow (run_requests l rs) k now).1 ≡ true)
      ↔ (length (keep_if (recent window now) (granted k l rs)) < l.limit)
unfolding new_limiter get
allow-granted n window k rs now order le =
    let c = new_limiter n window in
    let l = run_requests c rs in
    let (same_n, same_w, tracks) =
      run_requests-Tracks c c k [] 0 rs
        (refl, refl, record { within = omega arith; ordered = tt; past = omega arith; same = refl })
        order in
    let last =
      later-Tracks c.limit c.window (hits_of l k) (granted k c rs) (end_of 0 rs) now tracks le in
    let size : length (keep_if (recent l.window now) (hits_of l k))
        ≡ length (keep_if (recent window now) (granted k c rs)) =
      ap (λ w. length (keep_if (recent w now) (hits_of l k))) same_w ∙ ap length last.same in
    let decided = allow-decision l k now in
    (λ h. omega (arith, decided.0 h, size, same_n), λ h. decided.1 (omega (arith, h, size, same_n)))
