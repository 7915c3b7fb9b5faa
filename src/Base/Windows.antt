-- ===== src/Base/Windows.antt =====
-- Sliding windows over entries in order of time, oldest first: what a window of a given width still
-- holds at an instant, by dropping the expired entries in front or by a test of each entry.
use Prim.Native.Nat.{ℕ, ◌+◌, ◌≤◌}
use mathlib.Core.Path.{◌≡◌, refl, ap, sym, ◌∙◌}
use mathlib.Core.Bool.{Bool, not}
use mathlib.Core.List.{List, [], ◌∷◌, ◌++◌}
use native.Mathlib.Omega.{arith}
use i_pulse.Base.Tests.{ltb, if◌then◌else◌}
use i_pulse.Base.Lists.{keep_if}

module _ {ℓ} {A : Type ℓ} (at : A → ℕ) where
  -- Before the cutoff `now - width`. Instants and widths are natural numbers, so the test is written
  -- without the difference.
  abbrev pub expired : ℕ → ℕ → A → Bool
  expired width now x = ltb (at x + width) now

  abbrev pub fresh : ℕ → ℕ → A → Bool
  fresh width now x = not (expired width now x)

  -- `for first < len(xs) && xs[first].at.Before(cutoff) { first++ }`, then `xs[first:]`
  abbrev pub expire : ℕ → ℕ → List A → List A
  expire width now [] = []
  expire width now (x ∷ xs) =
      let rest = expire width now xs in if expired width now x then rest else x ∷ xs

  -- In order of time, none before an instant.
  abbrev pub From : ℕ → List A → Type 0
  From t [] = Unit
  From t (x ∷ xs) = (t ≤ at x) × From (at x) xs

  abbrev pub last_at : ℕ → List A → ℕ
  last_at t [] = t
  last_at t (x ∷ xs) = last_at (at x) xs

  pub From-append :
      (t : ℕ) (xs : List A) (x : A)
      → From t xs
      → last_at t xs ≤ at x
      → From t (xs ++ x ∷ []) × (last_at t (xs ++ x ∷ []) ≡ at x)
  From-append t [] x h le = ((le, tt), refl)
  From-append t (y ∷ xs) x h le =
      let rest = From-append (at y) xs x h.1 le in ((h.0, rest.0), rest.1)

  keep_if_all :
      (width now t : ℕ) (xs : List A)
      → From t xs
      → now ≤ t + width
      → keep_if (fresh width now) xs ≡ xs
  keep_if_all width now t [] h le = refl
  keep_if_all width now t (x ∷ xs) h le = ground (arith, keep_if_all width now (at x) xs h.1)

  -- On entries in order of time, dropping the expired ones in front leaves exactly the fresh ones.
  pub expire-eq-keep_if :
      (width now t : ℕ) (xs : List A)
      → From t xs
      → expire width now xs ≡ keep_if (fresh width now) xs
  expire-eq-keep_if width now t [] h = refl
  expire-eq-keep_if width now t (x ∷ xs) h =
      ground (arith, expire-eq-keep_if width now (at x) xs h.1, keep_if_all width now (at x) xs h.1)

  -- What has expired stays expired.
  pub keep_if-keep_if :
      (width t now : ℕ) (xs : List A)
      → t ≤ now
      → keep_if (fresh width now) (keep_if (fresh width t) xs) ≡ keep_if (fresh width now) xs
  keep_if-keep_if width t now [] h = refl
  keep_if-keep_if width t now (x ∷ xs) h = ground (arith, keep_if-keep_if width t now xs h)

  pub keep_if-fresh_append :
      (width now : ℕ) (xs ys : List A)
      → keep_if (fresh width now) (xs ++ ys)
        ≡ keep_if (fresh width now) xs ++ keep_if (fresh width now) ys
  keep_if-fresh_append width now [] ys = refl
  keep_if-fresh_append width now (x ∷ xs) ys = ground (arith, keep_if-fresh_append width now xs ys)

  pub From-keep_if :
      (p : A → Bool) (t u : ℕ) (xs : List A) → From t xs → u ≤ t → From u (keep_if p xs)
  From-keep_if p t u [] h le = tt
  From-keep_if p t u (x ∷ xs) h le =
      ground (arith, From-keep_if p (at x) (at x) xs h.1, From-keep_if p (at x) u xs h.1)

  pub last_at-keep_if :
      (p : A → Bool) (t u : ℕ) (xs : List A)
      → From t xs
      → u ≤ t
      → last_at u (keep_if p xs) ≤ last_at t xs
  last_at-keep_if p t u [] h le = le
  last_at-keep_if p t u (x ∷ xs) h le =
      ground (arith, last_at-keep_if p (at x) (at x) xs h.1, last_at-keep_if p (at x) u xs h.1)

  -- Expiry after a new entry, over what an earlier expiry left, is expiry over the whole history.
  pub expire-push :
      (width t : ℕ) (h : List A) (x : A)
      → From 0 h
      → last_at 0 h ≤ t
      → t ≤ at x
      → expire width (at x) (keep_if (fresh width t) h ++ x ∷ [])
        ≡ keep_if (fresh width (at x)) (h ++ x ∷ [])
  expire-push width t h x sorted ends le =
      let kept = keep_if (fresh width t) h in
      let last = last_at-keep_if (fresh width t) 0 0 h sorted (omega arith) in
      let pushed =
        From-append 0 kept x (From-keep_if (fresh width t) 0 0 h sorted (omega arith))
          (omega arith) in
      expire-eq-keep_if width (at x) 0 (kept ++ x ∷ []) pushed.0
      ∙ keep_if-fresh_append width (at x) kept (x ∷ [])
      ∙ ap (λ l. l ++ keep_if (fresh width (at x)) (x ∷ [])) (keep_if-keep_if width t (at x) h le)
      ∙ sym (keep_if-fresh_append width (at x) h (x ∷ []))

  pub expire-later :
      (width t now : ℕ) (h : List A)
      → From 0 h
      → t ≤ now
      → expire width now (keep_if (fresh width t) h) ≡ keep_if (fresh width now) h
  expire-later width t now h sorted le =
      expire-eq-keep_if width now 0 (keep_if (fresh width t) h)
        (From-keep_if (fresh width t) 0 0 h sorted (omega arith))
      ∙ keep_if-keep_if width t now h le
