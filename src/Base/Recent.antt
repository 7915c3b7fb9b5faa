-- ===== src/Base/Recent.antt =====
-- Sliding windows that are also cut to their last entries.
use Prim.Native.Nat.{ℕ, zero, suc, ◌+◌, ◌-◌, ◌≤◌}
use mathlib.Core.Path.{◌≡◌, refl, ap, sym, ◌∙◌}
use mathlib.Core.List.{List, [], ◌∷◌, ◌++◌}
use mathlib.Core.Logic.{inl, inr}
use native.Mathlib.Omega.{arith}
use i_pulse.Base.Tests.{leb, Bool-cases}
use i_pulse.Base.Lists.{keep_if, length, drop, drop-nil, length-drop, last_of, last_of-push}
use i_pulse.Base.Windows.{
  expired, fresh, expire, From, last_at, From-append, From-keep_if, last_at-keep_if, expire-push,
  expire-later,
}

module _ {ℓ} {A : Type ℓ} where
  last_of_fits : (n : ℕ) (l : List A) → length l ≤ n → last_of n l ≡ l
  last_of_fits n l h =
      let none_over : length l - n ≡ 0 = omega arith in ap (λ k. drop k l) none_over

  last_of_over : (n : ℕ) (x : A) (l : List A) → n ≤ length l → last_of n (x ∷ l) ≡ last_of n l
  last_of_over n x l h =
      let over : suc (length l) - n ≡ suc (length l - n) = omega arith in
      ap (λ k. drop k (x ∷ l)) over

  pub length-last_of : (n : ℕ) (l : List A) → length (last_of n l) ≤ n
  length-last_of n l = omega (arith, length-drop (length l - n) l)

module _ {ℓ} {A : Type ℓ} (at : A → ℕ) where
  length-expire : (width now : ℕ) (l : List A) → length (expire at width now l) ≤ length l
  length-expire width now [] = omega arith
  length-expire width now (x ∷ l) = ground (arith, length-expire width now l)

  expire_none :
      (width now t : ℕ) (l : List A) → From at t l → now ≤ t + width → expire at width now l ≡ l
  expire_none width now t [] h le = refl
  expire_none width now t (x ∷ l) h le = ground (arith, expire_none width now (at x) l h.1)

  -- Dropping what has expired and cutting to the last entries may be done in either order.
  pub expire-last_of :
      (width now n t : ℕ) (l : List A)
      → From at t l
      → expire at width now (last_of n l) ≡ last_of n (expire at width now l)
  expire-last_of width now n t [] h =
      ap (expire at width now) (drop-nil (0 - n)) ∙ sym (drop-nil (0 - n))
  expire-last_of width now n t (x ∷ l) h = elim (Bool-cases (leb (suc (length l)) n)) [
    | inl fits ↦
        let all : length (x ∷ l) ≤ n = ground arith in
        let small = length-expire width now (x ∷ l) in
        ap (expire at width now) (last_of_fits n (x ∷ l) all)
        ∙ sym (last_of_fits n (expire at width now (x ∷ l)) (omega arith))
    | inr over ↦
        let more : n ≤ length l = ground arith in
        let rest = expire-last_of width now n (at x) l h.1 in
        elim (Bool-cases (expired at width now x)) [
          | inl gone ↦ ap (expire at width now) (last_of_over n x l more) ∙ rest ∙ rw gone refl
          | inr stays ↦
              let none_gone = expire_none width now (at x) l h.1 (ground arith) in
              ap (expire at width now) (last_of_over n x l more)
              ∙ rest
              ∙ ap (last_of n) none_gone
              ∙ sym (last_of_over n x l more)
              ∙ rw stays refl
        ]
  ]

  From-drop :
      (n t : ℕ) (l : List A) (u : ℕ)
      → From at t l
      → u ≤ t
      → From at u (drop n l) × (last_at at u (drop n l) ≤ last_at at t l)
  From-drop zero t [] u h le = (tt, le)
  From-drop zero t (x ∷ l) u h le = ((omega arith, h.1), omega arith)
  From-drop (suc n) t [] u h le = (tt, le)
  From-drop (suc n) t (x ∷ l) u h le = From-drop n (at x) l u h.1 (omega arith)

  -- A window that is cut after each expiry holds the last entries of the fresh ones of the history.
  pub recent-push :
      (width n t : ℕ) (h : List A) (x : A)
      → From at 0 h
      → last_at at 0 h ≤ t
      → t ≤ at x
      → last_of n (expire at width (at x) (last_of n (keep_if (fresh at width t) h) ++ x ∷ []))
        ≡ last_of n (keep_if (fresh at width (at x)) (h ++ x ∷ []))
  recent-push width n t h x sorted ends le =
      let kept = keep_if (fresh at width t) h in
      let inner = From-keep_if at (fresh at width t) 0 0 h sorted (omega arith) in
      let inner_end = last_at-keep_if at (fresh at width t) 0 0 h sorted (omega arith) in
      let cut = From-drop (length kept - n) 0 kept 0 inner (omega arith) in
      let pushed = From-append at 0 (last_of n kept) x cut.0 (omega arith) in
      let whole = From-append at 0 kept x inner (omega arith) in
      sym (expire-last_of width (at x) n 0 (last_of n kept ++ x ∷ []) pushed.0)
      ∙ ap (expire at width (at x)) (last_of-push n kept x)
      ∙ expire-last_of width (at x) n 0 (kept ++ x ∷ []) whole.0
      ∙ ap (last_of n) (expire-push at width t h x sorted ends le)

  pub recent-later :
      (width n t now : ℕ) (h : List A)
      → From at 0 h
      → t ≤ now
      → last_of n (expire at width now (last_of n (keep_if (fresh at width t) h)))
        ≡ last_of n (keep_if (fresh at width now) h)
  recent-later width n t now h sorted le =
      let kept = keep_if (fresh at width t) h in
      let inner = From-keep_if at (fresh at width t) 0 0 h sorted (omega arith) in
      ap (last_of n) (
        expire-last_of width now n 0 kept inner
        ∙ ap (last_of n) (expire-later at width t now h sorted le))
      ∙ last_of_fits n (last_of n (keep_if (fresh at width now) h))
          (length-last_of n (keep_if (fresh at width now) h))
