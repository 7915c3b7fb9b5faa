-- ===== src/Traffic/SelfTraffic.antt =====
-- internal/traffic/selftraffic.go: the transfers that iPulse makes itself. Instants are nanoseconds,
-- byte counts natural numbers. `Between` scales a count by the float quotient of two durations: the
-- section takes that arithmetic, `int64(float64(bytes) * (float64(part) / float64(whole)))`, as its
-- parameter.
pub mod Overlap
pub mod Attribution
use i_pulse.Base.{
  ℕ, ℤ, pos, pos_part, leb_ℤ, ◌+◌, ◌-◌, Bool, true, false, not, ◌&&◌, ◌||◌, List, [], ◌∷◌, ◌++◌,
  String, ltb, leb, ◌==◌, if◌then◌else◌, keep_if,
}

pub record Transfer : Type 0 where
  pub start : ℕ
  pub end : ℕ
  pub rx : ℕ
  pub tx : ℕ
  pub reason : String

pub record SelfTraffic : Type 0 where
  pub windows : List Transfer
  pub retained : ℕ

-- Thirty minutes, if the given history is not positive.
unfoldable pub new_self_traffic : ℤ → SelfTraffic
new_self_traffic keep = record {
  windows = [];
  retained = if leb_ℤ keep (pos 0) then 1_800_000_000_000 else pos_part keep;
}

-- `overlapDuration`, in nanoseconds.
unfoldable pub overlap : ℕ → ℕ → ℕ → ℕ → ℕ
overlap a_start a_end b_start b_end =
    let start = if ltb a_start b_start then b_start else a_start in
    let end = if ltb b_end a_end then b_end else a_end in
    if not (ltb start end)
    then (if not (ltb b_start b_end) && (not (ltb b_start a_start) && ltb b_start a_end)
        then 1
        else 0)
    else end - start

-- Ended after the cutoff `now - retained`. The difference is not formed, as it may be negative.
abbrev pub ends_after : ℕ → ℕ → Transfer → Bool
ends_after now keep w = ltb now (w.end + keep)

-- `Prune`, and `pruneLocked` at a given cutoff.
unfoldable pub prune_before : SelfTraffic → ℕ → SelfTraffic
prune_before s before = record s { windows = keep_if (λ w. ltb before w.end) s.windows }

-- `Record`; `now` is what the clock says.
unfoldable pub record_transfer : SelfTraffic → ℕ → Transfer → SelfTraffic
record_transfer s now w =
    if ltb w.end w.start || (w.rx == 0 && w.tx == 0)
    then s
    else record s { windows = keep_if (ends_after now s.retained) (s.windows ++ w ∷ []) }

any_overlap : ℕ → ℕ → List Transfer → Bool
any_overlap from to [] = false
any_overlap from to (w ∷ ws) =
    let rest = any_overlap from to ws in
    if ltb 0 (overlap from to w.start w.end) then true else rest

unfoldable pub active : SelfTraffic → ℕ → ℕ → Bool
unfolding any_overlap overlap
active s from to = any_overlap from to s.windows

module _ (scale : ℕ → ℕ → ℕ → ℕ) where
  -- What one transfer adds to a count of `bytes` bytes.
  unfoldable pub share : ℕ → ℕ → Transfer → ℕ → ℕ
  share from to w bytes =
      let part = overlap from to w.start w.end in
      let whole = w.end - w.start in
      if not (ltb 0 part) then 0 else if not (ltb 0 whole) then bytes else scale bytes part whole

  sum_between : ℕ → ℕ → List Transfer → ℕ × ℕ
  sum_between from to [] = (0, 0)
  sum_between from to (w ∷ ws) =
      let rest = sum_between from to ws in
      (share from to w w.rx + rest.0, share from to w w.tx + rest.1)

  unfoldable pub between : SelfTraffic → ℕ → ℕ → ℕ × ℕ
  unfolding sum_between
  between s from to = if not (ltb from to) then (0, 0) else sum_between from to s.windows
