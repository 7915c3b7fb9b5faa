-- ===== src/Routing.antt =====
-- internal/routing/traceroute.go: measured paths and how two of them differ. An address is a list of bytes;
-- Go's empty string is an unanswered hop.
pub mod Positions
pub mod Changes
mod Examples
use i_pulse.Base.{
  ℕ, ℤ, pos, sub_ℕ, zero, suc, ltb, ltb_ℤ, Bool, false, ◌||◌, List, [], ◌∷◌, none, some, length,
  get_elem?, if◌then◌else◌, ◌==◌,
}
use i_pulse.Util.Glob.{same}

pub record Hop : Type 0 where
  pub ttl : ℕ
  pub addr : List ℕ
  pub rtt : ℕ
  pub timeout : Bool
  pub destination : Bool

pub record MeasuredPath : Type 0 where
  pub destination : List ℕ
  pub resolved : List ℕ
  pub hops : List Hop
  pub complete : Bool
  pub duration : ℕ
  pub method : List ℕ
  pub rtt : ℕ

-- The number of the first hop that is the destination, or else that of all hops.
unfoldable pub count_to : ℕ → List Hop → ℕ
count_to probed [] = probed
count_to probed (h ∷ hops) =
    let rest = count_to probed hops in if h.destination then h.ttl else rest

-- `HopCount`
unfoldable pub hop_count : MeasuredPath → ℕ
hop_count p = count_to (length p.hops) p.hops

-- `Addresses`
unfoldable pub addresses : List Hop → List (List ℕ)
addresses [] = []
addresses (h ∷ hops) = let rest = addresses hops in if same h.addr [] then rest else h.addr ∷ rest

pub record Diff : Type 0 where
  pub changed : Bool
  pub hop_count_delta : ℤ
  pub changed_hops : ℕ
  pub first_change : ℕ

-- Beyond the end of a path there is no answer.
unfoldable pub addr_at : List Hop → ℕ → List ℕ
addr_at hops i = elim (get_elem? hops i) [ none ↦ [] | some h ↦ h.addr ]

-- The body of the loop of `Compare`.
unfoldable pub compare_hop : List Hop → List Hop → ℕ → Diff → Diff
compare_hop before after i d =
    let b = addr_at before i in
    let a = addr_at after i in
    if same b [] || same a [] then d else if same b a then d else record d {
      changed_hops = suc d.changed_hops;
      first_change = if d.first_change == 0 then suc i else d.first_change;
    }

-- The loop, with so many positions left.
unfoldable pub compare_from : List Hop → List Hop → ℕ → ℕ → Diff → Diff
compare_from before after zero i d = d
compare_from before after (suc n) i d =
    compare_from before after n (suc i) (compare_hop before after i d)

unfoldable pub longer : List Hop → List Hop → ℕ
longer before after = if ltb (length before) (length after) then length after else length before

-- `Compare`
unfoldable pub compare : MeasuredPath → MeasuredPath → ℤ → Diff
compare before after tolerance =
    let start : Diff = record {
      changed = false;
      hop_count_delta = sub_ℕ (hop_count after) (hop_count before);
      changed_hops = 0;
      first_change = 0;
    } in
    let d = compare_from before.hops after.hops (longer before.hops after.hops) 0 start in
    let least = if ltb_ℤ tolerance (pos 0) then pos 0 else tolerance in
    record d { changed = ltb_ℤ least (pos d.changed_hops) }
