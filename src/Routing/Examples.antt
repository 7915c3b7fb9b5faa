-- ===== src/Routing/Examples.antt =====
-- Two paths with three hops: the first does not answer on the second path, the others have moved.
use i_pulse.Base.{ℕ, pos, ◌≡◌, refl, true, false, List, [], ◌∷◌}
use i_pulse.Routing.{
  Hop, MeasuredPath, compare, compare_from, compare_hop, longer, hop_count, count_to, addr_at,
}
use i_pulse.Routing.Changes.{IsDifference, compare-IsDifference}

abbrev hop : ℕ → List ℕ → Hop
hop ttl addr = record { ttl = ttl; addr = addr; rtt = 5; timeout = false; destination = false }

abbrev path_of : List Hop → MeasuredPath
path_of hops = record {
  destination = b'd' ∷ [];
  resolved = [];
  hops = hops;
  complete = false;
  duration = 9;
  method = [];
  rtt = 0;
}

abbrev old_path : MeasuredPath
old_path = path_of (hop 1 (b'a' ∷ []) ∷ hop 2 (b'b' ∷ []) ∷ hop 3 (b'c' ∷ []) ∷ [])

abbrev new_path : MeasuredPath
new_path = path_of (hop 1 [] ∷ hop 2 (b'x' ∷ []) ∷ hop 3 (b'y' ∷ []) ∷ hop 4 (b'z' ∷ []) ∷ [])

compare_run :
    compare old_path new_path (pos 1)
    ≡ record { changed = true; hop_count_delta = pos 1; changed_hops = 2; first_change = 2 }
unfolding compare compare_from compare_hop longer hop_count count_to addr_at i_pulse.Util.Glob.same
compare_run = refl

compare-IsDifference_example :
    IsDifference old_path new_path (pos 1) (compare old_path new_path (pos 1))
compare-IsDifference_example = compare-IsDifference old_path new_path (pos 1)
