-- ===== src/Lateral/Report/Cooldowns.antt =====
-- internal/lateral/detector.go: when a finding is reported again.
use i_pulse.Base.{
  ℕ, ◌+◌, ◌≤◌, ◌≡◌, refl, ap, ◌∙◌, sym, ◌↔◌, true, false, not, String, Option, none, some, arith,
  ltb, get, put, get-put_self, get-retain, string_eq, only_if, test_at,
}
use i_pulse.Lateral.State.{Detector, FindingKind}
use i_pulse.Lateral.Report.{should_report, prune_reported, recent_report, rests, full_key}

forgotten_rests :
    (cooldown now later : ℕ) (key : String) (o : Option ℕ)
    → now ≤ later
    → rests cooldown later (only_if (test_at (recent_report cooldown now) key o) o)
      ≡ rests cooldown later o
forgotten_rests cooldown now later key none le = ground arith
forgotten_rests cooldown now later key (some at) le = ground arith

should_report-not :
    (d : Detector) (key : String) (kind : FindingKind) (now : ℕ)
    → (should_report d key kind now).1
      ≡ not (rests d.cooldown now (get (full_key kind key) d.reported))
unfolding should_report
should_report-not d key kind now = ground arith

after_report :
    (d : Detector) (key : String) (kind : FindingKind) (now later : ℕ)
    → (should_report d key kind now).1 ≡ true
    → (should_report (should_report d key kind now).0 key kind later).1
      ≡ not (ltb later (now + d.cooldown))
unfolding should_report
after_report d key kind now later h =
    let full = full_key kind key in
    let free : rests d.cooldown now (get full d.reported) ≡ false = ground arith in
    let stored = record d { reported = put full now d.reported } in
    let fires : (should_report d key kind now).0 ≡ stored = rw free refl in
    ap (λ x. (should_report x key kind later).1) fires
    ∙ should_report-not stored key kind later
    ∙ ap (λ o. not (rests d.cooldown later o)) (get-put_self full now d.reported)

-- Forgetting old reports never lets a repeat through: whatever the pruning at an instant removes,
-- each finding is reported or held back at that instant and later exactly as it would be without
-- the pruning; and what is reported at an instant is held back until a cooldown has passed since,
-- and reported again from then on.
pub should_report-prune_reported :
    (d : Detector) (now later : ℕ) (key : String) (kind : FindingKind)
    → now ≤ later
    → ((should_report (prune_reported d now) key kind later).1 ≡ (should_report d key kind later).1)
      × ((should_report d key kind now).1 ≡ true
          → ((should_report (should_report d key kind now).0 key kind later).1 ≡ true)
            ↔ (now + d.cooldown ≤ later))
unfolding should_report prune_reported
should_report-prune_reported d now later key kind le =
    let full = full_key kind key in
    (
      should_report-not (prune_reported d now) key kind later
          ∙ ap (λ o. not (rests d.cooldown later o))
              (get-retain (recent_report d.cooldown now) full d.reported)
          ∙ ap not (forgotten_rests d.cooldown now later full (get full d.reported) le)
          ∙ sym (should_report-not d key kind later),
      λ h.
          let again = after_report d key kind now later h in
          (λ r. ground (arith, again), λ r. again ∙ ground arith),
    )
