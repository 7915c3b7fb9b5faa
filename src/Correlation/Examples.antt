-- ===== src/Correlation/Examples.antt =====
-- The correlation engine at concrete inputs: measured values are natural numbers.
use i_pulse.Base.{
  ℕ, pos, ◌≤ℤ◌, sub_ℕ, ◌≡◌, refl, true, false, List, [], ◌∷◌, String, none, some, arith, keep_if,
  fresh, last_of, All, nat_eq, string_eq, get, put,
}
use i_pulse.Correlation.Window.{Signal, event, new_window, add, snapshot, signal_at, trim}
use i_pulse.Correlation.Window.Laws.{add_all, stored, snapshot-add_all}
use i_pulse.Correlation.View.{new_view, events_of, event_ids, events_with_codes}
use i_pulse.Correlation.View.Index.{coded, new_view_indexed}
use i_pulse.Correlation.Engine.{
  Engine, Rule, Match, Condition, new_engine, observe, evaluate, set_enabled, first_match, gather,
  cooldown_elapsed, match_of, mem_code,
}
use i_pulse.Correlation.Engine.First.{IsFirst, view_at, evaluate-IsFirst}
use i_pulse.Correlation.Engine.Calls.{
  Call, signalled, evaluated, switched, run_calls, IsNoConclusion, run_calls-IsNoConclusion,
}
use i_pulse.Correlation.Engine.Cooldown.{evaluate-rests}

abbrev spike : ℕ → Signal ℕ
spike t = record {
  time = t;
  kind = event;
  name = "LATENCY_SPIKE";
  code = 2101;
  value = 0;
  target = "";
  fields = [];
  event_id = pos 7;
}

abbrev arrivals : List (ℕ × Signal ℕ)
arrivals = (10, spike 10) ∷ (20, spike 20) ∷ []

snapshot-add_all_example :
    let w = new_window (pos 15) in
    (snapshot (add_all w arrivals) 30).1
    ≡ last_of 4096 (keep_if (fresh signal_at w.duration 30) (stored arrivals))
snapshot-add_all_example =
    snapshot-add_all (pos 15) arrivals 30 (omega arith, (omega arith, tt)) (omega arith)

abbrev same_name : String → String
same_name s = s

new_view_indexed_example :
    events_of (new_view same_name 30 (spike 10 ∷ spike 20 ∷ [])) 2101
    ≡ keep_if (coded 2101) (spike 10 ∷ spike 20 ∷ [])
new_view_indexed_example =
    (new_view_indexed same_name 30 (spike 10 ∷ spike 20 ∷ []) 2101 "latency").0

abbrev always : Condition ℕ
always = record { name = "always"; match = λ v. some "" }

abbrev upstream : Rule ℕ
upstream = record {
  name = "upstream";
  conclusion = 2110;
  cause = "upstream degradation";
  requires = always ∷ [];
  suppresses = [];
  fields = none;
  cooldown = pos 5;
}

abbrev engine : Engine ℕ
engine = record {
  window = record { duration = 50; signals = []; max = 4096 };
  rules = upstream ∷ [];
  last_fired = [];
  conclusions = 2110 ∷ [];
  enabled = true;
}

-- What the rule reports.
abbrev upstream_match : ℕ → Match ℕ
upstream_match now = record {
  rule = upstream;
  time = now;
  cause = "upstream degradation";
  evidence = "always" ∷ [];
  suppress_id = [];
  fields = none;
}

engine_fires : (evaluate same_name engine 30).1 ≡ some (upstream_match 30)
unfolding evaluate first_match cooldown_elapsed gather match_of snapshot trim event_ids
    events_with_codes get
engine_fires = refl

evaluate-IsFirst_example :
    IsFirst engine (view_at same_name engine 30) 30 (upstream ∷ []) (upstream_match 30)
evaluate-IsFirst_example =
    ((evaluate-IsFirst same_name engine 30).0 refl).0 (upstream_match 30) engine_fires

-- A spike is observed, the engine evaluates in between, and is switched off and on.
abbrev between_evaluations : List (Call ℕ)
between_evaluations = signalled 31 (spike 31) ∷ evaluated 32 ∷ switched false ∷ switched true ∷ []

engine_fires_again :
    (evaluate same_name
      (run_calls same_name (evaluate same_name engine 30).0 between_evaluations)
      40).1
    ≡ some (upstream_match 40)
unfolding evaluate first_match cooldown_elapsed gather match_of snapshot trim add event_ids
    events_with_codes get put observe set_enabled run_calls mem_code
engine_fires_again = refl

run_calls-IsNoConclusion_example :
    All
      (IsNoConclusion (upstream ∷ []))
      (run_calls same_name (new_engine (pos 50) (upstream ∷ [])) between_evaluations).window.signals
run_calls-IsNoConclusion_example =
    run_calls-IsNoConclusion same_name (pos 50) (upstream ∷ []) between_evaluations

evaluate-rests_example : pos 5 ≤ℤ sub_ℕ 40 30
evaluate-rests_example =
    evaluate-rests same_name engine 30 (upstream_match 30) between_evaluations 40
      (upstream_match 40) engine_fires (tt, (omega arith, (tt, (tt, tt)))) engine_fires_again refl
      (omega arith)
