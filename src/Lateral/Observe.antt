-- ===== src/Lateral/Observe.antt =====
-- internal/lateral/detector.go: `Observe` up to the evaluation, and `trim`. `lower` and `trimmed` are
-- `strings.ToLower` and `strings.TrimSpace`.
pub mod Tracking
pub mod Attempts
use Prim.Native.String.{len, slice}
use text.Mathlib.Text.{starts_with}
use i_pulse.Base.{
  ℕ, ◌+◌, ◌-◌, Bool, true, false, not, ◌&&◌, ◌||◌, List, [], ◌∷◌, ◌++◌, String, Option, none, some,
  ltb, leb, ◌==◌, if◌then◌else◌, keep_if, get, put, retain, string_eq, nat_eq,
}
use i_pulse.Lateral.State.{Detector, Observation, ProcessState, Attempt}

-- The pattern without its star, if it ends in one.
abbrev pub before_star : String → Option String
before_star p =
    if string_eq.beq (slice p (len p - 1) (len p)) "*" then some (slice p 0 (len p - 1)) else none

abbrev pub names_process : String → String → Bool
names_process lower_process p = if string_eq.beq p "" then false else elim (before_star p) [
  | some stem ↦ starts_with lower_process stem
  | none ↦ string_eq.beq lower_process p
]

abbrev pub unattributed : String
unattributed = "(unattributed)"

abbrev pub name_of : String → String
name_of process = if string_eq.beq process "" then unattributed else process

abbrev pub empty_process : ProcessState
empty_process = record { pid = 0; exe = ""; user = ""; attempts = []; per_host = [] }

abbrev pub or_empty {ℓ} : {A : Type ℓ} → A → Option A → A
or_empty x none = x
or_empty x (some y) = y

-- What one observation adds to its process.
unfoldable pub fold_into : ProcessState → String → Observation → ProcessState
fold_into st host o =
    let attempt : Attempt = record { at = o.time; host = host; port = o.port; failed = o.failed } in
    let ports = or_empty [] (get host st.per_host) in
    record {
      pid = if ltb 0 o.pid then o.pid else st.pid;
      exe = if string_eq.beq o.exe "" then st.exe else o.exe;
      user = if string_eq.beq o.user "" then st.user else o.user;
      attempts = st.attempts ++ attempt ∷ [];
      per_host = put host (put o.port o.time ports) st.per_host;
    }

-- After the cutoff `now - window`, without the difference.
abbrev pub inside : ℕ → ℕ → ℕ → Bool
inside window now at = ltb now (at + window)

abbrev pub is_empty {ℓ} : {A : Type ℓ} → List A → Bool
is_empty [] = true
is_empty (x ∷ xs) = false

trim_ports : ℕ → ℕ → List (String × List (ℕ × ℕ)) → List (String × List (ℕ × ℕ))
trim_ports window now [] = []
trim_ports window now ((host, ports) ∷ rest) =
    let others = trim_ports window now rest in
    let kept = retain (λ port at. inside window now at) ports in
    if is_empty kept then others else (host, kept) ∷ others

trim_process : ℕ → ℕ → ProcessState → ProcessState
unfolding trim_ports
trim_process window now st = record st {
  attempts = keep_if (λ a. inside window now a.at) st.attempts;
  per_host = trim_ports window now st.per_host;
}

trim_tracked : ℕ → ℕ → List (String × ProcessState) → List (String × ProcessState)
unfolding trim_process
trim_tracked window now [] = []
trim_tracked window now ((name, st) ∷ rest) =
    let others = trim_tracked window now rest in
    let kept = trim_process window now st in
    if is_empty kept.attempts && is_empty kept.per_host then others else (name, kept) ∷ others

-- `trim`
unfoldable pub trim_detector : Detector → ℕ → Detector
unfolding trim_tracked
trim_detector d now = record d { tracked = trim_tracked d.window now d.tracked }

module _ (lower trimmed : String → String) where
  any_names : String → List String → Bool
  any_names lower_process [] = false
  any_names lower_process (p ∷ ps) =
      let rest = any_names lower_process ps in
      if names_process lower_process (lower (trimmed p)) then true else rest

  -- `allowed`
  unfoldable pub allowed : Detector → String → Bool
  unfolding any_names
  allowed d process =
      if string_eq.beq process "" then false else any_names (lower process) d.allow_processes

  -- One round of the loop of `Observe`.
  unfoldable pub observe_one : Detector → Observation → Detector
  unfolding fold_into
  observe_one d o = elim o.host [
    | none ↦ d
    | some host ↦
        if o.port == 0 || allowed d o.process
        then d
        else let name = name_of o.process in
          record d {
            tracked =
                put name (fold_into (or_empty empty_process (get name d.tracked)) host o) d.tracked;
          }
  ]

  unfoldable pub observe_all : Detector → List Observation → Detector
  observe_all d [] = d
  observe_all d (o ∷ os) = observe_all (observe_one d o) os
