-- ===== src/Connectivity/Classify/Reports.antt =====
-- internal/connectivity/classify.go: the conclusions as they are reported.
use i_pulse.Base.{◌≡◌, ◌↔◌, ◌⊎◌, true, false, arith}
use i_pulse.Connectivity.Evidence.{
  Classification, healthy, internet_outage, captive_portal, Evidence,
}
use i_pulse.Connectivity.Classify.{classify, is_failure, event_code}

-- Each conclusion counts as a failure unless it is the healthy one, since the ladder never
-- answers unknown.
pub is_failure-classify :
    (e : Evidence) → (is_failure (classify e) ≡ false) ↔ (classify e ≡ healthy)
unfolding classify is_failure
is_failure-classify e = (λ h. ground arith, λ h. ground arith)

-- Two classifications that share an event code are equal or both go by the generic code 3001; and
-- of the failures that the ladder concludes, those under the generic code are exactly the Internet
-- outage and the captive portal.
pub event_code-classify :
    (e : Evidence) (c d : Classification)
    → (event_code c ≡ event_code d → (c ≡ d) ⊎ (event_code c ≡ 3001))
      × ((is_failure (classify e) ≡ true) × (event_code (classify e) ≡ 3001)
          ↔ ((classify e ≡ internet_outage) ⊎ (classify e ≡ captive_portal)))
unfolding classify is_failure event_code
event_code-classify e c d = ground arith
