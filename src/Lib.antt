-- ===== src/Lib.antt =====
-- iPulse: an agent that monitors a host's network connection. This library models the parts of it that
-- decide something and proves what makes those decisions right. Paths are from the repository's root.
--
-- The parts and how they interact. Probes gather evidence about the layers of the connection; the
-- ladder turns it into one classification, and the tracker turns the classifications of successive
-- checks into outages (Connectivity). The agent's scheduler runs such work task by task and counts how
-- it ends, and a queue of bounded length takes the samples to the analysis (Agent). What is measured
-- is folded into a baseline for its time of the week (Baseline), with the statistics of the recent
-- values (Util), and a detector compares each new value with the baseline before it. Every detector
-- passes its condition through a gate that asks for persistence and a cooldown (Anomaly). The counters
-- of the interfaces, chosen by glob patterns (Util), become rates, and traffic is summed over rolling
-- windows, less the transfers that iPulse makes itself (Traffic). What a detector decides becomes an
-- event by a catalog of codes (Events), whose text is made safe to log (Security). Events and samples
-- are signals of the correlation engine, which replaces several symptoms by one conclusion
-- (Correlation). Measured paths are compared hop by hop (Routing). Connections to internal hosts go to
-- the detector of scans and sweeps (Lateral). The API lets a client start diagnostics only at a
-- limited rate (Api).
--
-- Which file models what:
--   Base: tests on numbers, lists, signed integers, floats, maps and sliding windows that the parts share.
--   Fixtures: whole numbers, a calendar and texts that stand in for foreign code in the examples.
--   Util/Stats, Glob: internal/util/stats.go, and `MatchGlob` and `MatchesAnyGlob` of addr.go.
--   Baseline/Engine: internal/baseline/engine.go. Engine has `New`, `BucketFor`, `Observe` and `Get`,
--     Aggregate `GetAggregate` and `Best`, Storage `TakeDirty`, `Load` and `Prune`.
--   Agent/Scheduler: internal/agent/scheduler.go. `execute` is one run of a task, `serve` one round of
--     the loop of `runTask`, `run_loop` the loop over everything that its select receives.
--   Agent/Bus: internal/agent/bus.go, as steps on the queue.
--   Connectivity/Evidence, Classify, Tracker: internal/connectivity/classify.go and tracker.go. `classify`
--     is `Classify`; a tracker's `observe` is `Record`, and its result is the transition.
--   Anomaly/Gate: internal/anomaly/gate.go. `breach`, `clear` and `observe` are the methods; a `cell`
--     is the state of one key.
--   Anomaly/Rules, Sustained, QuietHours: internal/anomaly/rules.go. `judge` is the end that both
--     `Evaluate` methods share; `observe_sample` is `Observe` on the state of one dimension.
--   Traffic/Window, SelfTraffic, Sampler: internal/traffic/window.go, selftraffic.go and sampler.go.
--   Routing: `Compare`, `HopCount` and `Addresses` of internal/routing/traceroute.go.
--   Security/Sanitize: internal/security/sanitize.go, on code points.
--   Events/Category, Severity, Definition, Catalog, Event: internal/events/category.go, severity.go,
--     catalog.go, catalog_defs.go and event.go. Catalog/Table has every definition of the catalog, and
--     the run of `init` over them.
--   Correlation/Window, View, Engine: internal/correlation/window.go, engine.go and the types of rules.go.
--   Lateral: internal/lateral/detector.go. Observe folds connections in and trims, Evaluate applies the
--     thresholds, Grade is `confidenceFor`, Report the cooldown of each finding.
--   Api/RateLimit: `rateLimiter` of internal/api/api.go.
-- A method that changes its receiver returns the new record, with its result beside it. A part's
-- Examples module has runs at concrete inputs.
--
-- Bounds. Instants and durations are nanoseconds since Go's zero time, without the wrap at 2 ^ 63 that
-- no such instant reaches; a difference that may be negative is an integer, and a cutoff `now - d` is
-- compared by adding d on the other side. Counters are not wrapped. Only the digits of a code point
-- are written with fuel: six hexadecimal digits hold every code point. A map is an association list;
-- where Go's order of iteration is open, that of the list stands for it.
--
-- Parameters. Floats, Unicode tables, UTF-8 decoding, upper and lower case, the calendar, encoding/json
-- and addresses of `net/netip` are arguments of the definitions that use them, the measured value of a
-- signal a type. float64 has its operations and no laws; two statements name what they rely on: that the
-- rank of a percentile does not exceed the last index, and that a window is read back as it was written.
-- The scaling of own traffic by a float quotient has one hypothesis, that a part of a count is at most
-- the count. The work of a task is an outcome and a duration, any of which may be received.
--
-- Not modelled: probes, the operating system, the database, logging, configuration files, the API's
-- server and the command line, which are input and output; health, latency and speed tests, which are
-- float statistics; the built-in correlation rules, threat intelligence, and the trackers of interface
-- state, connections and destinations. Locks are left out: each method is one step, as the mutex of
-- its receiver makes it.
pub mod Base
pub mod Connectivity
pub mod Anomaly
pub mod Traffic
pub mod Routing
pub mod Security
pub mod Correlation
pub mod Events
pub mod Lateral
pub mod Api
pub mod Agent
pub mod Util
pub mod Fixtures
pub mod Baseline
