-- ===== src/Agent/Bus.antt =====
-- internal/agent/bus.go: the queue of samples between the collectors and the analysis. A step is a
-- publication, a round of the analysis goroutine, or the end of the agent; what the consumers do with a
-- batch is theirs, and a panic of one is contained, so a batch counts as delivered once it is dispatched.
pub mod Accepted
pub mod Kept
use i_pulse.Base.{
  ℕ, ◌+◌, Bool, true, false, ◌||◌, List, [], ◌∷◌, ◌++◌, map, String, ltb, ◌==◌, if◌then◌else◌,
  length,
}

module _ (V : Type 0) where
  pub record Observation : Type 0 where
    pub time : ℕ
    pub metric : String
    pub target : String
    pub value : V
    pub valid : Bool

  -- The fields of the agent that the queue uses, with the batches that were dispatched.
  pub record Bus : Type 0 where
    pub consumers : ℕ
    pub queue : List (List Observation)
    pub samples_dropped : ℕ
    pub delivered : List (List Observation)
    pub done : Bool

  -- What happens: a publication at an instant, a batch received by the analysis, the end of the agent.
  pub data Step : Type 0 where
    published : ℕ → List Observation → Step
    received ended : Step

abbrev pub sample_queue_depth : ℕ
sample_queue_depth = 512

module _ {V : Type 0} where
  unfoldable pub new_bus : ℕ → Bus V
  new_bus consumers = record {
    consumers = consumers;
    queue = [];
    samples_dropped = 0;
    delivered = [];
    done = false;
  }

  -- A sample without a time gets that of its publication.
  abbrev pub stamp : ℕ → Observation V → Observation V
  stamp now s = record s { time = if s.time == 0 then now else s.time }

  abbrev pub is_ignored : ℕ → List (Observation V) → Bool
  is_ignored consumers ss = consumers == 0 || length ss == 0

  -- `publishSamples`
  unfoldable pub publish_samples : Bus V → ℕ → List (Observation V) → Bus V
  publish_samples b now ss =
      if is_ignored b.consumers ss
      then b
      else if ltb (length b.queue) sample_queue_depth
      then record b { queue = b.queue ++ map (stamp now) ss ∷ [] }
      else record b { samples_dropped = b.samples_dropped + 1 }

  -- The analysis goroutine receives and dispatches the oldest batch; it waits if there is none.
  abbrev pub dispatch_first : Bus V → List (List (Observation V)) → Bus V
  dispatch_first b [] = b
  dispatch_first b (batch ∷ rest) = record b { queue = rest; delivered = b.delivered ++ batch ∷ [] }

  -- Its end: it drains the queue.
  abbrev pub drain : Bus V → Bus V
  drain b = record b { queue = []; delivered = b.delivered ++ b.queue; done = true }

  -- `runAnalysis`, on one step.
  unfoldable pub step : Bus V → Step V → Bus V
  step b (published now ss) = publish_samples b now ss
  step b received = if b.done then b else dispatch_first b b.queue
  step b ended = if b.done then b else drain b
