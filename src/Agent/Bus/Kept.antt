-- ===== src/Agent/Bus/Kept.antt =====
-- internal/agent/bus.go: which batches the analysis gets, and in which order.
use mathlib.Core.Path.{subst}
use i_pulse.Base.{
  ℕ, ◌+◌, ◌-◌, ◌≤◌, ◌≡◌, Bool, inl, inr, refl, ap, sym, ◌∙◌, true, false, List, [], ◌∷◌, ◌++◌, map,
  arith, Bool-cases, ltb, if◌then◌else◌, length, length-append,
}
use i_pulse.Agent.Bus.{
  Observation, Bus, Step, published, received, ended, sample_queue_depth, new_bus, stamp,
  is_ignored, publish_samples, dispatch_first, drain, step,
}
use i_pulse.Agent.Bus.Accepted.{run, batches, is_over, waiting, accepted}

module _ {A : Type 0} where
  append_assoc : (a b c : List A) → a ++ b ++ c ≡ a ++ (b ++ c)
  append_assoc [] b c = refl
  append_assoc (x ∷ a) b c = ap (λ l. x ∷ l) (append_assoc a b c)

  append_nil : (a : List A) → a ++ [] ≡ a
  append_nil [] = refl
  append_nil (x ∷ a) = ap (λ l. x ∷ l) (append_nil a)

module _ {V : Type 0} (consumers : ℕ) where
  -- The state of the bus after all the batches, of which some were accepted and so many wait.
  pub record Keeps (b : Bus V) (all taken : List (List (Observation V))) (n : ℕ) (over : Bool)
      : Type 0 where
    pub same_consumers : b.consumers ≡ consumers
    pub waits : length b.queue ≡ n
    pub bounded : n ≤ sample_queue_depth
    pub is_done : b.done ≡ over
    pub counted : b.samples_dropped + length taken ≡ length all
    pub in_order : b.delivered ++ b.queue ≡ taken

  new-Keeps : Keeps (new_bus consumers) [] [] 0 false
  unfolding new_bus
  new-Keeps = record {
    same_consumers = refl;
    waits = refl;
    bounded = omega arith;
    is_done = refl;
    counted = omega arith;
    in_order = refl;
  }

  queue-Keeps :
      (b : Bus V) (all taken : List (List (Observation V))) (n : ℕ) (over : Bool)
      (batch : List (Observation V))
      → ltb n sample_queue_depth ≡ true
      → Keeps b all taken n over
      → Keeps
          (record b { queue = b.queue ++ batch ∷ [] })
          (all ++ batch ∷ [])
          (taken ++ batch ∷ [])
          (n + 1)
          over
  queue-Keeps b all taken n over batch room h = record {
    same_consumers = h.same_consumers;
    waits = omega (arith, h.waits, length-append b.queue (batch ∷ []));
    bounded = ground (arith, room);
    is_done = h.is_done;
    counted =
        omega (arith, h.counted, length-append all (batch ∷ []), length-append taken (batch ∷ []));
    in_order =
        sym (append_assoc b.delivered b.queue (batch ∷ [])) ∙ ap (λ l. l ++ batch ∷ []) h.in_order;
  }

  drop-Keeps :
      (b : Bus V) (all taken : List (List (Observation V))) (n : ℕ) (over : Bool)
      (batch : List (Observation V))
      → Keeps b all taken n over
      → Keeps
          (record b { samples_dropped = b.samples_dropped + 1 })
          (all ++ batch ∷ [])
          taken
          n
          over
  drop-Keeps b all taken n over batch h = record {
    same_consumers = h.same_consumers;
    waits = h.waits;
    bounded = h.bounded;
    is_done = h.is_done;
    counted = omega (arith, h.counted, length-append all (batch ∷ []));
    in_order = h.in_order;
  }

  publish-Keeps :
      (b : Bus V) (all taken : List (List (Observation V))) (n : ℕ) (over : Bool) (now : ℕ)
      (ss : List (Observation V))
      → Keeps b all taken n over
      → let off = is_ignored consumers ss in
        let room = ltb n sample_queue_depth in
        let batch = map (stamp now) ss in
        Keeps
          (publish_samples b now ss)
          (if off then all else all ++ batch ∷ [])
          (if off then taken else if room then taken ++ batch ∷ [] else taken)
          (if off then n else if room then n + 1 else n)
          over
  unfolding publish_samples
  publish-Keeps b all taken n over now ss h =
      let same : is_ignored b.consumers ss ≡ is_ignored consumers ss =
        ap (λ c. is_ignored c ss) h.same_consumers in
      let full : ltb (length b.queue) sample_queue_depth ≡ ltb n sample_queue_depth =
        ap (λ k. ltb k sample_queue_depth) h.waits in
      elim (Bool-cases (is_ignored consumers ss)) [
        | inl off ↦ let off_b = same ∙ off in simp (off_b, off) h
        | inr on ↦
            let on_b = same ∙ on in
            elim (Bool-cases (ltb n sample_queue_depth)) [
              | inl room ↦
                  let room_b = full ∙ room in
                  simp (on_b, on, room_b, room)
                    (queue-Keeps b all taken n over (map (stamp now) ss) room h)
              | inr none_left ↦
                  let full_b = full ∙ none_left in
                  simp (on_b, on, full_b, none_left)
                    (drop-Keeps b all taken n over (map (stamp now) ss) h)
            ]
      ]

  dispatch-Keeps :
      (b : Bus V) (all taken : List (List (Observation V))) (n : ℕ)
      (queue : List (List (Observation V)))
      → b.queue ≡ queue
      → Keeps b all taken n false
      → Keeps (dispatch_first b queue) all taken (n - 1) false
  dispatch-Keeps b all taken n [] e h = record {
    same_consumers = h.same_consumers;
    waits = omega (arith, h.waits, ap length e);
    bounded = omega (arith, h.bounded);
    is_done = h.is_done;
    counted = h.counted;
    in_order = h.in_order;
  }
  dispatch-Keeps b all taken n (batch ∷ rest) e h = record {
    same_consumers = h.same_consumers;
    waits = omega (arith, h.waits, ap length e);
    bounded = omega (arith, h.bounded);
    is_done = h.is_done;
    counted = h.counted;
    in_order =
        append_assoc b.delivered (batch ∷ []) rest
        ∙ ap (λ l. b.delivered ++ l) (sym e)
        ∙ h.in_order;
  }

  drain-Keeps :
      (b : Bus V) (all taken : List (List (Observation V))) (n : ℕ) (over : Bool)
      → Keeps b all taken n over
      → Keeps (drain b) all taken 0 true
  drain-Keeps b all taken n over h = record {
    same_consumers = h.same_consumers;
    waits = refl;
    bounded = omega arith;
    is_done = refl;
    counted = h.counted;
    in_order = append_nil (b.delivered ++ b.queue) ∙ h.in_order;
  }

  run-Keeps :
      (ss : List (Step V))
      → Keeps
          (run consumers ss)
          (batches consumers ss)
          (accepted consumers ss)
          (waiting consumers ss)
          (is_over consumers ss)
  unfolding run batches accepted waiting is_over step
  run-Keeps [] = new-Keeps
  run-Keeps (published now xs ∷ ss) =
      publish-Keeps (run consumers ss) (batches consumers ss) (accepted consumers ss)
        (waiting consumers ss) (is_over consumers ss) now xs (run-Keeps ss)
  run-Keeps (received ∷ ss) =
      let h = run-Keeps ss in
      elim (Bool-cases (is_over consumers ss)) [
        | inl over ↦
            let done = h.is_done ∙ over in
            simp (over, done)
              (subst
                (Keeps (run consumers ss) (batches consumers ss) (accepted consumers ss)
                  (waiting consumers ss))
                over h)
        | inr on ↦
            let going = h.is_done ∙ on in
            simp (on, going)
              (dispatch-Keeps (run consumers ss) (batches consumers ss) (accepted consumers ss)
                (waiting consumers ss) (run consumers ss).queue refl
                (subst
                  (Keeps (run consumers ss) (batches consumers ss) (accepted consumers ss)
                    (waiting consumers ss))
                  on h))
      ]
  run-Keeps (ended ∷ ss) =
      let h = run-Keeps ss in
      elim (Bool-cases (is_over consumers ss)) [
        | inl over ↦
            let done = h.is_done ∙ over in
            simp (over, done)
              (subst
                (Keeps (run consumers ss) (batches consumers ss) (accepted consumers ss)
                  (waiting consumers ss))
                over h)
        | inr on ↦
            let going = h.is_done ∙ on in
            simp (on, going)
              (drain-Keeps (run consumers ss) (batches consumers ss) (accepted consumers ss)
                (waiting consumers ss) (is_over consumers ss) h)
      ]

  -- Over any steps of a new queue, it behaves as one of bounded length: a batch is accepted exactly when it
  -- finds fewer than 512 waiting and dropped itself otherwise, a reception takes one away, if there is
  -- one, and the end of the agent all of them, both until that end only; so many batches wait as this
  -- count says, at most 512; those that were dispatched, followed by those that wait, are the accepted
  -- ones in their order; the rest of the published ones are counted as dropped; and the analysis is
  -- done exactly when the end of the agent was received.
  pub run-keeps :
      (ss : List (Step V))
      → let b = run consumers ss in
        (b.delivered ++ b.queue ≡ accepted consumers ss)
        × (length b.queue ≡ waiting consumers ss)
        × (waiting consumers ss ≤ 512)
        × (b.samples_dropped + length (accepted consumers ss) ≡ length (batches consumers ss))
        × (b.done ≡ is_over consumers ss)
  run-keeps ss = let h = run-Keeps ss in (h.in_order, h.waits, h.bounded, h.counted, h.is_done)

  -- A batch that finds the queue full is itself the one that is dropped: what waits stays as it was.
  pub publish-full :
      (b : Bus V) (now : ℕ) (ss : List (Observation V))
      → length b.queue ≡ sample_queue_depth
      → ((publish_samples b now ss).queue ≡ b.queue)
        × ((publish_samples b now ss).delivered ≡ b.delivered)
  unfolding publish_samples
  publish-full b now ss full =
      let no_room : ltb (length b.queue) sample_queue_depth ≡ false = ground (arith, full) in
      elim (Bool-cases (is_ignored b.consumers ss)) [
        | inl off ↦ simp off (refl, refl)
        | inr on ↦ simp (on, no_room) (refl, refl)
      ]
