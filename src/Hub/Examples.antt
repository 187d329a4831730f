-- ===== src/Hub/Examples.antt =====
-- Tests of the two hubs, and their theorems at concrete inputs.
use rust_uma.Prelude.{
  ℕ, ◌<◌, ◌≤◌, ◌≡◌, ◌↔◌, ◌⊎◌, refl, true, false, none, some, List, [], ◌∷◌, arith, length, map,
  last_n, older, contains, Distinct, filterb, any, replicate, nat_eq,
}
use rust_uma.Model.{EventRecord, EventKey, UmaEvent, propose_price, unspecified, key, event_key_eq}
use rust_uma.Hub.Events
use rust_uma.Hub.Events.{
  snapshot, has_key, run, locks, sends, quiet, locked_events, latest_sequence,
}
use rust_uma.Hub.Events.Spec.{accept_all, remembered}
use rust_uma.Hub.Events.Refine.{run_refines, snapshot-Distinct}
use rust_uma.Hub.Frames
use rust_uma.Hub.Frames.{
  WireFrame, FrameHub, ok, err, lagged, resuming_after, publish_all, after, has_events_after,
}
use rust_uma.Hub.Frames.Replay.{after_complete, lagged_missed}

abbrev event : ℕ → UmaEvent
event tx =
    propose_price
      (record {
        block_number = 10;
        transaction_hash = replicate 32 tx;
        log_index = 3;
        upstream_received_at_us = 8;
        removed = false;
      })
      (record {
        requester = replicate 20 6;
        condition_id = replicate 32 10;
        ancillary = record { question_id = replicate 32 3; market_id = some 1 };
        proposed_price = replicate 32 5;
      })

abbrev event_record : ℕ → ℕ → EventRecord
event_record sequence tx = record {
  sequence = sequence;
  event = event tx;
  enrichment = none;
  price_outcome = unspecified;
}

-- The unit test of the source: a duplicate, then an eviction. Each call sends as soon as it has released the lock.
abbrev serial : List Events.Step
serial =
    locks (event_record 1 1)
    ∷ sends 1
    ∷ locks (event_record 2 1)
    ∷ locks (event_record 2 2)
    ∷ sends 2
    ∷ locks (event_record 3 3)
    ∷ sends 3
    ∷ []

event_ring_deduplicates_and_evicts :
    let (end, answers) = run (quiet (Events.new 2)) serial in
    (answers ≡ true ∷ false ∷ true ∷ true ∷ [])
    × (Events.bounds end.hub ≡ (2, 3))
    × (latest_sequence end.hub ≡ 3)
unfolding Events.new Events.run Events.insert_locked Events.admit Events.evict Events.bounds
event_ring_deduplicates_and_evicts = (refl, refl, refl)

-- Two calls release the lock and send in the other order.
abbrev racing : List Events.Step
racing = locks (event_record 1 1) ∷ locks (event_record 2 2) ∷ sends 2 ∷ sends 1 ∷ []

an_older_sequence_stays :
    let (end, answers) = run (quiet (Events.new 2)) racing in
    (Events.bounds end.hub ≡ (1, 2)) × (latest_sequence end.hub ≡ 1)
unfolding Events.new Events.run Events.insert_locked Events.admit Events.evict Events.bounds
an_older_sequence_stays = (refl, refl)

run_refines_example :
    let (end, answers) = run (quiet (Events.new 2)) racing in
    let (history, expected) = accept_all 2 [] (locked_events racing) in
    (answers ≡ expected)
    × (snapshot end.hub ≡ last_n 2 history)
    × ((k : EventKey) → has_key end.hub k ≡ contains k (remembered 2 history))
    × ((latest_sequence end.hub ≡ 0)
        ⊎ (contains (latest_sequence end.hub) (map (λ e. e.sequence) history) ≡ true))
run_refines_example = run_refines 2 racing

snapshot-Distinct_example :
    let hub = (run (quiet (Events.new 2)) serial).0.hub in
    Distinct (map key (snapshot hub)) × (length (snapshot hub) ≤ 2)
snapshot-Distinct_example = snapshot-Distinct 2 serial

abbrev frame : ℕ → ℕ → WireFrame
frame first last = record {
  batch_sequence = first;
  first_sequence = first;
  last_sequence = last;
  bytes = [];
}

abbrev frames : List WireFrame
frames = frame 1 2 ∷ frame 4 4 ∷ frame 5 6 ∷ frame 7 7 ∷ []

eviction_raises_the_replay_floor :
    let hub = publish_all (resuming_after 2 0) frames in
    (after hub 3 ≡ err lagged) × (after hub 4 ≡ ok (frame 5 6 ∷ frame 7 7 ∷ []))
unfolding resuming_after publish_all Frames.publish Frames.evict after
eviction_raises_the_replay_floor = (refl, refl)

after_complete_example :
    (0 ≤ 4) × ((frame 5 6 ∷ frame 7 7 ∷ []) ≡ filterb (has_events_after 4) frames)
unfolding resuming_after publish_all Frames.publish Frames.evict after
after_complete_example = after_complete 2 0 frames 4 (frame 5 6 ∷ frame 7 7 ∷ []) (omega arith) refl

lagged_missed_example :
    (after (publish_all (resuming_after 2 0) frames) 3 ≡ err lagged)
    ↔ ((0 < 3) × ((3 < 0) ⊎ (any (has_events_after 3) (older 2 frames) ≡ true)))
lagged_missed_example = lagged_missed 2 0 frames 3
