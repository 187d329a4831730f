-- ===== src/Pipeline/Examples.antt =====
-- Tests of the pipeline, and its theorems at concrete inputs: two feeds that bring two events.
use rust_uma.Prelude.{
  ℕ, ◌≤◌, ◌≡◌, refl, true, false, if◌then◌else◌, ◌==◌, ◌+◌, Option, All, none, some, List, [], ◌∷◌,
  ◌++◌, map, length, replicate, arith,
}
use rust_uma.Model.{
  UmaEvent, propose_price, MarketEnrichment, EventRecord, from_propose_price, resolved_condition_id,
}
use rust_uma.Hub.Events
use rust_uma.Hub.Frames.{FrameHub, WireFrame, publish, after, ok}
use rust_uma.Hub.Frames
use rust_uma.Enrichment.{Catalog, get, get_by_market_id, resolve}
use rust_uma.Forfeit.{lookup_match}
use rust_uma.Forfeit.Marks.{marks}
use rust_uma.Pipeline.Processor.{
  Processor, Stats, Machine, Event, arrives, goes_on, record_source_race, push_recent,
  record_recent_enrichment, look, number, accept, broadcast, process, advance, advance_at, step,
  run,
}
use rust_uma.Pipeline.Processor.Outcome.{process_lem, to_broadcast, to_store, if_room}
use rust_uma.Pipeline.Processor.Numbers.{sent, run-sent_once}
use rust_uma.Pipeline.Processor.Tally.{run-IsTallied, IsTallied, open_calls}
use rust_uma.Pipeline.Processor.{recent_enrichment_window}
use rust_uma.Pipeline.Processor.Recent.{push_outcomes, hits_of, push_outcomes_lem}
use rust_uma.Prelude.{last_n}
use rust_uma.Hub.Frames.{WireFrame, resuming_after, publish_all}
use rust_uma.Pipeline.Batcher.{Limits, take_more, next_batch, batches, send_batches}
use rust_uma.Pipeline.Batcher.Batches.{batches_in_order, concat, pending_list, IsBatch, frames_from}

abbrev market : MarketEnrichment
market = record {
  market_id = 42;
  condition_id = replicate 32 9;
  token_ids = [];
  tag_ids = [];
  category = 0;
  bet_type = 0;
  neg_risk = false;
}

abbrev catalog : Catalog
catalog = record {
  by_condition = (replicate 32 9, market) ∷ [];
  market_to_condition = (42, replicate 32 9) ∷ [];
  max_market_id = 42;
}

abbrev event_at : ℕ → UmaEvent
event_at index =
    propose_price
      (record {
        block_number = 10;
        transaction_hash = replicate 32 7;
        log_index = index;
        upstream_received_at_us = 1;
        removed = false;
      })
      (record {
        requester = [];
        condition_id = replicate 32 3;
        ancillary = record { question_id = []; market_id = some 42 };
        proposed_price = replicate 32 0;
      })

abbrev no_stats : Stats
no_stats = record {
  rpc_logs_received = 0;
  last_upstream_received_at_us = 0;
  decode_errors = 0;
  duplicates = 0;
  enrichment_hits = 0;
  enrichment_hits_via_market_id = 0;
  enrichment_misses = 0;
  enrichment_recent_hits = 0;
  enrichment_recent_total = 0;
  events_decoded = 0;
  latest_block = 0;
  storage_queue_dropped = 0;
  source_race = [];
}

abbrev processor : Processor
processor = record {
  catalog = catalog;
  events = record { capacity = 16; events = []; keys = []; latest = 0 };
  batches = [];
  storage = [];
  stats = no_stats;
  forfeit = record {
    enabled = false;
    ttl_us = 0;
    index = [];
    state = record {
      matches = [];
      recent_blocked = [];
      last_feed_sequence = 0;
      blocked_events_total = 0;
    };
  };
  sequence = 0;
  recent_enrichment = [];
}

abbrev machine : Machine
machine = record { processor = processor; calls = [] }

-- The second event overtakes the first between its number and the ring.
abbrev overtaking : List Event
overtaking =
    arrives (some (event_at 1)) 1 "a"
    ∷ goes_on 0 true 2
    ∷ arrives (some (event_at 2)) 1 "b"
    ∷ goes_on 1 true 2
    ∷ goes_on 1 true 2
    ∷ goes_on 1 true 2
    ∷ goes_on 0 true 2
    ∷ goes_on 0 true 2
    ∷ []

a_later_number_is_sent_first :
    map (λ r. r.sequence) (run marks machine overtaking).processor.batches ≡ 2 ∷ 1 ∷ []
unfolding run step look number accept broadcast advance advance_at record_source_race
    record_recent_enrichment push_recent resolve get_by_market_id get lookup_match
    resolved_condition_id from_propose_price Events.insert Events.insert_locked Events.admit
    Events.evict
a_later_number_is_sent_first = refl

-- A client that has read the frame of event 2 resumes there, and the frame of event 1, which came
-- after it, is not in its replay.
abbrev frame_of : ℕ → ℕ → WireFrame
frame_of batch sequence = record {
  batch_sequence = batch;
  first_sequence = sequence;
  last_sequence = sequence;
  bytes = [];
}

an_overtaken_event_is_not_replayed :
    after (publish (publish (Frames.new 8) (frame_of 1 2)) (frame_of 2 1)) 2 ≡ ok []
unfolding after publish Frames.new Frames.resuming_after Frames.evict
an_overtaken_event_is_not_replayed = refl

run-sent_once_example : sent 1 (run marks machine overtaking).processor ≤ 1
run-sent_once_example = run-sent_once marks machine overtaking 1 refl refl (omega arith)

run-IsTallied_example :
    IsTallied
      (run marks machine overtaking).processor.stats
      (open_calls (run marks machine overtaking).calls)
run-IsTallied_example = run-IsTallied marks machine overtaking (omega arith) (refl, omega arith)

process_lem_example :
    let p' = process marks processor (some (event_at 1)) 1 "a" true 2 in
    (p'.batches ≡ to_broadcast processor (some (event_at 1)))
    × (p'.storage ≡ if_room true (to_store processor (some (event_at 1))))
process_lem_example = process_lem marks processor (some (event_at 1)) 1 "a" true 2

abbrev records : List EventRecord
records =
    map
      (λ n. record {
        sequence = n;
        event = event_at n;
        enrichment = some market;
        price_outcome = from_propose_price (replicate 32 0);
      })
      (1 ∷ 2 ∷ 3 ∷ 4 ∷ [])

-- Up to two events and 10 bytes: event 3 alone is over the limit.
abbrev small_limits : Limits
small_limits = record { batch_max_events = 2; batch_max_bytes = 10 }

abbrev len_of : EventRecord → ℕ
len_of r = if r.sequence == 3 then 20 else 4

three_batches :
    map (λ b. map (λ r. r.sequence) b) (batches len_of small_limits 4 none records)
    ≡ (1 ∷ 2 ∷ []) ∷ (3 ∷ []) ∷ (4 ∷ []) ∷ []
unfolding batches next_batch take_more
three_batches = refl

-- The encoder refuses the batch of two events.
abbrev encode_small : ℕ → List EventRecord → Option WireFrame
encode_small n (r ∷ []) = some (record {
  batch_sequence = n;
  first_sequence = r.sequence;
  last_sequence = r.sequence;
  bytes = [];
})
encode_small n _ = none

batches_in_order_example :
    let waiting = pending_list none ++ records in
    let bs = batches len_of small_limits (length waiting) none records in
    (concat bs ≡ waiting)
    × All (IsBatch len_of small_limits) bs
    × (send_batches encode_small 7 (resuming_after 4 0) bs ≡ (
      7 + length bs,
      publish_all (resuming_after 4 0) (frames_from len_of small_limits encode_small 8 bs),
    ))
batches_in_order_example =
    batches_in_order len_of small_limits encode_small 7 (resuming_after 4 0) none records
      (omega arith)

push_outcomes_lem_example :
    let outcomes = true ∷ false ∷ true ∷ [] in
    let (window, hits) = push_outcomes [] 0 outcomes in
    (window ≡ last_n recent_enrichment_window outcomes)
    × (hits ≡ hits_of (last_n recent_enrichment_window outcomes))
push_outcomes_lem_example = push_outcomes_lem (true ∷ false ∷ true ∷ [])
