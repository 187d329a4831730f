-- ===== src/Pipeline/Processor.antt =====
-- `Processor` of src/pipeline.rs and the counters of src/stats.rs that it writes. Several feeds call
-- `process` at once: each of its three parts is a step, the atomic counter and each lock are used in
-- one part only. What `decode_signal_log` makes of a log is an argument, `none` for an error.
use rust_uma.Prelude.{
  ℕ, suc, zero, ◌+◌, ◌-◌, ◌==◌, Bool, true, false, not, ◌&&◌, Option, none, some, List, [], ◌∷◌,
  ◌++◌, String, string_eq, ◌=?◌, if◌then◌else◌, ltb, max, length, lookup, insert, u64_add, Bytes,
  ◌≡◌,
}
use rust_uma.Model.{
  UmaEvent, EventKind, propose, dispute, EventKey, EventRecord, PriceOutcome, unspecified,
  MarketEnrichment, PriceRequest, PolymarketAncillary, kind, chain, request, from_propose_price,
  resolved_condition_id,
}
use rust_uma.Hub.Events.{EventHub, has_key}
use rust_uma.Hub.Events
use rust_uma.Enrichment.{Catalog, resolve}
use rust_uma.Forfeit.{ForfeitBlocklist, Hex, lookup_match}
use rust_uma.Forfeit.Feed.{record_blocked}
pub mod Tally
pub mod Recent
pub mod Numbers
pub mod Outcome

pub record SourceRace : Type 0 where
  pub received : ℕ
  pub won : ℕ

pub record Stats : Type 0 where
  pub rpc_logs_received : ℕ
  pub last_upstream_received_at_us : ℕ
  pub decode_errors : ℕ
  pub duplicates : ℕ
  pub enrichment_hits : ℕ
  pub enrichment_hits_via_market_id : ℕ
  pub enrichment_misses : ℕ
  pub enrichment_recent_hits : ℕ
  pub enrichment_recent_total : ℕ
  pub events_decoded : ℕ
  pub latest_block : ℕ
  pub storage_queue_dropped : ℕ
  pub source_race : List (String × SourceRace)

-- A command for the writer of the log.
pub data StorageCommand : Type 0 where
  store_event : EventRecord → StorageCommand
  store_checkpoint : ℕ → StorageCommand

-- `storage` and `batches` are what was sent on the two channels.
pub record Processor : Type 0 where
  pub catalog : Catalog
  pub events : EventHub
  pub batches : List EventRecord
  pub storage : List StorageCommand
  pub stats : Stats
  pub forfeit : ForfeitBlocklist
  pub sequence : ℕ
  pub recent_enrichment : List Bool

-- An event between the parts of `process`.
pub record Draft : Type 0 where
  pub source : String
  pub event_record : EventRecord

abbrev pub recent_enrichment_window : ℕ
recent_enrichment_window = 1000

abbrev pub or_default : Option SourceRace → SourceRace
or_default none = record { received = 0; won = 0 }
or_default (some r) = r

unfoldable pub record_source_race : String → Bool → Stats → Stats
record_source_race source won s =
    let old = or_default (lookup source s.source_race) in
    record s {
      source_race =
          insert source
            (record {
              received = u64_add old.received 1;
              won = if won then u64_add old.won 1 else old.won;
            })
            s.source_race;
    }

abbrev pub is_some {ℓ} : {A : Type ℓ} → Option A → Bool
is_some none = false
is_some (some a) = true

-- `pop_front`, which takes a hit off the count.
abbrev pub drop_oldest : List Bool → ℕ → List Bool × ℕ
drop_oldest [] hits = ([], hits)
drop_oldest (hit ∷ window) hits = (window, if hit then hits - 1 else hits)

-- The window, and the number of its hits.
unfoldable pub push_recent : Bool → List Bool → ℕ → List Bool × ℕ
push_recent hit window hits =
    let longer = window ++ (hit ∷ []) in
    let more = if hit then u64_add hits 1 else hits in
    if ltb recent_enrichment_window (length longer) then drop_oldest longer more else (longer, more)

abbrev pub key_of : UmaEvent → EventKey
key_of e = record {
  transaction_hash = (chain e).transaction_hash;
  log_index = (chain e).log_index;
  removed = (chain e).removed;
}

abbrev pub outcome_of : EventKind → Bytes → PriceOutcome
outcome_of propose price = from_propose_price price
outcome_of dispute price = unspecified

unfoldable pub duplicate : String → Processor → Processor
duplicate source p = record p {
  stats =
      record_source_race source false
        (record p.stats { duplicates = u64_add p.stats.duplicates 1 });
}

abbrev pub count_enrichment : Option ℕ → Bool → Stats → Stats
count_enrichment market_id false s = record s { enrichment_misses = u64_add s.enrichment_misses 1 }
count_enrichment market_id true s = record s {
  enrichment_hits = u64_add s.enrichment_hits 1;
  enrichment_hits_via_market_id =
      if is_some market_id
      then u64_add s.enrichment_hits_via_market_id 1
      else s.enrichment_hits_via_market_id;
}

unfoldable pub record_recent_enrichment : Bool → Processor → Processor
record_recent_enrichment hit p =
    let (window, hits) = push_recent hit p.recent_enrichment p.stats.enrichment_recent_hits in
    record p {
      recent_enrichment = window;
      stats = record p.stats {
        enrichment_recent_hits = hits;
        enrichment_recent_total = length window;
      };
    }

abbrev pub look_up : Processor → Option UmaEvent → String → Processor × Option UmaEvent
look_up p none source =
    (record p { stats = record p.stats { decode_errors = u64_add p.stats.decode_errors 1 } }, none)
look_up p (some decoded) source =
    if has_key p.events (key_of decoded) then (duplicate source p, none) else (p, some decoded)

-- From the log to an event that the ring does not hold: an undecodable log and a known event end here.
unfoldable pub look : Processor → Option UmaEvent → ℕ → String → Processor × Option UmaEvent
look p decoded received_at_us source =
    look_up
      (record p {
        stats = record p.stats {
          rpc_logs_received = u64_add p.stats.rpc_logs_received 1;
          last_upstream_received_at_us = received_at_us;
        };
      })
      decoded source

-- The market of the event, and its number.
unfoldable pub number : Processor → UmaEvent → String → Processor × Draft
number p decoded source =
    let market_id = (request decoded).ancillary.market_id in
    let enrichment = resolve p.catalog market_id (request decoded).condition_id in
    let looked = record_recent_enrichment (is_some enrichment) p in
    let sequence = u64_add p.sequence 1 in
    (
      record looked {
        stats = count_enrichment market_id (is_some enrichment) looked.stats;
        sequence = sequence;
      },
      record {
        source = source;
        event_record = record {
          sequence = sequence;
          event = decoded;
          enrichment = enrichment;
          price_outcome = outcome_of (kind decoded) (request decoded).proposed_price;
        };
      },
    )

abbrev pub send_storage : Bool → StorageCommand → Processor → Processor
send_storage true command p = record p { storage = p.storage ++ (command ∷ []) }
send_storage false command p = record p {
  stats = record p.stats { storage_queue_dropped = u64_add p.stats.storage_queue_dropped 1 };
}

-- The part that takes the event into the ring. What the ring sends on its watch channel is not read
-- here, so that its sending is no step of its own. `has_room` is whether the channel of the writer takes a
-- command now. What is left to broadcast comes back.
unfoldable pub accept : Processor → Draft → Bool → Processor × Option EventRecord
accept p d has_room =
    let (events, is_new) = Events.insert p.events d.event_record in
    let s = record_source_race d.source true p.stats in
    let taken = record p {
      events = events;
      stats = record s {
        events_decoded = u64_add s.events_decoded 1;
        latest_block = max s.latest_block (chain d.event_record.event).block_number;
      };
    } in
    if is_new
    then (
      send_storage has_room (store_event d.event_record) taken,
      if is_some d.event_record.enrichment then some d.event_record else none,
    )
    else (duplicate d.source p, none)

unfoldable pub checkpoint : Processor → ℕ → Bool → Processor
checkpoint p block has_room = send_storage has_room (store_checkpoint block) p

-- A call of `process` that has begun.
pub data Call : Type 0 where
  looked : UmaEvent → String → Call
  drafted : Draft → Call
  accepted : EventRecord → Call
  finished : Call

-- The processor and the calls that have begun, the oldest first.
pub record Machine : Type 0 where
  pub processor : Processor
  pub calls : List Call

-- A log arrives and its call begins, or the call at a place goes on.
pub data Event : Type 0 where
  arrives : Option UmaEvent → ℕ → String → Event
  goes_on : ℕ → Bool → ℕ → Event

abbrev pub after_look : Option UmaEvent → String → Call
after_look none source = finished
after_look (some e) source = looked e source

abbrev pub after_accept : Option EventRecord → Call
after_accept none = finished
after_accept (some r) = accepted r

module _ (H : Hex) where
  abbrev pub broadcast_or_hold : Option ℕ → Processor → EventRecord → ℕ → Processor
  broadcast_or_hold none p r now = record p { batches = p.batches ++ (r ∷ []) }
  broadcast_or_hold (some match_id) p r now = record p {
    forfeit = record_blocked H p.forfeit r match_id now;
  }

  -- The part that broadcasts, or holds the event back for a forfeited match. `now` is the clock's reading.
  unfoldable pub broadcast : Processor → EventRecord → ℕ → Processor
  broadcast p r now = broadcast_or_hold (lookup_match p.forfeit (resolved_condition_id r)) p r now

  abbrev pub accepted_then : Processor × Option EventRecord → ℕ → Processor
  accepted_then (p, none) now = p
  accepted_then (p, some r) now = broadcast p r now

  abbrev pub looked_then : Processor × Option UmaEvent → String → Bool → ℕ → Processor
  looked_then (p, none) source has_room now = p
  looked_then (p, some e) source has_room now =
      let (p', d) = number p e source in accepted_then (accept p' d has_room) now

  -- The whole of `process`, when no other call comes between.
  unfoldable pub process : Processor → Option UmaEvent → ℕ → String → Bool → ℕ → Processor
  process p decoded received_at_us source has_room now =
      looked_then (look p decoded received_at_us source) source has_room now

  -- The next part of a call.
  unfoldable pub advance : Processor → Call → Bool → ℕ → Processor × Call
  advance p (looked e source) has_room now = let (p', d) = number p e source in (p', drafted d)
  advance p (drafted d) has_room now = let (p', o) = accept p d has_room in (p', after_accept o)
  advance p (accepted r) has_room now = (broadcast p r now, finished)
  advance p finished has_room now = (p, finished)

  unfoldable pub advance_at : ℕ → Processor → List Call → Bool → ℕ → Processor × List Call
  advance_at i p [] has_room now = (p, [])
  advance_at zero p (c ∷ cs) has_room now = let (p', c') = advance p c has_room now in (p', c' ∷ cs)
  advance_at (suc i) p (c ∷ cs) has_room now =
      let (p', cs') = advance_at i p cs has_room now in (p', c ∷ cs')

  unfoldable pub step : Machine → Event → Machine
  step m (arrives decoded received_at_us source) =
      let (p, o) = look m.processor decoded received_at_us source in
      record { processor = p; calls = m.calls ++ (after_look o source ∷ []) }
  step m (goes_on i has_room now) =
      let (p, calls) = advance_at i m.processor m.calls has_room now in
      record { processor = p; calls = calls }

  unfoldable pub run : Machine → List Event → Machine
  run m [] = m
  run m (e ∷ es) = run (step m e) es
