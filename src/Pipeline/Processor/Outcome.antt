-- ===== src/Pipeline/Processor/Outcome.antt =====
-- `process` of src/pipeline.rs on all its ways.
use rust_uma.Prelude.{
  ℕ, ◌≡◌, refl, sym, subst, ◌∙◌, Bool, true, false, Option, none, some, List, [], ◌∷◌, ◌++◌, String,
  contains, append-nil, Bool-cases, inl, inr, u64_add, max, if◌then◌else◌,
}
use rust_uma.Model.{
  UmaEvent, chain, EventRecord, MarketEnrichment, event_key_eq, key, kind, request,
  resolved_condition_id,
}
use rust_uma.Enrichment.{resolve}
use rust_uma.Forfeit.{Hex, ForfeitBlocklist, lookup_match}
use rust_uma.Hub.Events
use rust_uma.Pipeline.Processor.{
  StorageCommand, store_event, Processor, Draft, duplicate, record_recent_enrichment, look, number,
  send_storage, record_source_race, accept, broadcast, broadcast_or_hold, accepted_then, process,
  outcome_of, key_of, is_some,
}

-- The event with its number, its market and its outcome.
abbrev pub record_of : Processor → UmaEvent → EventRecord
record_of p e = record {
  sequence = u64_add p.sequence 1;
  event = e;
  enrichment = resolve p.catalog (request e).ancillary.market_id (request e).condition_id;
  price_outcome = outcome_of (kind e) (request e).proposed_price;
}

-- What is to be broadcast of an event with a market, unless a forfeited match has its condition.
abbrev pub unless_held : Option ℕ → EventRecord → List EventRecord
unless_held none r = r ∷ []
unless_held (some match_id) r = []

abbrev pub if_enriched : Option MarketEnrichment → ForfeitBlocklist → EventRecord → List EventRecord
if_enriched none l r = []
if_enriched (some m) l r = unless_held (lookup_match l m.condition_id) r

abbrev pub to_broadcast : Processor → Option UmaEvent → List EventRecord
to_broadcast p none = []
to_broadcast p (some e) =
    if contains (key_of e) p.events.keys
    then []
    else if_enriched (resolve p.catalog (request e).ancillary.market_id (request e).condition_id)
        p.forfeit (record_of p e)

-- What is to be stored: an event that is new, with a market or without.
abbrev pub to_store : Processor → Option UmaEvent → List StorageCommand
to_store p none = []
to_store p (some e) =
    if contains (key_of e) p.events.keys then [] else store_event (record_of p e) ∷ []

abbrev pub if_room : Bool → List StorageCommand → List StorageCommand
if_room true commands = commands
if_room false commands = []

nothing_stored : (p : Processor) (has_room : Bool) → p.storage ≡ p.storage ++ if_room has_room []
nothing_stored p true = sym (append-nil p.storage)
nothing_stored p false = sym (append-nil p.storage)

condition-resolved :
    (r : EventRecord) (m : MarketEnrichment)
    → r.enrichment ≡ some m
    → resolved_condition_id r ≡ m.condition_id
unfolding resolved_condition_id
condition-resolved r m found = rw found refl

-- The processor that has taken an event which is new to the ring.
abbrev taken : Processor → Draft → Processor
taken p d = record p {
  events = Events.announce (Events.admit p.events d.event_record) d.event_record.sequence;
  stats = record (record_source_race d.source true p.stats) {
    events_decoded = u64_add (record_source_race d.source true p.stats).events_decoded 1;
    latest_block =
        max (record_source_race d.source true p.stats).latest_block
          (chain d.event_record.event).block_number;
  };
}

accept-new :
    (p : Processor) (d : Draft) (has_room : Bool)
    → contains (key d.event_record) p.events.keys ≡ false
    → accept p d has_room ≡ (
      send_storage has_room (store_event d.event_record) (taken p d),
      if is_some d.event_record.enrichment then some d.event_record else none,
    )
unfolding accept Events.insert Events.insert_locked
accept-new p d has_room new = rw new refl

module _ (H : Hex) where
  broadcast_or_hold-lem :
      (o : Option ℕ) (p : Processor) (r : EventRecord) (now : ℕ)
      → let p' = broadcast_or_hold H o p r now in
        (p'.batches ≡ p.batches ++ unless_held o r) × (p'.storage ≡ p.storage)
  broadcast_or_hold-lem none p r now = (refl, refl)
  broadcast_or_hold-lem (some match_id) p r now = (sym (append-nil p.batches), refl)

  accepted_then-lem :
      (o : Option MarketEnrichment) (p : Processor) (r : EventRecord) (now : ℕ)
      → r.enrichment ≡ o
      → let p' = accepted_then H (p, if is_some o then some r else none) now in
        (p'.batches ≡ p.batches ++ if_enriched o p.forfeit r) × (p'.storage ≡ p.storage)
  unfolding broadcast
  accepted_then-lem none p r now found = (sym (append-nil p.batches), refl)
  accepted_then-lem (some m) p r now found =
      subst
        (λ id.
          let p' = broadcast_or_hold H (lookup_match p.forfeit id) p r now in
          (p'.batches ≡ p.batches ++ unless_held (lookup_match p.forfeit m.condition_id) r)
          × (p'.storage ≡ p.storage))
        (sym (condition-resolved r m found))
        (broadcast_or_hold-lem (lookup_match p.forfeit m.condition_id) p r now)

  send_storage-then :
      (p : Processor) (r : EventRecord) (has_room : Bool) (now : ℕ)
      → let p' =
          accepted_then H
            (send_storage has_room (store_event r) p, if is_some r.enrichment then some r else none)
            now in
        (p'.batches ≡ p.batches ++ if_enriched r.enrichment p.forfeit r)
        × (p'.storage ≡ p.storage ++ if_room has_room (store_event r ∷ []))
  send_storage-then p r true now =
      accepted_then-lem r.enrichment (send_storage true (store_event r) p) r now refl
  send_storage-then p r false now =
      let same = accepted_then-lem r.enrichment (send_storage false (store_event r) p) r now refl in
      (same.0, same.1 ∙ sym (append-nil p.storage))

  accept-then :
      (p : Processor) (d : Draft) (has_room : Bool) (now : ℕ)
      → contains (key d.event_record) p.events.keys ≡ false
      → let p' = accepted_then H (accept p d has_room) now in
        (p'.batches ≡ p.batches ++ if_enriched d.event_record.enrichment p.forfeit d.event_record)
        × (p'.storage ≡ p.storage ++ if_room has_room (store_event d.event_record ∷ []))
  accept-then p d has_room now new =
      subst
        (λ a.
          let p' = accepted_then H a now in
          (p'.batches ≡ p.batches ++ if_enriched d.event_record.enrichment p.forfeit d.event_record)
          × (p'.storage ≡ p.storage ++ if_room has_room (store_event d.event_record ∷ [])))
        (sym (accept-new p d has_room new))
        (send_storage-then (taken p d) d.event_record has_room now)

  number-then :
      (p : Processor) (e : UmaEvent) (source : String) (has_room : Bool) (now : ℕ)
      → contains (key_of e) p.events.keys ≡ false
      → let (q, d) = number p e source in
        let p' = accepted_then H (accept q d has_room) now in
        (p'.batches ≡ p.batches ++ if_enriched (record_of p e).enrichment p.forfeit (record_of p e))
        × (p'.storage ≡ p.storage ++ if_room has_room (store_event (record_of p e) ∷ []))
  unfolding number record_recent_enrichment
  number-then p e source has_room now new =
      let (q, d) = number p e source in accept-then q d has_room now new

  -- Each call of `process` that nothing interrupts broadcasts what the description above says and stores
  -- what it says, if the channel of the writer has room.
  pub process_lem :
      (p : Processor) (decoded : Option UmaEvent) (received_at_us : ℕ) (source : String)
      (has_room : Bool) (now : ℕ)
      → let p' = process H p decoded received_at_us source has_room now in
        (p'.batches ≡ p.batches ++ to_broadcast p decoded)
        × (p'.storage ≡ p.storage ++ if_room has_room (to_store p decoded))
  unfolding process look duplicate
  process_lem p none at_us source has_room now =
      (sym (append-nil p.batches), nothing_stored p has_room)
  process_lem p (some e) at_us source has_room now =
      elim (Bool-cases (contains (key_of e) p.events.keys)) [
        | inl known ↦ rw known (sym (append-nil p.batches), nothing_stored p has_room)
        | inr new ↦ rw new (
            let q : Processor = record p {
              stats = record p.stats {
                rpc_logs_received = u64_add p.stats.rpc_logs_received 1;
                last_upstream_received_at_us = at_us;
              };
            } in
            number-then q e source has_room now new)
      ]
