-- ===== src/Pipeline/Processor/Tally.antt =====
-- The counters of src/pipeline.rs over any interleaving of its calls.
use rust_uma.Prelude.{
  ℕ, suc, zero, ◌+◌, ◌≤◌, ◌<◌, ◌≡◌, refl, ap, sym, subst, Bool, true, false, Option, none, some,
  List, [], ◌∷◌, ◌++◌, String, string_eq, contains, arith, Bool-cases, inl, inr, u64_add, u64_mod,
  length, max,
}
use rust_uma.Model.{UmaEvent, chain, request, EventRecord, event_key_eq, key, resolved_condition_id}
use rust_uma.Enrichment.{resolve}
use rust_uma.Forfeit.{Hex, lookup_match}
use rust_uma.Hub.Events
use rust_uma.Pipeline.Processor.{
  Stats, StorageCommand, Processor, Draft, Call, looked, drafted, accepted, finished, Machine,
  Event, arrives, goes_on, record_source_race, count_enrichment, duplicate,
  record_recent_enrichment, look, number, send_storage, accept, broadcast, broadcast_or_hold,
  after_look, after_accept, advance, advance_at, step, run, key_of, is_some, store_event,
}

-- A call whose log is not yet counted as an error, a duplicate or an event.
abbrev pub open_call : Call → ℕ
open_call (looked e source) = 1
open_call (drafted d) = 1
open_call (accepted r) = 0
open_call finished = 0

abbrev pub open_calls : List Call → ℕ
open_calls [] = 0
open_calls (c ∷ cs) = open_call c + open_calls cs

-- What the logs came to.
abbrev pub outcomes : Stats → ℕ
outcomes s = s.decode_errors + (s.duplicates + s.events_decoded)

abbrev pub IsTallied : Stats → ℕ → Type 0
IsTallied s calls = (s.rpc_logs_received ≡ outcomes s + calls) × (s.rpc_logs_received < u64_mod)

pub u64_add-small : (n : ℕ) → suc n < u64_mod → u64_add n 1 ≡ suc n
u64_add-small n h = omega (arith, h)

-- `s'` has the counts of `s`.
abbrev SameCounts : Stats → Stats → Type 0
SameCounts s s' =
    (s'.rpc_logs_received ≡ s.rpc_logs_received)
    × (s'.decode_errors ≡ s.decode_errors)
    × (s'.duplicates ≡ s.duplicates)
    × (s'.events_decoded ≡ s.events_decoded)

count_enrichment-SameCounts :
    (market_id : Option ℕ) (hit : Bool) (s : Stats)
    → SameCounts s (count_enrichment market_id hit s)
count_enrichment-SameCounts market_id true s = (refl, refl, refl, refl)
count_enrichment-SameCounts market_id false s = (refl, refl, refl, refl)

record_recent_enrichment-SameCounts :
    (hit : Bool) (p : Processor) → SameCounts p.stats (record_recent_enrichment hit p).stats
unfolding record_recent_enrichment
record_recent_enrichment-SameCounts hit p = (refl, refl, refl, refl)

number-SameCounts :
    (p : Processor) (e : UmaEvent) (source : String)
    → SameCounts p.stats (number p e source).0.stats
unfolding number record_recent_enrichment
number-SameCounts p e source =
    let hit =
      is_some (resolve p.catalog (request e).ancillary.market_id (request e).condition_id) in
    count_enrichment-SameCounts (request e).ancillary.market_id hit
      (record_recent_enrichment hit p).stats

number-IsTallied :
    (p : Processor) (e : UmaEvent) (source : String) (n : ℕ)
    → IsTallied p.stats n
    → IsTallied (number p e source).0.stats n
number-IsTallied p e source n h =
    let same = number-SameCounts p e source in
    (omega (arith, same.0, same.1, same.2, same.3, h.0), omega (arith, same.0, h.1))

duplicate-IsTallied :
    (source : String) (p : Processor) (n : ℕ)
    → IsTallied p.stats (suc n)
    → IsTallied (duplicate source p).stats n
unfolding duplicate record_source_race
duplicate-IsTallied source p n h =
    let one_more = u64_add-small p.stats.duplicates (omega (arith, h.0, h.1)) in
    (omega (arith, h.0, one_more), h.1)

look-IsTallied :
    (p : Processor) (decoded : Option UmaEvent) (at_us : ℕ) (source : String) (n : ℕ)
    → suc p.stats.rpc_logs_received < u64_mod
    → IsTallied p.stats n
    → let (p', o) = look p decoded at_us source in
      IsTallied p'.stats (n + open_call (after_look o source))
unfolding look
look-IsTallied p none at_us source n room h =
    let received = u64_add-small p.stats.rpc_logs_received room in
    let failed = u64_add-small p.stats.decode_errors (omega (arith, h.0, room)) in
    (omega (arith, h.0, received, failed), omega (arith, received, room))
look-IsTallied p (some e) at_us source n room h =
    let received = u64_add-small p.stats.rpc_logs_received room in
    let counted : Processor = record p {
      stats = record p.stats {
        rpc_logs_received = u64_add p.stats.rpc_logs_received 1;
        last_upstream_received_at_us = at_us;
      };
    } in
    let begun : IsTallied counted.stats (suc n) =
      (omega (arith, h.0, received), omega (arith, received, room)) in
    elim (Bool-cases (contains (key_of e) p.events.keys)) [
      | inl known ↦ rw known (
          subst (IsTallied (duplicate source counted).stats) (omega arith)
            (duplicate-IsTallied source counted n begun))
      | inr new ↦ rw new (subst (IsTallied counted.stats) (omega arith) begun)
    ]

send_storage-IsTallied :
    (has_room : Bool) (command : StorageCommand) (p : Processor) (n : ℕ)
    → IsTallied p.stats n
    → IsTallied (send_storage has_room command p).stats n
send_storage-IsTallied true command p n h = h
send_storage-IsTallied false command p n h = h

accept-IsTallied :
    (p : Processor) (d : Draft) (has_room : Bool) (n : ℕ)
    → IsTallied p.stats (suc n)
    → IsTallied (accept p d has_room).0.stats n
unfolding accept Events.insert Events.insert_locked record_source_race
accept-IsTallied p d has_room n h =
    elim (Bool-cases (contains (key d.event_record) p.events.keys)) [
      | inl known ↦ rw known (duplicate-IsTallied d.source p n h)
      | inr new ↦ rw new (
          send_storage-IsTallied has_room (store_event d.event_record)
            (record p {
              events =
                  Events.announce (Events.admit p.events d.event_record) d.event_record.sequence;
              stats = record (record_source_race d.source true p.stats) {
                events_decoded = u64_add p.stats.events_decoded 1;
                latest_block = max p.stats.latest_block (chain d.event_record.event).block_number;
              };
            })
            n
            (
              omega (arith, h.0, u64_add-small p.stats.events_decoded (omega (arith, h.0, h.1))),
              h.1,
            ))
    ]

open_calls-append : (cs ds : List Call) → open_calls (cs ++ ds) ≡ open_calls cs + open_calls ds
open_calls-append [] ds = omega arith
open_calls-append (c ∷ cs) ds = omega (arith, open_calls-append cs ds)

after_accept-closed : (o : Option EventRecord) (n : ℕ) → n ≡ open_call (after_accept o) + n
after_accept-closed none n = omega arith
after_accept-closed (some r) n = omega arith

module _ (H : Hex) where
  broadcast_or_hold-stats :
      (o : Option ℕ) (p : Processor) (r : EventRecord) (now : ℕ)
      → (broadcast_or_hold H o p r now).stats ≡ p.stats
  broadcast_or_hold-stats none p r now = refl
  broadcast_or_hold-stats (some match_id) p r now = refl

  broadcast-stats :
      (p : Processor) (r : EventRecord) (now : ℕ) → (broadcast H p r now).stats ≡ p.stats
  unfolding broadcast
  broadcast-stats p r now =
      broadcast_or_hold-stats (lookup_match p.forfeit (resolved_condition_id r)) p r now

  advance-IsTallied :
      (p : Processor) (c : Call) (has_room : Bool) (now n : ℕ)
      → IsTallied p.stats (open_call c + n)
      → let (p', c') = advance H p c has_room now in IsTallied p'.stats (open_call c' + n)
  unfolding advance
  advance-IsTallied p (looked e source) has_room now n h = number-IsTallied p e source (1 + n) h
  advance-IsTallied p (drafted d) has_room now n h =
      let counted = accept-IsTallied p d has_room n (subst (IsTallied p.stats) (omega arith) h) in
      subst (IsTallied (accept p d has_room).0.stats)
        (after_accept-closed (accept p d has_room).1 n) counted
  advance-IsTallied p (accepted r) has_room now n h =
      subst (λ s. IsTallied s (0 + n)) (sym (broadcast-stats p r now)) h
  advance-IsTallied p finished has_room now n h = h

  advance_at-IsTallied :
      (i : ℕ) (p : Processor) (cs : List Call) (has_room : Bool) (now n : ℕ)
      → IsTallied p.stats (open_calls cs + n)
      → let (p', cs') = advance_at H i p cs has_room now in IsTallied p'.stats (open_calls cs' + n)
  unfolding advance_at
  advance_at-IsTallied i p [] has_room now n h = h
  advance_at-IsTallied zero p (c ∷ cs) has_room now n h =
      let next =
        advance-IsTallied p c has_room now (open_calls cs + n)
          (subst (IsTallied p.stats) (omega arith) h) in
      let (p', c') = advance H p c has_room now in subst (IsTallied p'.stats) (omega arith) next
  advance_at-IsTallied (suc i) p (c ∷ cs) has_room now n h =
      let next =
        advance_at-IsTallied i p cs has_room now (open_call c + n)
          (subst (IsTallied p.stats) (omega arith) h) in
      let (p', cs') = advance_at H i p cs has_room now in
      subst (IsTallied p'.stats) (omega arith) next

  step-IsTallied :
      (m : Machine) (e : Event)
      → suc m.processor.stats.rpc_logs_received < u64_mod
      → IsTallied m.processor.stats (open_calls m.calls)
      → IsTallied (step H m e).processor.stats (open_calls (step H m e).calls)
  unfolding step
  step-IsTallied m (arrives decoded at_us source) room h =
      let (p', o) = look m.processor decoded at_us source in
      subst (IsTallied p'.stats)
        (omega (arith, open_calls-append m.calls (after_look o source ∷ [])))
        (look-IsTallied m.processor decoded at_us source (open_calls m.calls) room h)
  step-IsTallied m (goes_on i has_room now) room h =
      let (p', cs') = advance_at H i m.processor m.calls has_room now in
      subst (IsTallied p'.stats) (omega arith) (
        advance_at-IsTallied i m.processor m.calls has_room now 0
          (subst (IsTallied m.processor.stats) (omega arith) h))

  look-received :
      (p : Processor) (decoded : Option UmaEvent) (at_us : ℕ) (source : String)
      → (look p decoded at_us source).0.stats.rpc_logs_received ≤ suc p.stats.rpc_logs_received
  unfolding look duplicate record_source_race
  look-received p none at_us source = omega arith
  look-received p (some e) at_us source = elim (Bool-cases (contains (key_of e) p.events.keys)) [
    | inl known ↦ rw known (omega arith)
    | inr new ↦ rw new (omega arith)
  ]

  send_storage-received :
      (has_room : Bool) (command : StorageCommand) (p : Processor)
      → (send_storage has_room command p).stats.rpc_logs_received ≡ p.stats.rpc_logs_received
  send_storage-received true command p = refl
  send_storage-received false command p = refl

  accept-received :
      (p : Processor) (d : Draft) (has_room : Bool)
      → (accept p d has_room).0.stats.rpc_logs_received ≡ p.stats.rpc_logs_received
  unfolding accept Events.insert Events.insert_locked duplicate record_source_race
  accept-received p d has_room = elim (Bool-cases (contains (key d.event_record) p.events.keys)) [
    | inl known ↦ rw known refl
    | inr new ↦ rw new (send_storage-received has_room (store_event d.event_record) _)
  ]

  advance-received :
      (p : Processor) (c : Call) (has_room : Bool) (now : ℕ)
      → (advance H p c has_room now).0.stats.rpc_logs_received ≡ p.stats.rpc_logs_received
  unfolding advance
  advance-received p (looked e source) has_room now = (number-SameCounts p e source).0
  advance-received p (drafted d) has_room now = accept-received p d has_room
  advance-received p (accepted r) has_room now =
      ap (λ s. s.rpc_logs_received) (broadcast-stats p r now)
  advance-received p finished has_room now = refl

  advance_at-received :
      (i : ℕ) (p : Processor) (cs : List Call) (has_room : Bool) (now : ℕ)
      → (advance_at H i p cs has_room now).0.stats.rpc_logs_received ≡ p.stats.rpc_logs_received
  unfolding advance_at
  advance_at-received i p [] has_room now = refl
  advance_at-received zero p (c ∷ cs) has_room now = advance-received p c has_room now
  advance_at-received (suc i) p (c ∷ cs) has_room now = advance_at-received i p cs has_room now

  step-received :
      (m : Machine) (e : Event)
      → (step H m e).processor.stats.rpc_logs_received ≤ suc m.processor.stats.rpc_logs_received
  unfolding step
  step-received m (arrives decoded at_us source) = look-received m.processor decoded at_us source
  step-received m (goes_on i has_room now) =
      omega (arith, advance_at-received i m.processor m.calls has_room now)

  -- Several calls of `process` run at once, in any interleaving of their parts, from a state whose
  -- counters tally and with few enough steps that none wraps. Then each log received is counted once: as
  -- a decoding error, as a duplicate, as an event, or it is in a call that has not come that far.
  pub run-IsTallied :
      (m : Machine) (es : List Event)
      → m.processor.stats.rpc_logs_received + length es < u64_mod
      → IsTallied m.processor.stats (open_calls m.calls)
      → IsTallied (run H m es).processor.stats (open_calls (run H m es).calls)
  unfolding run
  run-IsTallied m [] room h = h
  run-IsTallied m (e ∷ es) room h =
      run-IsTallied (step H m e) es (omega (arith, room, step-received m e))
        (step-IsTallied m e (omega (arith, room)) h)
