-- ===== src/Pipeline/Processor/Numbers.antt =====
-- The numbers of the events of src/pipeline.rs, over any interleaving of its calls.
use rust_uma.Prelude.{
  ℕ, suc, zero, ◌+◌, ◌==◌, ◌≤◌, ◌<◌, ◌≡◌, refl, ap, sym, subst, ◌∙◌, Bool, true, false, Option,
  none, some, List, [], ◌∷◌, ◌++◌, String, contains, arith, Bool-cases, inl, inr, u64_add, u64_mod,
  length, count,
}
use rust_uma.Model.{UmaEvent, EventRecord, event_key_eq, key, resolved_condition_id}
use rust_uma.Forfeit.{Hex, lookup_match}
use rust_uma.Hub.Events
use rust_uma.Pipeline.Processor.{
  StorageCommand, Processor, Draft, Call, looked, drafted, accepted, finished, Machine, Event,
  arrives, goes_on, duplicate, record_recent_enrichment, look, number, send_storage, accept,
  broadcast, broadcast_or_hold, after_look, after_accept, advance, advance_at, step, run, key_of,
  is_some, store_event,
}
use rust_uma.Pipeline.Processor.Tally.{u64_add-small}

abbrev has_number : ℕ → EventRecord → Bool
has_number n r = r.sequence == n

-- How often the number `n` was broadcast, and how often a call holds it.
abbrev pub sent : ℕ → Processor → ℕ
sent n p = count (has_number n) p.batches

abbrev one_if : Bool → ℕ
one_if true = 1
one_if false = 0

abbrev pub holds : ℕ → Call → ℕ
holds n (looked e source) = 0
holds n (drafted d) = one_if (has_number n d.event_record)
holds n (accepted r) = one_if (has_number n r)
holds n finished = 0

abbrev pub number_holds : ℕ → List Call → ℕ
number_holds n [] = 0
number_holds n (c ∷ cs) = holds n c + number_holds n cs

-- No number is used twice, and none that is still to come.
abbrev pub IsNumbered : ℕ → (ℕ → ℕ) → Type 0
IsNumbered sequence uses = (n : ℕ) → (uses n ≤ 1) × (sequence < n → uses n ≡ 0)

count-last :
    (n : ℕ) (rs : List EventRecord) (r : EventRecord)
    → count (has_number n) (rs ++ (r ∷ [])) ≡ count (has_number n) rs + one_if (has_number n r)
count-last n [] r = ground arith
count-last n (x ∷ rs) r = ground (arith, count-last n rs r)

send_storage-kept :
    (has_room : Bool) (command : StorageCommand) (p : Processor)
    → ((send_storage has_room command p).batches ≡ p.batches)
      × ((send_storage has_room command p).sequence ≡ p.sequence)
send_storage-kept true command p = (refl, refl)
send_storage-kept false command p = (refl, refl)

accept-kept :
    (p : Processor) (d : Draft) (has_room : Bool)
    → let (p', o) = accept p d has_room in
      (p'.batches ≡ p.batches)
      × (p'.sequence ≡ p.sequence)
      × ((n : ℕ) → holds n (after_accept o) ≤ holds n (drafted d))
unfolding accept Events.insert Events.insert_locked duplicate
accept-kept p d has_room = elim (Bool-cases (contains (key d.event_record) p.events.keys)) [
  | inl known ↦ rw known (refl, refl, λ n. omega arith)
  | inr new ↦ elim (Bool-cases (is_some d.event_record.enrichment)) [
    | inl enriched ↦
        rw (new, enriched)
          (let same = send_storage-kept has_room (store_event d.event_record) _ in
            (same.0, same.1, λ n. omega arith))
    | inr missed ↦
        rw (new, missed)
          (let same = send_storage-kept has_room (store_event d.event_record) _ in
            (same.0, same.1, λ n. omega arith))
  ]
]

look-kept :
    (p : Processor) (decoded : Option UmaEvent) (at_us : ℕ) (source : String)
    → let p' = (look p decoded at_us source).0 in
      (p'.batches ≡ p.batches) × (p'.sequence ≡ p.sequence)
unfolding look duplicate
look-kept p none at_us source = (refl, refl)
look-kept p (some e) at_us source = elim (Bool-cases (contains (key_of e) p.events.keys)) [
  | inl known ↦ rw known (refl, refl)
  | inr new ↦ rw new (refl, refl)
]

module _ (H : Hex) where
  broadcast_or_hold-sent :
      (o : Option ℕ) (p : Processor) (r : EventRecord) (now n : ℕ)
      → (sent n (broadcast_or_hold H o p r now) ≤ sent n p + one_if (has_number n r))
        × ((broadcast_or_hold H o p r now).sequence ≡ p.sequence)
  broadcast_or_hold-sent none p r now n = (omega (arith, count-last n p.batches r), refl)
  broadcast_or_hold-sent (some match_id) p r now n = (omega arith, refl)

  broadcast-sent :
      (p : Processor) (r : EventRecord) (now n : ℕ)
      → (sent n (broadcast H p r now) ≤ sent n p + one_if (has_number n r))
        × ((broadcast H p r now).sequence ≡ p.sequence)
  unfolding broadcast
  broadcast-sent p r now n =
      broadcast_or_hold-sent (lookup_match p.forfeit (resolved_condition_id r)) p r now n

  advance-IsNumbered :
      (p : Processor) (c : Call) (has_room : Bool) (now : ℕ) (others : ℕ → ℕ)
      → suc p.sequence < u64_mod
      → IsNumbered p.sequence (λ n. sent n p + (holds n c + others n))
      → let (p', c') = advance H p c has_room now in
        IsNumbered p'.sequence (λ n. sent n p' + (holds n c' + others n))
  unfolding advance number record_recent_enrichment
  advance-IsNumbered p (looked e source) has_room now others room h n =
      let next = u64_add-small p.sequence room in
      elim (Bool-cases (u64_add p.sequence 1 == n)) [
        | inl here ↦ rw here (ground (arith, here, next, h n), ground (arith, here, next, h n))
        | inr apart ↦ rw apart (ground (arith, next, h n), ground (arith, next, h n))
      ]
  advance-IsNumbered p (drafted d) has_room now others room h n =
      let (batches, sequence, less) = accept-kept p d has_room in
      let same : sent n (accept p d has_room).0 ≡ sent n p = ap (count (has_number n)) batches in
      (ground (arith, same, less n, h n), ground (arith, same, sequence, less n, h n))
  advance-IsNumbered p (accepted r) has_room now others room h n =
      let after = broadcast-sent p r now n in
      (ground (arith, after, h n), ground (arith, after, h n))
  advance-IsNumbered p finished has_room now others room h n = h n

  reorder :
      (sequence : ℕ) (f g : ℕ → ℕ)
      → ((n : ℕ) → f n ≡ g n)
      → IsNumbered sequence f
      → IsNumbered sequence g
  reorder sequence f g same h n =
      (omega (arith, same n, (h n).0), λ later. sym (same n) ∙ (h n).1 later)

  advance_at-IsNumbered :
      (i : ℕ) (p : Processor) (cs : List Call) (has_room : Bool) (now : ℕ) (others : ℕ → ℕ)
      → suc p.sequence < u64_mod
      → IsNumbered p.sequence (λ n. sent n p + (number_holds n cs + others n))
      → let (p', cs') = advance_at H i p cs has_room now in
        IsNumbered p'.sequence (λ n. sent n p' + (number_holds n cs' + others n))
  unfolding advance_at
  advance_at-IsNumbered i p [] has_room now others room h = h
  advance_at-IsNumbered zero p (c ∷ cs) has_room now others room h =
      let (p', c') = advance H p c has_room now in
      reorder p'.sequence (λ n. sent n p' + (holds n c' + (number_holds n cs + others n)))
        (λ n. sent n p' + ((holds n c' + number_holds n cs) + others n)) (λ n. omega arith)
        (advance-IsNumbered p c has_room now (λ n. number_holds n cs + others n) room
          (reorder p.sequence (λ n. sent n p + ((holds n c + number_holds n cs) + others n))
            (λ n. sent n p + (holds n c + (number_holds n cs + others n))) (λ n. omega arith) h))
  advance_at-IsNumbered (suc i) p (c ∷ cs) has_room now others room h =
      let (p', cs') = advance_at H i p cs has_room now in
      reorder p'.sequence (λ n. sent n p' + (number_holds n cs' + (holds n c + others n)))
        (λ n. sent n p' + ((holds n c + number_holds n cs') + others n)) (λ n. omega arith)
        (advance_at-IsNumbered i p cs has_room now (λ n. holds n c + others n) room
          (reorder p.sequence (λ n. sent n p + ((holds n c + number_holds n cs) + others n))
            (λ n. sent n p + (number_holds n cs + (holds n c + others n))) (λ n. omega arith) h))

  number_holds-append :
      (n : ℕ) (cs ds : List Call)
      → number_holds n (cs ++ ds) ≡ number_holds n cs + number_holds n ds
  number_holds-append n [] ds = omega arith
  number_holds-append n (c ∷ cs) ds = omega (arith, number_holds-append n cs ds)

  -- How often a number is in use.
  abbrev pub uses : Machine → ℕ → ℕ
  uses m n = sent n m.processor + (number_holds n m.calls + 0)

  after_look-holds :
      (n : ℕ) (o : Option UmaEvent) (source : String) → holds n (after_look o source) ≡ 0
  after_look-holds n none source = refl
  after_look-holds n (some e) source = refl

  step-IsNumbered :
      (m : Machine) (e : Event)
      → suc m.processor.sequence < u64_mod
      → IsNumbered m.processor.sequence (uses m)
      → IsNumbered (step H m e).processor.sequence (uses (step H m e))
  unfolding step
  step-IsNumbered m (arrives decoded at_us source) room h n =
      let same = look-kept m.processor decoded at_us source in
      let (p', o) = look m.processor decoded at_us source in
      let kept : sent n p' ≡ sent n m.processor = ap (count (has_number n)) same.0 in
      let none_held = after_look-holds n o source in
      let held = number_holds-append n m.calls (after_look o source ∷ []) in
      (
        omega (arith, kept, none_held, held, (h n).0),
        λ later. omega (arith, kept, none_held, held, (h n).1 (subst (λ s. s < n) same.1 later)),
      )
  step-IsNumbered m (goes_on i has_room now) room h n =
      advance_at-IsNumbered i m.processor m.calls has_room now (λ k. 0) room h n

  advance-sequence :
      (p : Processor) (c : Call) (has_room : Bool) (now : ℕ)
      → suc p.sequence < u64_mod
      → (advance H p c has_room now).0.sequence ≤ suc p.sequence
  unfolding advance number
  advance-sequence p (looked e source) has_room now room =
      omega (arith, u64_add-small p.sequence room)
  advance-sequence p (drafted d) has_room now room = omega (arith, (accept-kept p d has_room).1)
  advance-sequence p (accepted r) has_room now room = omega (arith, (broadcast-sent p r now 0).1)
  advance-sequence p finished has_room now room = omega arith

  advance_at-sequence :
      (i : ℕ) (p : Processor) (cs : List Call) (has_room : Bool) (now : ℕ)
      → suc p.sequence < u64_mod
      → (advance_at H i p cs has_room now).0.sequence ≤ suc p.sequence
  unfolding advance_at
  advance_at-sequence i p [] has_room now room = omega arith
  advance_at-sequence zero p (c ∷ cs) has_room now room = advance-sequence p c has_room now room
  advance_at-sequence (suc i) p (c ∷ cs) has_room now room =
      advance_at-sequence i p cs has_room now room

  step-sequence :
      (m : Machine) (e : Event)
      → suc m.processor.sequence < u64_mod
      → (step H m e).processor.sequence ≤ suc m.processor.sequence
  unfolding step
  step-sequence m (arrives decoded at_us source) room =
      omega (arith, (look-kept m.processor decoded at_us source).1)
  step-sequence m (goes_on i has_room now) room =
      advance_at-sequence i m.processor m.calls has_room now room

  run-IsNumbered :
      (m : Machine) (es : List Event)
      → m.processor.sequence + length es < u64_mod
      → IsNumbered m.processor.sequence (uses m)
      → IsNumbered (run H m es).processor.sequence (uses (run H m es))
  unfolding run
  run-IsNumbered m [] room h = h
  run-IsNumbered m (e ∷ es) room h =
      let room' : suc m.processor.sequence < u64_mod = omega (arith, room) in
      run-IsNumbered (step H m e) es (omega (arith, room, step-sequence m e room'))
        (step-IsNumbered m e room' h)

  -- Several calls of `process` run at once, in any interleaving of their parts, from a state where
  -- nothing is sent and no call has begun, with few enough steps that the number of the events does not
  -- wrap. No number is ever sent on to the batches twice.
  pub run-sent_once :
      (m : Machine) (es : List Event) (n : ℕ)
      → m.processor.batches ≡ []
      → m.calls ≡ []
      → m.processor.sequence + length es < u64_mod
      → sent n (run H m es).processor ≤ 1
  run-sent_once m es n unsent idle room =
      let start : IsNumbered m.processor.sequence (uses m) = λ k.
        let none_sent : sent k m.processor ≡ 0 = ap (count (has_number k)) unsent in
        let none_held : number_holds k m.calls ≡ 0 = ap (number_holds k) idle in
        (omega (arith, none_sent, none_held), λ later. omega (arith, none_sent, none_held)) in
      omega (arith, (run-IsNumbered m es room start n).0)
