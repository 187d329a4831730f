-- ===== src/Hub/Events/Refine.antt =====
-- The event hub of the code against its specification; its set of keys against the events it
-- holds.
use rust_uma.Prelude.{
  ℕ, suc, ◌≤◌, ◌-◌, ◌≡◌, refl, sym, ap, ◌∙◌, true, false, List, [], ◌∷◌, ◌++◌, map, arith, max, ltb,
  length, =?_iff, contains, contains-discard, contains-append, discard, Distinct, Distinct-append,
  last_n, last_n-push, length-drop, map-append, inl, inr, Bool-cases, All, ◌==◌, ◌⊎◌, nat_eq, ◌=?◌,
  subst,
}
use rust_uma.Model.{EventRecord, EventKey, key, event_key_eq}
use rust_uma.Hub.Events.{
  EventHub, new, has_key, evict, admit, insert_locked, announce, snapshot, Racing, Step, locks,
  sends, remove_one, send, lock, run, quiet, locked_events, latest_sequence,
}
use rust_uma.Hub.Events.Spec.{remembered, accept, accept_all}

pub evict-last_n :
    (limit : ℕ) (xs : List EventRecord) (ks : List EventKey)
    → (evict limit xs ks).0 ≡ last_n limit xs
unfolding evict
evict-last_n limit [] ks = let e : 0 - limit ≡ 0 = omega arith in rw e
evict-last_n limit (x ∷ xs) ks = elim (Bool-cases (ltb limit (suc (length xs)))) [
  | inl e ↦
      let k : suc (length xs) - limit ≡ suc (length xs - limit) = ground arith in
      rw (e, k) (evict-last_n limit xs (discard (key x) ks))
  | inr e ↦ let k : suc (length xs) - limit ≡ 0 = ground arith in rw (e, k)
]

-- The keys of a set are those of the events of a list.
abbrev Indexes : List EventKey → List EventRecord → Type 0
Indexes ks xs = (k : EventKey) → contains k ks ≡ contains k (map key xs)

discard-Indexes :
    (x : EventRecord) (xs : List EventRecord) (ks : List EventKey)
    → Distinct (map key (x ∷ xs))
    → Indexes ks (x ∷ xs)
    → Indexes (discard (key x) ks) xs
discard-Indexes x xs ks d h k = ground (arith, h k, contains-discard (key x) k ks, =?_iff (key x) k)

pub evict-Indexes :
    (limit : ℕ) (xs : List EventRecord) (ks : List EventKey)
    → Distinct (map key xs)
    → Indexes ks xs
    → Indexes (evict limit xs ks).1 (evict limit xs ks).0 × Distinct (map key (evict limit xs ks).0)
unfolding evict
evict-Indexes limit [] ks d h = (h, d)
evict-Indexes limit (x ∷ xs) ks d h = elim (Bool-cases (ltb limit (suc (length xs)))) [
  | inl e ↦ rw e (evict-Indexes limit xs (discard (key x) ks) d.1 (discard-Indexes x xs ks d h))
  | inr e ↦ rw e (h, d)
]

push-Indexes :
    (e : EventRecord) (xs : List EventRecord) (ks : List EventKey)
    → Indexes ks xs
    → Indexes (key e ∷ ks) (xs ++ (e ∷ []))
push-Indexes e xs ks h k =
    rw map-append (ground (arith, h k, contains-append k (map key xs) (key e ∷ [])))

-- The state of a hub after a history of accepted events.
pub record Represents (hub : EventHub) (history : List EventRecord) : Type 0 where
  pub holds : hub.events ≡ last_n hub.capacity history
  pub distinct : Distinct (map key hub.events)
  pub indexed : Indexes hub.keys hub.events

has_key-remembered :
    {hub : EventHub} {history : List EventRecord} (k : EventKey)
    → Represents hub history
    → has_key hub k ≡ contains k (remembered hub.capacity history)
unfolding remembered
has_key-remembered k r = r.indexed k ∙ ap (λ l. contains k (map key l)) r.holds

module _ {hub : EventHub} {history : List EventRecord} (e : EventRecord)
    (r : Represents hub history) where
  insert-old :
      has_key hub (key e) ≡ true
      → (insert_locked hub e ≡ (hub, false)) × (accept hub.capacity history e ≡ (history, false))
  unfolding insert_locked accept
  insert-old old =
      let seen : contains (key e) (remembered hub.capacity history) ≡ true =
        sym (has_key-remembered (key e) r) ∙ old in
      (rw old, rw seen)

  admit-Represents : has_key hub (key e) ≡ false → Represents (admit hub e) (history ++ (e ∷ []))
  unfolding admit
  admit-Represents new_key = record {
    holds =
        evict-last_n hub.capacity _ _
        ∙ (ap (λ l. last_n hub.capacity (l ++ (e ∷ []))) r.holds
            ∙ last_n-push hub.capacity history (e ∷ []));
    distinct = kept.1;
    indexed = kept.0;
  }
    where
      absent : contains (key e) (map key hub.events) ≡ false
      absent = sym (r.indexed (key e)) ∙ new_key

      pushed : Distinct (map key (hub.events ++ (e ∷ [])))
      pushed = rw map-append (Distinct-append (map key hub.events) (key e) r.distinct absent)

      kept :
          Indexes (admit hub e).keys (admit hub e).events × Distinct (map key (admit hub e).events)
      kept = evict-Indexes hub.capacity _ _ pushed (push-Indexes e hub.events hub.keys r.indexed)

  insert-new :
      has_key hub (key e) ≡ false
      → (insert_locked hub e ≡ (admit hub e, true))
        × (accept hub.capacity history e ≡ (history ++ (e ∷ []), true))
  unfolding insert_locked accept
  insert-new new_key =
      let unseen : contains (key e) (remembered hub.capacity history) ≡ false =
        sym (has_key-remembered (key e) r) ∙ new_key in
      (rw new_key, rw unseen)

  -- An insert answers as the specification does, and leaves the hub in the state of its history.
  pub insert-Represents :
      ((insert_locked hub e).1 ≡ (accept hub.capacity history e).1)
      × Represents (insert_locked hub e).0 (accept hub.capacity history e).0
      × ((insert_locked hub e).0.capacity ≡ hub.capacity)
  insert-Represents = elim (Bool-cases (has_key hub (key e))) [
    | inl old ↦ rw ((insert-old old).0, (insert-old old).1) (refl, r, refl)
    | inr new_key ↦
        rw ((insert-new new_key).0, (insert-new new_key).1)
          (refl, admit-Represents new_key, admit-capacity)
  ]
    where
      admit-capacity : (admit hub e).capacity ≡ hub.capacity
      admit-capacity = unfold admit in refl

announce-Represents :
    {hub : EventHub} {history : List EventRecord} (n : ℕ)
    → Represents hub history
    → Represents (announce hub n) history
announce-Represents n r = record { holds = r.holds; distinct = r.distinct; indexed = r.indexed }

-- The sequence of an event of the history.
abbrev IsSequence : List EventRecord → ℕ → Type 0
IsSequence history n = contains n (map (λ e. e.sequence) history) ≡ true

-- What is on the channel, and what is still to be sent.
abbrev Announces : Racing → List EventRecord → Type 0
Announces w history =
    ((w.hub.latest ≡ 0) ⊎ IsSequence history w.hub.latest) × All (IsSequence history) w.unsent

IsSequence-more :
    (history : List EventRecord) (e : EventRecord) (n : ℕ)
    → IsSequence history n
    → IsSequence (history ++ (e ∷ [])) n
IsSequence-more history e n h =
    rw map-append
      (ground (arith, h, contains-append n (map (λ e. e.sequence) history) (e.sequence ∷ [])))

IsSequence-last :
    (history : List EventRecord) (e : EventRecord) → IsSequence (history ++ (e ∷ [])) e.sequence
IsSequence-last history e =
    rw map-append
      (ground (arith, contains-append e.sequence (map (λ e. e.sequence) history) (e.sequence ∷ [])))

All-more :
    (history : List EventRecord) (e : EventRecord) (ns : List ℕ)
    → All (IsSequence history) ns
    → All (IsSequence (history ++ (e ∷ []))) ns
All-more history e [] h = tt
All-more history e (n ∷ ns) h = (IsSequence-more history e n h.0, All-more history e ns h.1)

All-remove_one :
    (history : List EventRecord) (n : ℕ) (ns : List ℕ)
    → All (IsSequence history) ns
    → All (IsSequence history) (remove_one n ns)
All-remove_one history n [] h = tt
All-remove_one history n (m ∷ ns) h = elim (Bool-cases (m == n)) [
  | inl same ↦ rw same h.1
  | inr other ↦ rw other (h.0, All-remove_one history n ns h.1)
]

All-contains :
    (history : List EventRecord) (n : ℕ) (ns : List ℕ)
    → All (IsSequence history) ns
    → contains n ns ≡ true
    → IsSequence history n
All-contains history n [] h k = absurd (ground (arith, k))
All-contains history n (m ∷ ns) h k = elim (Bool-cases (m =? n)) [
  | inl same ↦ subst (IsSequence history) ((=?_iff m n).0 same) h.0
  | inr other ↦ All-contains history n ns h.1 (ground (arith, k, other, =?_iff m n, =?_iff n m))
]

send-Announces :
    (w : Racing) (history : List EventRecord) (n : ℕ)
    → Represents w.hub history
    → Announces w history
    → Represents (send w n).hub history
      × Announces (send w n) history
      × ((send w n).hub.capacity ≡ w.hub.capacity)
send-Announces w history n r a = elim (Bool-cases (contains n w.unsent)) [
  | inl waits ↦ rw waits (
    announce-Represents n r,
    (inr (All-contains history n w.unsent a.1 waits), All-remove_one history n w.unsent a.1),
    refl,
  )
  | inr gone ↦ rw gone (r, a, refl)
]

lock-Announces :
    (w : Racing) (history : List EventRecord) (e : EventRecord)
    → Represents w.hub history
    → Announces w history
    → Announces (lock w e) (accept w.hub.capacity history e).0
lock-Announces w history e r a = elim (Bool-cases (has_key w.hub (key e))) [
  | inl old ↦ rw ((insert-old e r old).0, (insert-old e r old).1) a
  | inr new_key ↦ subst (Announces (lock w e)) (sym (ap (λ p. p.0) (insert-new e r new_key).1)) (
      rw (insert-new e r new_key).0 (
        unfold admit in
            elim a.0 [
              | inl zero_now ↦ inl zero_now
              | inr sent ↦ inr (IsSequence-more history e w.hub.latest sent)
            ],
        (IsSequence-last history e, All-more history e w.unsent a.1),
      ))
]

run-Represents :
    (steps : List Step) (w : Racing) (history : List EventRecord)
    → Represents w.hub history
    → Announces w history
    → let (end, answers) = run w steps in
      let (all, expected) = accept_all w.hub.capacity history (locked_events steps) in
      (answers ≡ expected)
      × Represents end.hub all
      × Announces end all
      × (end.hub.capacity ≡ w.hub.capacity)
unfolding run accept_all
run-Represents [] w history r a = (refl, r, a, refl)
run-Represents (locks e ∷ steps) w history r a =
    let (same, kept, capacity) = insert-Represents e r in
    let (answers, end, sent, limit) = rw capacity at (
      run-Represents steps (lock w e) (accept w.hub.capacity history e).0 kept
        (lock-Announces w history e r a)) in
    (ground arith, end, sent, limit)
run-Represents (sends n ∷ steps) w history r a =
    let (kept, announced, capacity) = send-Announces w history n r a in
    let (answers, end, sent, limit) =
      rw capacity at (run-Represents steps (send w n) history kept announced) in
    (answers, end, sent, limit)

new-Represents : (capacity : ℕ) → Represents (new capacity) []
unfolding new
new-Represents capacity =
    let e : 0 - max capacity 1 ≡ 0 = omega arith in
    record { holds = rw e; distinct = tt; indexed = λ k. refl }

module _ (capacity : ℕ) (steps : List Step) where
  reached :
      let limit = max capacity 1 in
      let (end, answers) = run (quiet (new capacity)) steps in
      let (all, expected) = accept_all limit [] (locked_events steps) in
      (answers ≡ expected) × Represents end.hub all × Announces end all × (end.hub.capacity ≡ limit)
  reached =
      unfold new in
      run-Represents steps (quiet (new capacity)) [] (new-Represents capacity) (inl refl, tt)

  -- The calls of `insert` on a new hub take the lock in any order, and send their sequences after that,
  -- each at any time. The answers are those of the specification for the events in the order of the
  -- locks, the hub holds exactly the last `max capacity 1` accepted events in that order, and a key is
  -- reported as contained exactly if it is the key of one of these. The latest sequence is 0 or that of
  -- an accepted event, which need not be the last one.
  pub run_refines :
      let limit = max capacity 1 in
      let (end, answers) = run (quiet (new capacity)) steps in
      let (history, expected) = accept_all limit [] (locked_events steps) in
      (answers ≡ expected)
      × (snapshot end.hub ≡ last_n limit history)
      × ((k : EventKey) → has_key end.hub k ≡ contains k (remembered limit history))
      × ((latest_sequence end.hub ≡ 0)
          ⊎ (contains (latest_sequence end.hub) (map (λ e. e.sequence) history) ≡ true))
  run_refines =
      let history = (accept_all (max capacity 1) [] (locked_events steps)).0 in
      let (answers, r, sent, limit) = reached in
      (
        answers,
        r.holds ∙ ap (λ n. last_n n history) limit,
        λ k. has_key-remembered k r ∙ ap (λ n. contains k (remembered n history)) limit,
        sent.0,
      )

  -- After the parts of any calls of `insert` on a new hub, in any order, no two events that it holds
  -- have the same key, and it holds at most `max capacity 1` events.
  pub snapshot-Distinct :
      let hub = (run (quiet (new capacity)) steps).0.hub in
      Distinct (map key (snapshot hub)) × (length (snapshot hub) ≤ max capacity 1)
  snapshot-Distinct =
      let (answers, r, sent, limit) = reached in
      (r.distinct, rw (r.holds, limit) (last_n-le (max capacity 1) _))
    where
      last_n-le : (n : ℕ) (l : List EventRecord) → length (last_n n l) ≤ n
      last_n-le n l = omega (arith, length-drop (length l - n) l)
