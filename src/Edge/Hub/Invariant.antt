-- ===== src/Edge/Hub/Invariant.antt =====
-- The invariant of the hub, kept by every action as long as the ids and the offsets fit in 64 bits.
use rust_uma.Prelude.{
  ℕ, ◌+◌, ◌≤◌, ◌<◌, ◌≡◌, refl, sym, ap, ◌∙◌, subst, Option, none, some, false, List, [], ◌∷◌,
  lookup, lookup-insert, keys, nat_eq, Distinct, Distinct-insert, contains-keys-lookup, lookup-none,
  arith, length, u64_mod, u64_add-eq, ◌==◌, String, Option-cases, inl, inr, Bool-cases, =?_iff,
}
use rust_uma.Edge.Ring
use rust_uma.Edge.Ring.{Frame, Ring}
use rust_uma.Edge.Ring.Offsets.{IsValid as RingIsValid, Consecutive, push-IsValid}
use rust_uma.Edge.Channel.{Mpsc}
use rust_uma.Edge.Hub.{
  Hub, Subscriber, EdgeStats, new, drop_all, publish, subscribe, unsubscribe, release, kick_tokens,
}
use rust_uma.Edge.Hub.Actions.{
  Action, publishes, subscribes, unsubscribes, releases, kicks, client_reads, client_closes, touch,
  on_channel, step,
}
use rust_uma.Edge.Hub.Fanout.{Distinct-kept, contains-kept}
use rust_uma.Edge.Hub.Dropping.{
  Same, drop_sub-Distinct, drop_sub-subs, drop_all-subs, drop_all-Distinct, drop_sub-Same,
  drop_all-Same,
}

module _ (M : Mpsc) where
  -- The ids are distinct and below the next one, and the ring is valid.
  pub record IsValid (h : Hub M) : Type 0 where
    pub distinct : Distinct (keys h.subs)
    pub below : (k : ℕ) → h.next_id ≤ k → lookup k h.subs ≡ none
    pub ring : RingIsValid h.ring

  pub new-IsValid :
      (ring_capacity queue : ℕ) (stats : EdgeStats) → IsValid (new M ring_capacity queue stats)
  unfolding new
  new-IsValid ring_capacity queue stats = record {
    distinct = tt;
    below = λ k lt. refl;
    ring = Ring.Offsets.new-IsValid ring_capacity;
  }

  -- What a step keeps, and the frames that it stored.
  pub record Stepped (h h' : Hub M) (stored : List Frame) : Type 0 where
    pub valid : IsValid h'
    pub ids_grow : h.next_id ≤ h'.next_id
    pub ids_bound : h'.next_id ≤ h.next_id + 1
    pub offsets : h'.ring.next_offset ≡ h.ring.next_offset + length stored
    pub consecutive : Consecutive h.ring.next_offset stored
    pub at_most_one : length stored ≤ 1

  module _ (h : Hub M) (v : IsValid h) where
    publish-Stepped :
        (f : Frame) (us : ℕ)
        → h.ring.next_offset + 1 < u64_mod
        → Stepped h (publish M h f us).0 ((publish M h f us).1 ∷ [])
    unfolding publish
    publish-Stepped f us small =
        let (ring, offset, next, capacity) = push-IsValid v.ring f small in
        record {
          valid = record {
            distinct = Distinct-kept M _ h.subs v.distinct;
            below = λ k lt.
                lookup-none k _
                  (contains-kept M k _ h.subs (contains-keys-lookup k h.subs (v.below k lt)));
            ring = ring;
          };
          ids_grow = omega arith;
          ids_bound = omega arith;
          offsets = next;
          consecutive = (offset, tt);
          at_most_one = omega arith;
        }

    subscribe-Stepped :
        (replay : ℕ) (ip : String) (port : ℕ) (token : Option String) (now : ℕ)
        → h.next_id + 1 < u64_mod
        → Stepped h (subscribe M h replay ip port token now).0 []
    unfolding subscribe
    subscribe-Stepped replay ip port token now small =
        let next = u64_add-eq h.next_id 1 small in
        record {
          valid = record {
            distinct = Distinct-insert h.next_id _ h.subs v.distinct;
            below = λ k lt.
                lookup-insert h.next_id k _ h.subs
                ∙ (let ne : (h.next_id == k) ≡ false = ground arith in
                    rw ne (v.below k (omega arith)));
            ring = v.ring;
          };
          ids_grow = omega arith;
          ids_bound = omega arith;
          offsets = omega arith;
          consecutive = tt;
          at_most_one = omega arith;
        }

    -- An action that only takes subscribers out, or touches their channels.
    quiet-Stepped :
        (h' : Hub M)
        → Same M h h'
        → Distinct (keys h'.subs)
        → ((k : ℕ) → lookup k h.subs ≡ none → lookup k h'.subs ≡ none)
        → Stepped h h' []
    quiet-Stepped h' same distinct absent = record {
      valid = record {
        distinct = distinct;
        below = λ k lt. absent k (v.below k (subst (λ n. n ≤ k) same.next_id lt));
        ring = subst RingIsValid (sym same.ring) v.ring;
      };
      ids_grow = omega (arith, same.next_id);
      ids_bound = omega (arith, same.next_id);
      offsets = ap (λ r. r.next_offset) same.ring ∙ omega arith;
      consecutive = tt;
      at_most_one = omega arith;
    }

    drop_all-Stepped : (gone : List ℕ) (code : ℕ) → Stepped h (drop_all M gone code h) []
    drop_all-Stepped gone code =
        quiet-Stepped (drop_all M gone code h) (drop_all-Same M gone code h)
          (drop_all-Distinct M gone code h v.distinct)
          (λ k absent. ground (arith, drop_all-subs M gone code h k))

    touch-Distinct : (id : ℕ) (act : M.Chan → M.Chan) → Distinct (keys (touch M id act h.subs))
    touch-Distinct id act = elim (Option-cases (lookup id h.subs)) [
      | inl absent ↦ rw (absent, touch) v.distinct
      | inr (s, present) ↦ rw (present, touch) (Distinct-insert id _ h.subs v.distinct)
    ]

    apart :
        (id k : ℕ) (s : Subscriber M)
        → lookup id h.subs ≡ some s
        → lookup k h.subs ≡ none
        → (id == k) ≡ false
    apart id k s present absent = elim (Bool-cases (id == k)) [
      | inl same ↦
          let both : some s ≡ none =
            sym present ∙ (ap (λ j. lookup j h.subs) ((=?_iff id k).0 same) ∙ absent) in
          cc
      | inr other ↦ other
    ]

    touch-absent :
        (id : ℕ) (act : M.Chan → M.Chan) (k : ℕ)
        → lookup k h.subs ≡ none
        → lookup k (touch M id act h.subs) ≡ none
    touch-absent id act k absent = elim (Option-cases (lookup id h.subs)) [
      | inl missing ↦ rw (missing, touch) absent
      | inr (s, present) ↦
          rw (present, touch)
            (lookup-insert id k (record s { tx = act s.tx }) h.subs
              ∙ (let ne : (id == k) ≡ false = apart id k s present absent in rw ne absent))
    ]

    channel-Stepped : (id : ℕ) (act : M.Chan → M.Chan) → Stepped h (on_channel M h id act) []
    unfolding on_channel
    channel-Stepped id act =
        quiet-Stepped (on_channel M h id act) (record { ring = refl; next_id = refl })
          (touch-Distinct id act) (touch-absent id act)

    pub step-Stepped :
        (a : Action)
        → h.next_id + 1 < u64_mod
        → h.ring.next_offset + 1 < u64_mod
        → Stepped h (step M h a).0 (step M h a).1
    unfolding step unsubscribe release kick_tokens
    step-Stepped (publishes f us) ids offsets = publish-Stepped f us offsets
    step-Stepped (subscribes replay ip port token now) ids offsets =
        subscribe-Stepped replay ip port token now ids
    step-Stepped (unsubscribes target) ids offsets =
        quiet-Stepped _ (drop_sub-Same M h target (λ s. s))
          (drop_sub-Distinct M h target (λ s. s) v.distinct)
          (λ k absent. ground (arith, drop_sub-subs M h target (λ s. s) k))
    step-Stepped (releases n code) ids offsets = drop_all-Stepped _ code
    step-Stepped (kicks keep) ids offsets = drop_all-Stepped _ 1008
    step-Stepped (client_reads target) ids offsets = channel-Stepped target M.recv
    step-Stepped (client_closes target) ids offsets = channel-Stepped target M.close
