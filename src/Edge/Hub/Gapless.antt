-- ===== src/Edge/Hub/Gapless.antt =====
-- What a client has been sent: its replay, what it has read, and what waits in its queue, over any
-- sequence of calls and client actions.
use rust_uma.Prelude.{
  ℕ, ◌+◌, ◌-◌, ◌<◌, ◌≡◌, refl, sym, ap, ap₂, ◌∙◌, subst, Option, some, List, [], ◌∷◌, ◌++◌, lookup,
  lookup-insert_self, nat_eq, arith, length, length-append, append_assoc, append-nil, min, u64_mod,
  u64_add-eq, String,
}
use mathlib.Core.Option.{some-injective}
use rust_uma.Edge.Ring.{Frame, Ring}
use rust_uma.Edge.Ring.Offsets.{Consecutive, Consecutive-append, tail-Consecutive}
use rust_uma.Edge.Channel.{Mpsc, accepted}
use rust_uma.Edge.Hub.{Hub, Subscriber, Subscription, new_subscriber, subscribe}
use rust_uma.Edge.Hub.Actions.{Action, subscribes, step, run}
use rust_uma.Edge.Hub.Extends.{Extends, step-Extends}
use rust_uma.Edge.Hub.Invariant.{IsValid, Stepped, step-Stepped}

module _ (M : Mpsc) where
  open M use {queued-channel, received-channel, channel}

  -- What a run of actions keeps, and the frames that it stored.
  pub record Ran (h h' : Hub M) (stored : List Frame) : Type 0 where
    pub valid : IsValid M h'
    pub offsets : h'.ring.next_offset ≡ h.ring.next_offset + length stored
    pub consecutive : Consecutive h.ring.next_offset stored

  pub run-Ran :
      (actions : List Action) (h : Hub M)
      → IsValid M h
      → h.next_id + length actions < u64_mod
      → h.ring.next_offset + length actions < u64_mod
      → Ran h (run M h actions).0 (run M h actions).1
  unfolding run
  run-Ran [] h v ids offsets = record { valid = v; offsets = omega arith; consecutive = tt }
  run-Ran (a ∷ rest) h v ids offsets =
      let one = step-Stepped M h v a (omega arith) (omega arith) in
      let (h', stored) = step M h a in
      let more =
        run-Ran rest h' one.valid (omega (arith, one.ids_bound))
          (omega (arith, one.offsets, one.at_most_one)) in
      record {
        valid = more.valid;
        offsets = omega (arith, one.offsets, more.offsets, length-append stored (run M h' rest).1);
        consecutive =
            Consecutive-append h.ring.next_offset h'.ring.next_offset stored _ one.consecutive
              one.offsets more.consecutive;
      }

  -- While it is registered, a subscriber has been sent exactly the frames stored meanwhile.
  pub run-Extends :
      (actions : List Action) (h : Hub M) (id : ℕ)
      → IsValid M h
      → h.next_id + length actions < u64_mod
      → h.ring.next_offset + length actions < u64_mod
      → id < h.next_id
      → Extends M id h (run M h actions).0 (run M h actions).1
  unfolding run
  run-Extends [] h id v ids offsets lt s' e = (s', e, sym (append-nil _))
  run-Extends (a ∷ rest) h id v ids offsets lt s' e =
      let one = step-Stepped M h v a (omega arith) (omega arith) in
      let (h', stored) = step M h a in
      let (t, found, more) =
        run-Extends rest h' id one.valid (omega (arith, one.ids_bound))
          (omega (arith, one.offsets, one.at_most_one)) (omega (arith, one.ids_grow)) s' e in
      let (s, found', first) = step-Extends M h a id v.distinct lt t found in
      (
        s,
        found',
        more ∙ (ap (λ l. l ++ (run M h' rest).1) first ∙ append_assoc (accepted M s.tx) stored _),
      )

  module _ (h : Hub M) (v : IsValid M h) (replay : ℕ) (ip : String) (port : ℕ)
      (token : Option String) (now : ℕ) (actions : List Action)
      (ids : h.next_id + 1 + length actions < u64_mod)
      (offsets : h.ring.next_offset + 1 + length actions < u64_mod) where
    abbrev subscribed : Hub M
    subscribed = (subscribe M h replay ip port token now).0

    abbrev subscription : Subscription M
    subscription = (subscribe M h replay ip port token now).1

    abbrev end : Hub M
    end = (run M subscribed actions).0

    abbrev stored : List Frame
    stored = (run M subscribed actions).1

    start : Stepped M h subscribed []
    start =
        unfold step in
        step-Stepped M h v (subscribes replay ip port token now) (omega arith) (omega arith)

    ran : Ran subscribed end stored
    ran =
        run-Ran actions subscribed start.valid (omega (arith, start.ids_bound))
          (omega (arith, start.offsets))

    fresh :
        (s : Subscriber M) → lookup subscription.id subscribed.subs ≡ some s → accepted M s.tx ≡ []
    unfolding subscribe
    fresh s e =
        ap (λ t. accepted M t.tx)
          (some-injective s (new_subscriber M h ip port token now)
            (sym e ∙ lookup-insert_self h.next_id _ h.subs))
        ∙ ap₂ ◌++◌ (received-channel h.queue) (queued-channel h.queue)

    id_below : subscription.id < subscribed.next_id
    unfolding subscribe
    id_below = omega (arith, u64_add-eq h.next_id 1 (omega arith))

    same_ring : subscribed.ring ≡ h.ring
    unfolding subscribe
    same_ring = refl

    replayed :
        Consecutive (h.ring.next_offset - length subscription.replay) subscription.replay
        × (length subscription.replay ≡ min replay (length h.ring.frames))
    unfolding subscribe
    replayed = tail-Consecutive v.ring replay

    chained :
        Consecutive
          (end.ring.next_offset - length (subscription.replay ++ stored))
          (subscription.replay ++ stored)
    chained =
        let offset = ap (λ (r : Ring). r.next_offset) same_ring in
        let counted = v.ring.counted in
        let origin : h.ring.next_offset - length subscription.replay
            ≡ end.ring.next_offset - length (subscription.replay ++ stored) =
          omega
            (arith, offset, ran.offsets, replayed.1, length-append subscription.replay stored) in
        subst (λ k. Consecutive k (subscription.replay ++ stored)) origin
          (Consecutive-append (h.ring.next_offset - length subscription.replay) h.ring.next_offset
            subscription.replay stored replayed.0 (omega (arith, replayed.1))
            (subst (λ k. Consecutive k stored) offset ran.consecutive))

    -- A client subscribes to a valid hub, and any calls and client actions follow, fewer than would
    -- make an id or an offset wrap. While it is still registered, it has been sent (read or still
    -- queued) exactly the frames stored since, and its replay of `min replay (frames in the ring)`
    -- frames followed by these has consecutive offsets that end at the newest frame of the ring.
    pub replay_then_live :
        (s : Subscriber M)
        → lookup subscription.id end.subs ≡ some s
        → (accepted M s.tx ≡ stored)
          × (length subscription.replay ≡ min replay (length h.ring.frames))
          × Consecutive
              (end.ring.next_offset - length (subscription.replay ++ accepted M s.tx))
              (subscription.replay ++ accepted M s.tx)
    replay_then_live s e =
        let (s', found, more) =
          run-Extends actions subscribed subscription.id start.valid
            (omega (arith, start.ids_bound)) (omega (arith, start.offsets)) id_below s e in
        let sent : accepted M s.tx ≡ stored = more ∙ ap (λ l. l ++ stored) (fresh s' found) in
        (sent, replayed.1, rw sent chained)
