-- ===== src/Edge/Examples.antt =====
-- Tests of the edge node, and its theorems at concrete inputs: a ring of two frames,
-- and a hub with clients that read, lag behind and go away.
use rust_uma.Prelude.{
  ℕ, ◌+◌, ◌-◌, ◌*◌, ◌≡◌, ◌<◌, ◌⊎◌, refl, true, false, none, some, List, [], ◌∷◌, ◌++◌, arith,
  length, last_n, lookup, nat_eq, Distinct, keys,
}
use rust_uma.Edge.Ring
use rust_uma.Edge.Sample.{list_channel, zero_stats}
use rust_uma.Edge.Ring.{Frame, Ring, RingStats}
use rust_uma.Edge.Ring.Offsets.{Consecutive}
use rust_uma.Edge.Ring.Refine.{push_all, stamped, push_all_refines, stats_lem}
use rust_uma.Edge.Channel.{Mpsc, accepted}
use rust_uma.Edge.Hub
use rust_uma.Edge.Hub.Actions
use rust_uma.Edge.Hub.{
  Hub, Subscriber, EdgeStats, publish, subscribe, release, kick_tokens, close_policy, close_restart,
  clients, fails,
}
use rust_uma.Edge.Hub.Actions.{Action, publishes, subscribes, client_reads, run, step}
use rust_uma.Edge.Hub.Invariant.{IsValid, new-IsValid}
use rust_uma.Edge.Hub.Gapless.{run-Ran, replay_then_live}
use rust_uma.Edge.Hub.Publish.{publish_delivers, publish_drops_slow, publish_drops_gone}
use rust_uma.Edge.Hub.Release.{release_lem, kick_tokens_lem, Stays, Goes}

abbrev frame : ℕ → Frame
frame n = record {
  offset = 0;
  batch_sequence = n;
  event_sequence = n * 10;
  bytes = n ∷ [];
  recv_at_us = 0;
}

abbrev frames : List Frame
frames = frame 1 ∷ frame 2 ∷ frame 3 ∷ []

push_all_refines_example : (push_all (Ring.new 2) frames).frames ≡ last_n 2 (stamped 1 frames)
push_all_refines_example = push_all_refines 2 frames (omega arith)

stats_lem_example :
    let s = Ring.stats (push_all (Ring.new 2) frames) in
    (s.count ≡ 2) × (s.latest_offset ≡ 3) × (0 < 3 → s.oldest_offset ≡ 2)
stats_lem_example = stats_lem 2 frames (omega arith)

abbrev M : Mpsc
M = list_channel

-- One frame was published before the client comes, then two more, of which it reads one.
abbrev before : Hub M
before = (publish M (Hub.new M 4 2 zero_stats) (frame 1) 5).0

before-IsValid : IsValid M before
unfolding Ring.new Hub.new Actions.run Actions.step
before-IsValid =
    (run-Ran M (publishes (frame 1) 5 ∷ []) (Hub.new M 4 2 zero_stats)
      (new-IsValid M 4 2 zero_stats) (omega arith) (omega arith)).valid

abbrev joined : Hub M
joined = (subscribe M before 3 "10.0.0.1" 9 (some "t1") 100).0

abbrev later : List Action
later = publishes (frame 2) 5 ∷ client_reads 1 ∷ publishes (frame 3) 5 ∷ []

abbrev ended : Hub M
ended = (run M joined later).0

-- The client after that: it has read the second frame, and the third waits.
abbrev client : List Frame → List Frame → ℕ → Subscriber M
client received queued code = record {
  info = record { id = 1; ip = "10.0.0.1"; port = 9; token_id = some "t1"; connected_at_ms = 100 };
  tx = record { size = 2; received = received; queued = queued; is_closed = false };
  close_code = code;
}

abbrev at : ℕ → Frame → Frame
at n f = record f { offset = n }

client_end : lookup 1 ended.subs ≡ some (client (at 2 (frame 2) ∷ []) (at 3 (frame 3) ∷ []) 1000)
unfolding Ring.new Ring.push Ring.tail Hub.new Hub.publish Hub.subscribe Hub.fan_out Actions.run
    Actions.step Actions.on_channel
client_end = refl

replay_then_live_example :
    let s = client (at 2 (frame 2) ∷ []) (at 3 (frame 3) ∷ []) 1000 in
    (accepted M s.tx ≡ (run M joined later).1)
    × (length (subscribe M before 3 "10.0.0.1" 9 (some "t1") 100).1.replay ≡ 1)
    × Consecutive
        (ended.ring.next_offset
          - length
              ((subscribe M before 3 "10.0.0.1" 9 (some "t1") 100).1.replay ++ accepted M s.tx))
        ((subscribe M before 3 "10.0.0.1" 9 (some "t1") 100).1.replay ++ accepted M s.tx)
unfolding Ring.new Ring.push Ring.tail Hub.new Hub.publish Hub.subscribe Hub.fan_out Actions.run
    Actions.step Actions.on_channel
replay_then_live_example =
    replay_then_live M before before-IsValid 3 "10.0.0.1" 9 (some "t1") 100 later (omega arith)
      (omega arith) (client (at 2 (frame 2) ∷ []) (at 3 (frame 3) ∷ []) 1000) client_end

joined-Distinct : Distinct (keys joined.subs)
unfolding Ring.new Ring.push Ring.tail Hub.new Hub.publish Hub.subscribe Hub.fan_out
joined-Distinct = (refl, tt)

publish_delivers_example :
    let s = client [] [] 1000 in
    let (h', stored) = publish M joined (frame 2) 5 in
    (t : Subscriber M) × (lookup 1 h'.subs ≡ some t)
    × (t.tx.queued ≡ s.tx.queued ++ (stored ∷ []))
    × (t.tx.received ≡ s.tx.received)
    × (t.close_code ≡ s.close_code)
unfolding Ring.new Ring.push Ring.tail Hub.new Hub.publish Hub.subscribe Hub.fan_out
publish_delivers_example =
    publish_delivers M joined (frame 2) 5 1 (client [] [] 1000) joined-Distinct refl refl
      (omega arith)

-- A client whose queue of two frames is full, and one that has gone.
abbrev lagging : Subscriber M
lagging = client [] (at 1 (frame 1) ∷ at 2 (frame 2) ∷ []) 1000

abbrev gone : Subscriber M
gone = record lagging { tx = record lagging.tx { is_closed = true } }

abbrev with_client : Subscriber M → Hub M
with_client s = record {
  ring = record { frames = []; capacity = 4; next_offset = 3 };
  subs = (1, s) ∷ [];
  dropped = [];
  next_id = 2;
  queue = 2;
  stats = zero_stats;
}

publish_drops_slow_example :
    let h' = (publish M (with_client lagging) (frame 3) 5).0 in
    (lookup 1 h'.subs ≡ none)
    × ((t : Subscriber M) × (lookup 1 h'.dropped ≡ some t)
        × (t.close_code ≡ close_policy)
        × (accepted M t.tx ≡ accepted M lagging.tx))
publish_drops_slow_example =
    publish_drops_slow M (with_client lagging) (frame 3) 5 1 lagging (refl, tt) refl refl
      (omega arith)

publish_drops_gone_example :
    let h' = (publish M (with_client gone) (frame 3) 5).0 in
    (lookup 1 h'.subs ≡ none)
    × ((t : Subscriber M) × (lookup 1 h'.dropped ≡ some t) × (t.close_code ≡ 1000))
publish_drops_gone_example =
    publish_drops_gone M (with_client gone) (frame 3) 5 1 gone (refl, tt) refl refl

release_lem_example :
    let (h', count) = release M (with_client lagging) 5 close_restart in
    (count ≡ 1)
    × (clients M h' + count ≡ 1)
    × ((id : ℕ) (s : Subscriber M)
        → Stays M (with_client lagging) id s
        → Stays M h' id s ⊎ Goes M h' id s close_restart)
release_lem_example = release_lem M (with_client lagging) (refl, tt) 5 close_restart

kick_tokens_lem_example :
    let (h', count) = kick_tokens M (with_client lagging) (λ t. false) in
    (clients M h' + count ≡ 1)
    × ((id : ℕ) (s : Subscriber M)
        → Stays M (with_client lagging) id s
        → (fails M (λ t. false) s ≡ true → Goes M h' id s close_policy)
          × (fails M (λ t. false) s ≡ false → Stays M h' id s))
kick_tokens_lem_example = kick_tokens_lem M (with_client lagging) (refl, tt) (λ t. false)
