-- ===== src/Edge/Hub.antt =====
-- src/edge/hub.rs: the table of subscribers and the fan-out that never waits. The mutex makes each
-- call one step. A subscriber that the hub drops moves to `dropped`, where its client still finds
-- the rest of its queue and the close code. The map's order of iteration is that of the list.
pub mod Actions
pub mod Extends
pub mod Invariant
pub mod Gapless
pub mod Fanout
pub mod Publish
pub mod Dropping
pub mod Release
use rust_uma.Prelude.{
  ℕ, ◌+◌, ◌-◌, Option, none, some, Bool, true, false, not, List, [], ◌∷◌, ◌++◌, max, length, take,
  drop, lookup, insert, nat_eq, remove, ltb, filterb, String, if◌then◌else◌, ◌==◌, u64_add, map,
}
use rust_uma.Edge.Ring
use rust_uma.Edge.Ring.{Frame, Ring, RingStats}
use rust_uma.Edge.Channel.{Mpsc, Sent, delivered, full, closed}

abbrev pub close_normal : ℕ
close_normal = 1000

abbrev pub close_policy : ℕ
close_policy = 1008

abbrev pub close_restart : ℕ
close_restart = 1012

pub record ClientInfo : Type 0 where
  pub id : ℕ
  pub ip : String
  pub port : ℕ
  pub token_id : Option String
  pub connected_at_ms : ℕ

-- The counters of `EdgeStats` that the hub writes.
pub record EdgeStats : Type 0 where
  pub deliveries : ℕ
  pub slow_clients_disconnected : ℕ
  pub fanout_last_us : ℕ
  pub fanout_max_us : ℕ

unfoldable pub record_fanout : EdgeStats → ℕ → EdgeStats
record_fanout s us = record s { fanout_last_us = us; fanout_max_us = max s.fanout_max_us us }

module _ (M : Mpsc) where
  open M use {Chan, channel, try_send}

  pub record Subscriber : Type 0 where
    pub info : ClientInfo
    pub tx : Chan
    pub close_code : ℕ

  pub record Hub : Type 0 where
    pub ring : Ring
    pub subs : List (ℕ × Subscriber)
    pub dropped : List (ℕ × Subscriber)
    pub next_id : ℕ
    pub queue : ℕ
    pub stats : EdgeStats

  -- What the loop over the subscribers leaves: who stays, who goes, and the two counts.
  pub record Fanned : Type 0 where
    pub kept : List (ℕ × Subscriber)
    pub evicted : List (ℕ × Subscriber)
    pub deliveries : ℕ
    pub slow : ℕ

  pub record Subscription : Type 0 where
    pub id : ℕ
    pub replay : List Frame

  unfoldable pub new : ℕ → ℕ → EdgeStats → Hub
  new ring_capacity queue stats = record {
    ring = Ring.new ring_capacity;
    subs = [];
    dropped = [];
    next_id = 1;
    queue = max queue 1;
    stats = stats;
  }

  -- One turn of the loop of `publish`: the answer of `try_send` decides.
  abbrev pub place : ℕ → Subscriber → Chan → Sent → Fanned → Fanned
  place id s tx delivered r = record r {
    kept = (id, record s { tx = tx }) ∷ r.kept;
    deliveries = r.deliveries + 1;
  }
  place id s tx full r = record r {
    evicted = (id, record s { tx = tx; close_code = close_policy }) ∷ r.evicted;
    slow = r.slow + 1;
  }
  place id s tx closed r = record r { evicted = (id, record s { tx = tx }) ∷ r.evicted }

  unfoldable pub fan_out : Frame → List (ℕ × Subscriber) → Fanned
  fan_out f [] = record { kept = []; evicted = []; deliveries = 0; slow = 0 }
  fan_out f ((id, s) ∷ rest) = place id s (try_send s.tx f).0 (try_send s.tx f).1 (fan_out f rest)

  abbrev count_fanned : EdgeStats → Fanned → ℕ → EdgeStats
  count_fanned s r elapsed_us =
      record_fanout
        (record s {
          deliveries = u64_add s.deliveries r.deliveries;
          slow_clients_disconnected =
              if ltb 0 r.slow
              then u64_add s.slow_clients_disconnected r.slow
              else s.slow_clients_disconnected;
        })
        elapsed_us

  unfoldable pub publish : Hub → Frame → ℕ → Hub × Frame
  publish h f elapsed_us =
      let (ring, stored) = Ring.push h.ring f in
      let fanned = fan_out stored h.subs in
      (
        record h {
          ring = ring;
          subs = fanned.kept;
          dropped = fanned.evicted ++ h.dropped;
          stats = count_fanned h.stats fanned elapsed_us;
        },
        stored,
      )

  abbrev pub new_subscriber : Hub → String → ℕ → Option String → ℕ → Subscriber
  new_subscriber h ip port token_id now_ms = record {
    info = record {
      id = h.next_id;
      ip = ip;
      port = port;
      token_id = token_id;
      connected_at_ms = now_ms;
    };
    tx = channel h.queue;
    close_code = close_normal;
  }

  unfoldable pub subscribe : Hub → ℕ → String → ℕ → Option String → ℕ → Hub × Subscription
  subscribe h replay ip port token_id now_ms = (
    record h {
      next_id = u64_add h.next_id 1;
      subs = insert h.next_id (new_subscriber h ip port token_id now_ms) h.subs;
    },
    record { id = h.next_id; replay = Ring.tail h.ring replay },
  )

  -- `subs.remove(id)`, and what is done to the subscriber that comes out.
  unfoldable pub drop_sub : Hub → ℕ → (Subscriber → Subscriber) → Hub
  drop_sub h id mark = elim (lookup id h.subs) [
    | none ↦ h
    | some s ↦ record h { subs = remove id h.subs; dropped = (id, mark s) ∷ h.dropped }
  ]

  unfoldable pub unsubscribe : Hub → ℕ → Hub
  unfolding drop_sub
  unsubscribe h id = drop_sub h id (λ s. s)

  abbrev pub with_code : ℕ → Subscriber → Subscriber
  with_code code s = record s { close_code = code }

  unfoldable pub drop_all : List ℕ → ℕ → Hub → Hub
  drop_all [] code h = h
  drop_all (id ∷ ids) code h = drop_all ids code (drop_sub h id (with_code code))

  abbrev pub ids : List (ℕ × Subscriber) → List ℕ
  ids subs = map (λ p. p.0) subs

  unfoldable pub release : Hub → ℕ → ℕ → Hub × ℕ
  release h n code = let gone = take n (ids h.subs) in (drop_all gone code h, length gone)

  abbrev pub fails : (String → Bool) → Subscriber → Bool
  fails keep s = elim s.info.token_id [ none ↦ false | some t ↦ not (keep t) ]

  unfoldable pub kick_tokens : Hub → (String → Bool) → Hub × ℕ
  kick_tokens h keep =
      let gone = ids (filterb (λ p. fails keep p.1) h.subs) in
      (drop_all gone close_policy h, length gone)

  abbrev pub clients : Hub → ℕ
  clients h = length h.subs

  unfoldable pub ring_stats : Hub → RingStats × ℕ
  ring_stats h = (Ring.stats h.ring, h.ring.capacity)
