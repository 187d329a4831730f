-- ===== src/Forfeit.antt =====
-- src/forfeit.rs: the markets of forfeited matches, whose events are not broadcast. `now` is the
-- clock's reading. `state` and `index` have locks of their own, and a call takes them one after the
-- other: each part under a lock is a definition of its own.
use Prim.Native.String.{◌++◌ as text_append}
use rust_uma.Prelude.{
  ℕ, suc, ◌+◌, ◌-◌, ◌==◌, Bool, true, false, not, ◌&&◌, ◌||◌, Option, none, some, List, [], ◌∷◌,
  ◌++◌, String, string_eq, ◌=?◌, if◌then◌else◌, ltb, leb, max, min, length, take, any, filterb,
  lookup, insert, contains, insert_ordered, nat_eq, bytes_eq, Bytes, u64_mod, u64_add, sort_by, map,
  ◌≡◌, text_gt,
}
use rust_uma.Model.{EventRecord, EventKind, kind, chain, resolved_condition_id}
pub mod Feed
pub mod Saved
pub mod Marks
mod Examples

pub record BlockedMarket : Type 0 where
  pub condition_id : String
  pub sports_market_type : String
  pub game_number : ℕ
  pub question : String
  pub is_forfeited_market : Bool

pub record BlockedMatch : Type 0 where
  pub pandascore_match_id : ℕ
  pub game : String
  pub league : String
  pub match_name : String
  pub team_a : String
  pub team_b : String
  pub winner : String
  pub forfeited_games : List ℕ
  pub pm_event_slug : String
  pub lookup_status : String
  pub markets : List BlockedMarket
  pub detect_at_us : ℕ
  pub added_at_us : ℕ
  pub updated_at_us : ℕ
  pub feed_sequences : List ℕ
  pub blocked_events : ℕ

pub record BlockedEvent : Type 0 where
  pub sequence : ℕ
  pub kind : String
  pub transaction_hash : String
  pub condition_id : String
  pub market_id : ℕ
  pub pandascore_match_id : ℕ
  pub match_name : String
  pub blocked_at_us : ℕ

pub record State : Type 0 where
  pub matches : List (ℕ × BlockedMatch)
  pub recent_blocked : List BlockedEvent
  pub last_feed_sequence : ℕ
  pub blocked_events_total : ℕ

pub record Entry : Type 0 where
  pub match_id : ℕ
  pub added_at_us : ℕ

pub record ForfeitBlocklist : Type 0 where
  pub enabled : Bool
  pub ttl_us : ℕ
  pub index : List (Bytes × Entry)
  pub state : State

-- A message of the feed, as the generated decoder gives it.
pub record FeedMarket : Type 0 where
  pub condition_id : Bytes
  pub sports_market_type : String
  pub game_number : ℕ
  pub question : String
  pub is_forfeited_market : Bool

pub record ForfeitEvent : Type 0 where
  pub sequence : ℕ
  pub pandascore_match_id : ℕ
  pub game : String
  pub league : String
  pub match_name : String
  pub team_a : String
  pub team_b : String
  pub winner : String
  pub forfeited_game_number : ℕ
  pub pm_event_slug : String
  pub detect_at_us : ℕ
  -- The text of `lookup_status`: `matched`, `not_found`, `failed` or `unspecified`.
  pub status : String
  pub condition_ids : List Bytes
  pub markets : List FeedMarket

-- `0x` with the digits of the `hex` library, and reading such a text back.
pub record Hex : Type 0 where
  pub hex_prefixed : Bytes → String
  pub read : String → Option Bytes
  pub round_trip : (b : Bytes) → read (hex_prefixed b) ≡ some b

unfoldable pub empty : Bool → ℕ → ForfeitBlocklist
empty enabled ttl_us = record {
  enabled = enabled;
  ttl_us = ttl_us;
  index = [];
  state = record {
    matches = [];
    recent_blocked = [];
    last_feed_sequence = 0;
    blocked_events_total = 0;
  };
}

abbrev pub match_of : Option Entry → Option ℕ
match_of none = none
match_of (some e) = some e.match_id

unfoldable pub lookup_match : ForfeitBlocklist → Bytes → Option ℕ
lookup_match l condition_id = if l.enabled then match_of (lookup condition_id l.index) else none

abbrev pub added_by : ℕ → Option Entry → Bool
added_by at_us none = false
added_by at_us (some e) = leb e.added_at_us at_us

unfoldable pub blocked_before : ForfeitBlocklist → Bytes → ℕ → Bool
blocked_before l condition_id at_us = added_by at_us (lookup condition_id l.index)

abbrev pub recent_limit : ℕ
recent_limit = 200

abbrev pub is_id : Bytes → Bool
is_id b = length b == 32

abbrev pub names : String → BlockedMarket → Bool
names hex m = m.condition_id =? hex

-- `entry(id).or_insert`.
unfoldable pub or_insert : Bytes → Entry → List (Bytes × Entry) → List (Bytes × Entry)
or_insert id e index = elim (lookup id index) [ none ↦ insert id e index | some old ↦ index ]

unfoldable pub add_all : Entry → List Bytes → List (Bytes × Entry) → List (Bytes × Entry)
add_all e [] index = index
add_all e (id ∷ ids) index = add_all e ids (or_insert id e index)

-- The markets of a match while a message is merged, and the ids that are new.
pub record Merge : Type 0 where
  pub markets : List BlockedMarket
  pub new_ids : List Bytes

abbrev pub push_new : BlockedMarket → Bytes → Merge → Merge
push_new m id acc = record { markets = acc.markets ++ (m ∷ []); new_ids = acc.new_ids ++ (id ∷ []) }
