-- ===== src/Forfeit/Feed.antt =====
-- The changes of the list of src/forfeit.rs: a message of the feed, the removal of old matches, and an
-- event that was held back.
use Prim.Native.String.{◌++◌ as text_append}
use rust_uma.Prelude.{
  ℕ, suc, ◌+◌, ◌-◌, ◌==◌, Bool, true, false, not, ◌&&◌, ◌||◌, Option, none, some, List, [], ◌∷◌,
  ◌++◌, String, string_eq, ◌=?◌, if◌then◌else◌, ltb, leb, max, min, length, take, any, filterb,
  lookup, insert, contains, insert_ordered, nat_eq, bytes_eq, Bytes, u64_mod, u64_add, sort_by, map,
  ◌≡◌, text_gt,
}
use rust_uma.Model.{
  EventRecord, MarketEnrichment, EventKind, propose, dispute, kind, chain, resolved_condition_id,
}
use rust_uma.Forfeit.{
  BlockedMarket, BlockedMatch, BlockedEvent, State, Entry, ForfeitBlocklist, FeedMarket,
  ForfeitEvent, Hex, Merge, push_new, is_id, or_insert, add_all, recent_limit, empty,
}
pub mod Index
pub mod Blocking
pub mod Removal

-- What `apply` leaves to do for the index.
pub record Pending : Type 0 where
  pub entry : Entry
  pub new_ids : List Bytes
  pub changed : Bool

-- The index after a removal stores its own.
abbrev pub stored : Option (List (Bytes × Entry)) → List (Bytes × Entry) → List (Bytes × Entry)
stored none index = index
stored (some built) index = built

module _ (H : Hex) where
  open H use {hex_prefixed, read}

  abbrev pub detailed : FeedMarket → BlockedMarket
  detailed m = record {
    condition_id = hex_prefixed m.condition_id;
    sports_market_type = m.sports_market_type;
    game_number = m.game_number;
    question = m.question;
    is_forfeited_market = m.is_forfeited_market;
  }

  abbrev pub bare : Bytes → BlockedMarket
  bare id = record {
    condition_id = hex_prefixed id;
    sports_market_type = "";
    game_number = 0;
    question = "";
    is_forfeited_market = false;
  }

  -- The loop over `markets`, and then the one over `condition_ids`.
  unfoldable pub merge_markets : List String → List FeedMarket → Merge → Merge
  merge_markets known [] acc = acc
  merge_markets known (m ∷ ms) acc = merge_markets known ms (
      if not (is_id m.condition_id) || contains (hex_prefixed m.condition_id) known
      then acc
      else push_new (detailed m) m.condition_id acc)

  unfoldable pub merge_ids : List String → List Bytes → Merge → Merge
  merge_ids known [] acc = acc
  merge_ids known (id ∷ ids) acc = merge_ids known ids (
      if not (is_id id) || (contains (hex_prefixed id) known || contains id acc.new_ids)
      then acc
      else push_new (bare id) id acc)

  -- `sort_by`: by the number of the game, then by the type.
  abbrev pub market_after : BlockedMarket → BlockedMarket → Bool
  market_after a b =
      ltb b.game_number a.game_number
      || ((a.game_number == b.game_number) && text_gt a.sports_market_type b.sports_market_type)

  abbrev pub known_ids : List BlockedMarket → List String
  known_ids markets = map (λ m. m.condition_id) markets

  unfoldable pub merged : List BlockedMarket → ForfeitEvent → Merge
  merged markets event =
      let known = known_ids markets in
      merge_ids known event.condition_ids
        (merge_markets known event.markets (record { markets = markets; new_ids = [] }))

  abbrev pub is_empty {ℓ} : {A : Type ℓ} → List A → Bool
  is_empty [] = true
  is_empty (x ∷ xs) = false

  abbrev pub add_sorted : ℕ → List ℕ → List ℕ
  add_sorted n ns = if contains n ns then ns else sort_by (λ a b. ltb b a) (ns ++ (n ∷ []))

  abbrev pub next_status : String → String → String
  next_status old new = if old =? "matched" then old else new

  abbrev pub next_slug : String → String → String
  next_slug old new = if new =? "" then old else new

  abbrev pub new_match : ForfeitEvent → ℕ → BlockedMatch
  new_match event now = record {
    pandascore_match_id = event.pandascore_match_id;
    game = event.game;
    league = event.league;
    match_name = event.match_name;
    team_a = event.team_a;
    team_b = event.team_b;
    winner = event.winner;
    forfeited_games = [];
    pm_event_slug = "";
    lookup_status = event.status;
    markets = [];
    detect_at_us = event.detect_at_us;
    added_at_us = now;
    updated_at_us = now;
    feed_sequences = [];
    blocked_events = 0;
  }

  abbrev pub or_new : Option BlockedMatch → ForfeitEvent → ℕ → BlockedMatch
  or_new none event now = new_match event now
  or_new (some m) event now = m

  abbrev pub is_new : Option BlockedMatch → Bool
  is_new none = true
  is_new (some m) = false

  -- Whether the message changes anything of the match.
  unfoldable pub changes : BlockedMatch → ForfeitEvent → Bool
  changes m event =
      not (contains event.forfeited_game_number m.forfeited_games)
      || (not (contains event.sequence m.feed_sequences)
          || (not (next_status m.lookup_status event.status =? m.lookup_status)
              || (not (next_slug m.pm_event_slug event.pm_event_slug =? m.pm_event_slug)
                  || not (is_empty (merged m.markets event).new_ids))))

  unfoldable pub update_match : BlockedMatch → ForfeitEvent → ℕ → Bool → BlockedMatch
  update_match m event now changed =
      let all = merged m.markets event in
      record m {
        forfeited_games = add_sorted event.forfeited_game_number m.forfeited_games;
        feed_sequences = add_sorted event.sequence m.feed_sequences;
        lookup_status = next_status m.lookup_status event.status;
        pm_event_slug = next_slug m.pm_event_slug event.pm_event_slug;
        markets = if is_empty all.new_ids then m.markets else sort_by market_after all.markets;
        updated_at_us = if changed then now else m.updated_at_us;
      }

  -- The part of `apply` under the lock of `state`.
  unfoldable pub apply_state : State → ForfeitEvent → ℕ → State × Pending
  apply_state s event now =
      let id = event.pandascore_match_id in
      let known = lookup id s.matches in
      let m = or_new known event now in
      let changed = is_new known || changes m event in
      (
        record s {
          last_feed_sequence = max s.last_feed_sequence event.sequence;
          matches = insert_ordered id (update_match m event now changed) s.matches;
        },
        record {
          entry = record { match_id = id; added_at_us = m.added_at_us };
          new_ids = (merged m.markets event).new_ids;
          changed = changed;
        },
      )

  unfoldable pub apply_index : Pending → List (Bytes × Entry) → List (Bytes × Entry)
  apply_index p index = add_all p.entry p.new_ids index

  -- `apply` when no other call comes between its parts.
  unfoldable pub apply : ForfeitBlocklist → ForfeitEvent → ℕ → ForfeitBlocklist × Bool
  apply l event now =
      let (state, p) = apply_state l.state event now in
      (record l { state = state; index = apply_index p l.index }, p.changed)

  -- The id that a market's text stands for, if it is one.
  abbrev pub id_of : Option Bytes → Option Bytes
  id_of none = none
  id_of (some b) = if is_id b then some b else none

  abbrev pub add_named : Entry → Option Bytes → List (Bytes × Entry) → List (Bytes × Entry)
  add_named e none index = index
  add_named e (some id) index = or_insert id e index

  unfoldable pub index_markets :
      Entry → List BlockedMarket → List (Bytes × Entry) → List (Bytes × Entry)
  index_markets e [] index = index
  index_markets e (m ∷ ms) index =
      index_markets e ms (add_named e (id_of (read m.condition_id)) index)

  unfoldable pub index_matches :
      List (ℕ × BlockedMatch) → List (Bytes × Entry) → List (Bytes × Entry)
  index_matches [] index = index
  index_matches ((k, m) ∷ ms) index = index_matches ms (
      index_markets (record { match_id = m.pandascore_match_id; added_at_us = m.added_at_us })
        m.markets index)

  unfoldable pub build_index : List (ℕ × BlockedMatch) → List (Bytes × Entry)
  build_index matches = index_matches matches []

  -- `saturating_add` stops at the largest 64-bit number.
  abbrev pub saturating_add : ℕ → ℕ → ℕ
  saturating_add a b = min (a + b) (u64_mod - 1)

  abbrev pub is_kept : ℕ → ℕ → ℕ × BlockedMatch → Bool
  is_kept ttl_us now p = ltb now (saturating_add p.1.added_at_us ttl_us)

  -- The part of `prune` under the lock of `state`: the index that is still to be stored, if a match was
  -- removed, and the number of those.
  unfoldable pub prune_state :
      ForfeitBlocklist → ℕ → ForfeitBlocklist × Option (List (Bytes × Entry)) × ℕ
  prune_state l now =
      let kept = filterb (is_kept l.ttl_us now) l.state.matches in
      let removed = length l.state.matches - length kept in
      if l.ttl_us == 0 then (l, none, 0) else (
        record l { state = record l.state { matches = kept } },
        if ltb 0 removed then some (build_index kept) else none,
        removed,
      )

  -- `prune` when no other call comes between its parts.
  unfoldable pub prune : ForfeitBlocklist → ℕ → ForfeitBlocklist × ℕ
  prune l now =
      let (l', built, removed) = prune_state l now in
      (record l' { index = stored built l'.index }, removed)

  abbrev pub kind_text : EventKind → String
  kind_text propose = "propose"
  kind_text dispute = "dispute"

  abbrev pub market_or_zero : Option MarketEnrichment → ℕ
  market_or_zero none = 0
  market_or_zero (some e) = e.market_id

  abbrev pub name_of : Option BlockedMatch → String
  name_of none = ""
  name_of (some m) = text_append m.team_a (text_append " vs " m.team_b)

  abbrev pub counted : ℕ → Option BlockedMatch → List (ℕ × BlockedMatch) → List (ℕ × BlockedMatch)
  counted id none matches = matches
  counted id (some m) matches =
      insert_ordered id (record m { blocked_events = u64_add m.blocked_events 1 }) matches

  unfoldable pub record_blocked : ForfeitBlocklist → EventRecord → ℕ → ℕ → ForfeitBlocklist
  record_blocked l r match_id now =
      let s = l.state in
      let event : BlockedEvent = record {
        sequence = r.sequence;
        kind = kind_text (kind r.event);
        transaction_hash = hex_prefixed (chain r.event).transaction_hash;
        condition_id = hex_prefixed (resolved_condition_id r);
        market_id = market_or_zero r.enrichment;
        pandascore_match_id = match_id;
        match_name = name_of (lookup match_id s.matches);
        blocked_at_us = now;
      } in
      record l {
        state = record s {
          blocked_events_total = u64_add s.blocked_events_total 1;
          matches = counted match_id (lookup match_id s.matches) s.matches;
          recent_blocked = take recent_limit (event ∷ s.recent_blocked);
        };
      }
