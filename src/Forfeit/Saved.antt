-- ===== src/Forfeit/Saved.antt =====
-- The file that src/forfeit.rs keeps of its list, and the start of the program from it. What the
-- file system and the JSON library make of the file is an argument: `none` when there is no snapshot to read.
use rust_uma.Prelude.{
  ℕ, ◌==◌, not, Bool, true, false, Option, none, some, List, [], ◌∷◌, ◌++◌, if◌then◌else◌,
  insert_ordered, map, ltb, ◌≡◌, Bytes,
}
use rust_uma.Model.{EventRecord}
use rust_uma.Forfeit.{
  BlockedMatch, BlockedEvent, State, ForfeitBlocklist, ForfeitEvent, Hex, Entry, empty,
}
use rust_uma.Forfeit.Feed.{
  Pending, apply_state, apply_index, prune_state, prune, build_index, record_blocked,
}
pub mod Apart
pub mod Exact
pub mod Since
pub mod Lasting
pub mod Restart

pub record Snapshot : Type 0 where
  pub version : ℕ
  pub last_feed_sequence : ℕ
  pub blocked_events_total : ℕ
  pub matches : List BlockedMatch
  pub recent_blocked : List BlockedEvent

abbrev pub snapshot_version : ℕ
snapshot_version = 1

-- What is written: `snapshot_bytes` before the JSON library.
unfoldable pub snapshot : ForfeitBlocklist → Snapshot
snapshot l = record {
  version = snapshot_version;
  last_feed_sequence = l.state.last_feed_sequence;
  blocked_events_total = l.state.blocked_events_total;
  matches = map (λ p. p.1) l.state.matches;
  recent_blocked = l.state.recent_blocked;
}

-- `collect` into an ordered map.
unfoldable pub collect : List BlockedMatch → List (ℕ × BlockedMatch) → List (ℕ × BlockedMatch)
collect [] acc = acc
collect (m ∷ ms) acc = collect ms (insert_ordered m.pandascore_match_id m acc)

-- The list, and the calls of its two tasks that are between their parts: the task of the feed merges
-- one message after the other, and the saver removes old matches.
pub record Tasks : Type 0 where
  pub list : ForfeitBlocklist
  pub applying : Option Pending
  pub pruning : Option (List (Bytes × Entry))

-- The next part of a call of one of them, or an event that is held back.
pub data Step : Type 0 where
  merges : ForfeitEvent → ℕ → Step
  indexes : Step
  removes : ℕ → Step
  stores : Step
  holds_back : EventRecord → ℕ → ℕ → Step

abbrev pub idle : ForfeitBlocklist → Tasks
idle l = record { list = l; applying = none; pruning = none }

abbrev pub end_prune : Option (List (Bytes × Entry)) → Tasks → Tasks
end_prune none t = t
end_prune (some built) t = record t { list = record t.list { index = built }; pruning = none }

module _ (H : Hex) where
  unfoldable pub read_back : ForfeitBlocklist → Snapshot → ForfeitBlocklist
  read_back l s =
      let matches = collect s.matches [] in
      record l {
        state = record {
          matches = matches;
          recent_blocked = s.recent_blocked;
          last_feed_sequence = s.last_feed_sequence;
          blocked_events_total = s.blocked_events_total;
        };
        index = build_index H matches;
      }

  unfoldable pub load : ForfeitBlocklist → Option Snapshot → ℕ → ForfeitBlocklist
  load l none now = l
  load l (some s) now =
      if not (s.version == snapshot_version) then l else (prune H (read_back l s) now).0

  unfoldable pub from_config : Bool → ℕ → Option Snapshot → ℕ → ForfeitBlocklist
  from_config has_feed ttl_us file now =
      if has_feed then load (empty true ttl_us) file now else empty false 0

  abbrev pub begin_apply : Option Pending → Tasks → ForfeitEvent → ℕ → Tasks
  begin_apply (some p) t event now = t
  begin_apply none t event now =
      let (state, p) = apply_state H t.list.state event now in
      record t { list = record t.list { state = state }; applying = some p }

  abbrev pub end_apply : Option Pending → Tasks → Tasks
  end_apply none t = t
  end_apply (some p) t = record t {
    list = record t.list { index = apply_index H p t.list.index };
    applying = none;
  }

  abbrev pub begin_prune : Option (List (Bytes × Entry)) → Tasks → ℕ → Tasks
  begin_prune (some built) t now = t
  begin_prune none t now =
      let (l, built, removed) = prune_state H t.list now in record t { list = l; pruning = built }

  -- A task that is between the parts of a call does not begin another one, and one that is not has no
  -- second part to take: such a step leaves all as it is.
  unfoldable pub step : Tasks → Step → Tasks
  step t (merges event now) = begin_apply t.applying t event now
  step t indexes = end_apply t.applying t
  step t (removes now) = begin_prune t.pruning t now
  step t stores = end_prune t.pruning t
  step t (holds_back r match_id now) = record t { list = record_blocked H t.list r match_id now }

  unfoldable pub run : Tasks → List Step → Tasks
  run t [] = t
  run t (s ∷ steps) = run (step t s) steps
