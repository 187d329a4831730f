-- ===== src/Forfeit/Examples.antt =====
-- Tests of the list, and its theorems at concrete inputs: a match with two markets.
use rust_uma.Prelude.{
  ℕ, ◌≡◌, ◌≢◌, refl, true, false, none, some, List, [], ◌∷◌, replicate, Bytes, contains, keys,
  bytes_eq, nat_eq, sort_by, insert_sorted,
}
use rust_uma.Forfeit.{ForfeitEvent, ForfeitBlocklist, empty, lookup_match, or_insert, add_all}
use rust_uma.Forfeit.Marks.{marks}
use rust_uma.Forfeit.Feed.{
  merge_markets, merge_ids, merged, changes, update_match, apply_state, apply_index, apply,
  index_markets, index_matches, build_index, prune_state, prune,
}
use rust_uma.Forfeit.Feed.Index.{is_claimed}
use rust_uma.Forfeit.Saved.{
  snapshot, load, from_config, Tasks, Step, merges, indexes, removes, stores, idle, step, run,
}
use rust_uma.Forfeit.Saved.Apart.{AllApart, settled}
use rust_uma.Forfeit.Saved.Exact.{index_is_exact, prune-lookup_match}
use rust_uma.Forfeit.Saved.Lasting.{apply-lookup_lasts}
use rust_uma.Forfeit.Saved.Restart.{snapshot-from_config}

abbrev id_of_byte : ℕ → Bytes
id_of_byte b = replicate 32 b

abbrev event_of : ℕ → ℕ → List Bytes → ForfeitEvent
event_of sequence match_id ids = record {
  sequence = sequence;
  pandascore_match_id = match_id;
  game = "dota2";
  league = "league";
  match_name = "A vs B";
  team_a = "A";
  team_b = "B";
  winner = "A";
  forfeited_game_number = 1;
  pm_event_slug = "";
  detect_at_us = 900;
  status = "matched";
  condition_ids = ids;
  markets = [];
}

abbrev first_steps : List Step
first_steps = merges (event_of 1 7 (id_of_byte 1 ∷ [])) 1000 ∷ indexes ∷ []

abbrev first : Tasks
first = run marks (idle (from_config marks true 1000 none 500)) first_steps

abbrev started : ForfeitBlocklist
started = first.list

-- The same message once more changes nothing; one with a further id does.
again_is_known : (apply marks started (event_of 1 7 (id_of_byte 1 ∷ [])) 2000).1 ≡ false
unfolding run step from_config load empty apply apply_state apply_index changes update_match merged
    merge_markets merge_ids or_insert add_all sort_by insert_sorted
again_is_known = refl

another_is_new :
    (apply marks started (event_of 1 7 (id_of_byte 1 ∷ id_of_byte 2 ∷ [])) 2000).1 ≡ true
unfolding run step from_config load empty apply apply_state apply_index changes update_match merged
    merge_markets merge_ids or_insert add_all sort_by insert_sorted
another_is_new = refl

looked_up : lookup_match started (id_of_byte 1) ≡ some 7
unfolding run step from_config load empty apply apply_state apply_index changes update_match merged
    merge_markets merge_ids or_insert add_all lookup_match sort_by insert_sorted
looked_up = refl

-- A removal computes its index and releases the lock of the state; a message of the feed is applied;
-- then the removal stores its index. The id of the message is claimed by a match and is not looked up.
a_removal_undoes_a_message :
    let t =
      run marks first
        (removes 2000 ∷ merges (event_of 2 8 (id_of_byte 2 ∷ [])) 2000 ∷ indexes ∷ stores ∷ []) in
    (is_claimed marks (id_of_byte 2) t.list.state.matches ≡ true)
    × (lookup_match t.list (id_of_byte 2) ≡ none)
unfolding AllApart run step from_config load empty apply apply_state apply_index changes
    update_match merged merge_markets merge_ids or_insert add_all prune_state prune build_index
    index_matches index_markets sort_by insert_sorted lookup_match
a_removal_undoes_a_message = (refl, refl)

index_is_exact_example :
    contains (id_of_byte 1) (keys (settled marks first))
    ≡ is_claimed marks (id_of_byte 1) first.list.state.matches
unfolding AllApart run step from_config load empty apply apply_state apply_index changes
    update_match merged merge_markets merge_ids or_insert add_all prune_state prune build_index
    index_matches index_markets sort_by insert_sorted
index_is_exact_example =
    index_is_exact marks true 1000 none 500 first_steps (id_of_byte 1) (refl, (tt, tt))

prune-lookup_match_example :
    lookup_match (run marks first (removes 2000 ∷ stores ∷ [])).list (id_of_byte 1) ≡ none
unfolding AllApart run step from_config load empty apply apply_state apply_index changes
    update_match merged merge_markets merge_ids or_insert add_all prune_state prune build_index
    index_matches index_markets sort_by insert_sorted
prune-lookup_match_example =
    prune-lookup_match marks true 1000 none 500 first_steps (id_of_byte 1) 2000 (stores ∷ [])
      (refl, (tt, tt)) refl refl refl ((λ h. refl), tt) (refl, (tt, tt)) (tt, tt) refl

-- A removal that removes nothing, and a second message of the same match.
abbrev later_steps : List Step
later_steps =
    removes 1900
    ∷ merges (event_of 3 8 (id_of_byte 3 ∷ [])) 2100
    ∷ indexes
    ∷ removes 2499
    ∷ stores
    ∷ []

apply-lookup_lasts_example :
    lookup_match
      (run marks
        (run marks first (merges (event_of 2 8 (id_of_byte 2 ∷ [])) 1500 ∷ indexes ∷ []))
        later_steps).list
      (id_of_byte 2)
    ≢ none
unfolding AllApart run step from_config load empty apply apply_state apply_index changes
    update_match merged merge_markets merge_ids or_insert add_all prune_state prune build_index
    index_matches index_markets sort_by insert_sorted
apply-lookup_lasts_example =
    apply-lookup_lasts marks 1000 none 500 first_steps (event_of 2 8 (id_of_byte 2 ∷ [])) 1500
      (id_of_byte 2) (indexes ∷ []) later_steps (refl, (tt, tt)) (refl, (tt, tt))
      (refl, (refl, (tt, (refl, (tt, tt))))) refl refl refl refl (tt, tt) refl
      (refl, (tt, (tt, (refl, (tt, tt)))))

snapshot-from_config_example :
    let restarted = from_config marks true 1000 (some (snapshot started)) 1999 in
    (restarted.state ≡ (prune_state marks started 1999).0.state)
    × ((id : Bytes)
        → contains id (keys restarted.index) ≡ is_claimed marks id restarted.state.matches)
snapshot-from_config_example = snapshot-from_config marks 1000 none 500 first_steps 1999
