-- ===== src/Hub/Events.antt =====
-- `EventHub` of src/hub.rs. The lock makes each read one step. `insert` releases it before it sends the
-- new sequence on the watch channel, so that it is two steps; the channel is the last value that was
-- sent on it.
pub mod Spec
pub mod Refine
use rust_uma.Prelude.{
  ℕ, suc, Bool, true, false, List, [], ◌∷◌, ◌++◌, Option, none, some, max, ltb, length, head?,
  last?, if◌then◌else◌, contains, discard, ◌==◌, nat_eq,
}
use rust_uma.Model.{EventRecord, EventKey, key, event_key_eq}

pub record EventHub : Type 0 where
  pub capacity : ℕ
  pub events : List EventRecord
  pub keys : List EventKey
  pub latest : ℕ

unfoldable pub new : ℕ → EventHub
new capacity = record { capacity = max capacity 1; events = []; keys = []; latest = 0 }

abbrev pub has_key : EventHub → EventKey → Bool
has_key hub k = contains k hub.keys

-- `while events.len() > capacity { pop_front; keys.remove }`, one event of the list at a time.
unfoldable pub evict : ℕ → List EventRecord → List EventKey → List EventRecord × List EventKey
evict limit [] ks = ([], ks)
evict limit (x ∷ xs) ks =
    let rest = evict limit xs (discard (key x) ks) in
    if ltb limit (suc (length xs)) then rest else (x ∷ xs, ks)

-- What `insert` does under the lock with an event whose key is new.
unfoldable pub admit : EventHub → EventRecord → EventHub
admit hub event =
    let (events, keys) = evict hub.capacity (hub.events ++ (event ∷ [])) (key event ∷ hub.keys) in
    record hub { events = events; keys = keys }

-- `insert` up to the release of the lock.
unfoldable pub insert_locked : EventHub → EventRecord → EventHub × Bool
insert_locked hub event =
    if contains (key event) hub.keys then (hub, false) else (admit hub event, true)

-- `send_replace`.
abbrev pub announce : EventHub → ℕ → EventHub
announce hub sequence = record hub { latest = sequence }

abbrev pub if_new : Bool → EventHub → EventRecord → EventHub
if_new fresh hub event = if fresh then announce hub event.sequence else hub

-- The whole call, when no other call comes between its two parts.
unfoldable pub insert : EventHub → EventRecord → EventHub × Bool
insert hub event = let (hub', fresh) = insert_locked hub event in (if_new fresh hub' event, fresh)

abbrev pub sequence_or_zero : Option EventRecord → ℕ
sequence_or_zero none = 0
sequence_or_zero (some event) = event.sequence

unfoldable pub bounds : EventHub → ℕ × ℕ
bounds hub = (sequence_or_zero (head? hub.events), sequence_or_zero (last? hub.events))

abbrev pub latest_sequence : EventHub → ℕ
latest_sequence hub = hub.latest

abbrev pub snapshot : EventHub → List EventRecord
snapshot hub = hub.events

-- The hub, and the sequences of the calls of `insert` that have released the lock and have not sent.
pub record Racing : Type 0 where
  pub hub : EventHub
  pub unsent : List ℕ

-- The part of a call under the lock, or the sending of a sequence.
pub data Step : Type 0 where
  locks : EventRecord → Step
  sends : ℕ → Step

abbrev pub remove_one : ℕ → List ℕ → List ℕ
remove_one n [] = []
remove_one n (x ∷ xs) = if x == n then xs else x ∷ remove_one n xs

-- A sequence that no call has still to send is not sent.
abbrev pub send : Racing → ℕ → Racing
send w n =
    if contains n w.unsent
    then record { hub = announce w.hub n; unsent = remove_one n w.unsent }
    else w

abbrev pub lock : Racing → EventRecord → Racing
lock w e =
    let (hub, fresh) = insert_locked w.hub e in
    record { hub = hub; unsent = if fresh then e.sequence ∷ w.unsent else w.unsent }

-- The two parts of any calls of `insert`, in any order, with the answers in the order of the locks.
unfoldable pub run : Racing → List Step → Racing × List Bool
run w [] = (w, [])
run w (locks e ∷ steps) =
    let (end, answers) = run (lock w e) steps in (end, (insert_locked w.hub e).1 ∷ answers)
run w (sends n ∷ steps) = run (send w n) steps

abbrev pub quiet : EventHub → Racing
quiet hub = record { hub = hub; unsent = [] }

-- The events of a run, in the order in which their calls take the lock.
abbrev pub locked_events : List Step → List EventRecord
locked_events [] = []
locked_events (locks e ∷ steps) = e ∷ locked_events steps
locked_events (sends n ∷ steps) = locked_events steps
