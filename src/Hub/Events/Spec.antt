-- ===== src/Hub/Events/Spec.antt =====
-- What an event hub promises: it remembers the last `n` accepted events, and accepts an event
-- exactly if its key is not among theirs.
use rust_uma.Prelude.{
  ℕ, Bool, true, false, List, [], ◌∷◌, ◌++◌, map, if◌then◌else◌, contains, last_n,
}
use rust_uma.Model.{EventRecord, EventKey, key, event_key_eq}

-- The history holds every accepted event, the oldest first.
unfoldable pub remembered : ℕ → List EventRecord → List EventKey
remembered n history = map key (last_n n history)

unfoldable pub accept : ℕ → List EventRecord → EventRecord → List EventRecord × Bool
unfolding remembered
accept n history event =
    if contains (key event) (remembered n history)
    then (history, false)
    else (history ++ (event ∷ []), true)

unfoldable pub accept_all : ℕ → List EventRecord → List EventRecord → List EventRecord × List Bool
accept_all n history [] = (history, [])
accept_all n history (e ∷ es) =
    let (history', fresh) = accept n history e in
    let (end, answers) = accept_all n history' es in (end, fresh ∷ answers)
