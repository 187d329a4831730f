-- ===== src/Edge/Hub/Actions.antt =====
-- Everything that can happen to a hub: the calls of the code, and what the clients do with the
-- receiving ends of their channels.
use rust_uma.Prelude.{
  ℕ, Option, none, some, Bool, List, [], ◌∷◌, ◌++◌, lookup, insert, nat_eq, String,
}
use rust_uma.Edge.Ring.{Frame}
use rust_uma.Edge.Channel.{Mpsc}
use rust_uma.Edge.Hub.{Hub, Subscriber, publish, subscribe, unsubscribe, release, kick_tokens}

pub data Action : Type 0 where
  publishes : Frame → ℕ → Action
  subscribes : ℕ → String → ℕ → Option String → ℕ → Action
  unsubscribes : ℕ → Action
  releases : ℕ → ℕ → Action
  kicks : (String → Bool) → Action
  client_reads : ℕ → Action
  client_closes : ℕ → Action

module _ (M : Mpsc) where
  open M use {Chan, recv, close}

  abbrev pub touch : ℕ → (Chan → Chan) → List (ℕ × Subscriber M) → List (ℕ × Subscriber M)
  touch id act subs = elim (lookup id subs) [
    | none ↦ subs
    | some s ↦ insert id (record s { tx = act s.tx }) subs
  ]

  -- The client of `id` does something to its end of the channel.
  unfoldable pub on_channel : Hub M → ℕ → (Chan → Chan) → Hub M
  on_channel h id act = record h { subs = touch id act h.subs; dropped = touch id act h.dropped }

  -- The hub after an action, and the frames that the action stored in the ring.
  unfoldable pub step : Hub M → Action → Hub M × List Frame
  step h (publishes f us) = let (h', stored) = publish M h f us in (h', stored ∷ [])
  step h (subscribes replay ip port token now) = ((subscribe M h replay ip port token now).0, [])
  step h (unsubscribes id) = (unsubscribe M h id, [])
  step h (releases n code) = ((release M h n code).0, [])
  step h (kicks keep) = ((kick_tokens M h keep).0, [])
  step h (client_reads id) = (on_channel h id recv, [])
  step h (client_closes id) = (on_channel h id close, [])

  unfoldable pub run : Hub M → List Action → Hub M × List Frame
  run h [] = (h, [])
  run h (a ∷ as') =
      let (h', stored) = step h a in let (end, more) = run h' as' in (end, stored ++ more)
