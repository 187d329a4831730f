-- ===== src/Edge/Hub/Publish.antt =====
-- What one `publish` does to a subscriber, by the state of its channel.
use rust_uma.Prelude.{
  ℕ, ◌≡◌, refl, ap, ◌∙◌, none, some, true, false, List, [], ◌∷◌, ◌++◌, lookup, keys, nat_eq,
  Distinct, arith, length, ◌<◌, ◌≤◌,
}
use rust_uma.Edge.Ring.{Frame}
use rust_uma.Edge.Channel.{Mpsc, Sent, delivered, full, closed, accepted}
use rust_uma.Edge.Hub.{Hub, Subscriber, fan_out, publish, close_policy}
use rust_uma.Edge.Hub.Fanout.{
  lookup-fan_out, lookup-evicted, after_send, after_drop, kept_as, evicted_as,
}

lookup-append_some {ℓ} :
    {V : Type ℓ} (k : ℕ) (m n : List (ℕ × V)) (v : V)
    → lookup k m ≡ some v
    → lookup k (m ++ n) ≡ some v
lookup-append_some k [] n v h = cc
lookup-append_some k ((i, w) ∷ m) n v h = ground (arith, lookup-append_some k m n v)

module _ (M : Mpsc) where
  open M use {
    try_send, queued, received, is_closed, size, try_send_result, queued-try_send,
    received-try_send, refused_keeps,
  }

  module _ (h : Hub M) (f : Frame) (us id : ℕ) (s : Subscriber M)
      (distinct : Distinct (keys h.subs)) (registered : lookup id h.subs ≡ some s) where
    abbrev stored : Frame
    stored = (publish M h f us).1

    abbrev after_hub : Hub M
    after_hub = (publish M h f us).0

    stays :
        (a : Sent)
        → (try_send s.tx stored).1 ≡ a
        → lookup id after_hub.subs ≡ kept_as M a (some (record s { tx = (try_send s.tx stored).0 }))
    unfolding publish
    stays a e =
        lookup-fan_out M id stored h.subs distinct
        ∙ (ap (after_send M stored) registered
            ∙ ap (λ b. kept_as M b (some (record s { tx = (try_send s.tx stored).0 }))) e)

    goes :
        (a : Sent) {t : Subscriber M}
        → (try_send s.tx stored).1 ≡ a
        → evicted_as M s (try_send s.tx stored).0 a ≡ some t
        → lookup id after_hub.dropped ≡ some t
    unfolding publish
    goes a {t} e out = lookup-append_some id (fan_out M stored h.subs).evicted h.dropped t (
        lookup-evicted M id stored h.subs distinct
        ∙ (ap (after_drop M stored) registered
            ∙ (ap (evicted_as M s (try_send s.tx stored).0) e ∙ out)))

    -- A subscriber whose client is there and whose queue has room stays, with its close code, and
    -- the stored frame goes to the end of its queue and nothing else does.
    pub publish_delivers :
        is_closed s.tx ≡ false
        → length (queued s.tx) < size s.tx
        → (t : Subscriber M) × (lookup id after_hub.subs ≡ some t)
          × (queued t.tx ≡ queued s.tx ++ (stored ∷ []))
          × (received t.tx ≡ received s.tx)
          × (t.close_code ≡ s.close_code)
    publish_delivers here room =
        let e : (try_send s.tx stored).1 ≡ delivered = try_send_result s.tx stored ∙ ground arith in
        (
          record s { tx = (try_send s.tx stored).0 },
          stays delivered e,
          queued-try_send s.tx stored e,
          received-try_send s.tx stored,
          refl,
        )

    -- A subscriber with a full queue is dropped with close code 1008.
    pub publish_drops_slow :
        is_closed s.tx ≡ false
        → size s.tx ≤ length (queued s.tx)
        → (lookup id after_hub.subs ≡ none)
          × ((t : Subscriber M) × (lookup id after_hub.dropped ≡ some t)
              × (t.close_code ≡ close_policy)
              × (accepted M t.tx ≡ accepted M s.tx))
    publish_drops_slow here no_room =
        let e : (try_send s.tx stored).1 ≡ full = try_send_result s.tx stored ∙ ground arith in
        (
          stays full e,
          (
            record s { tx = (try_send s.tx stored).0; close_code = close_policy },
            goes full e refl,
            refl,
            refused_keeps s.tx stored (λ p. cc),
          ),
        )

    -- A subscriber whose client is gone is dropped, with its close code as it was.
    pub publish_drops_gone :
        is_closed s.tx ≡ true
        → (lookup id after_hub.subs ≡ none)
          × ((t : Subscriber M) × (lookup id after_hub.dropped ≡ some t)
              × (t.close_code ≡ s.close_code))
    publish_drops_gone gone =
        let e : (try_send s.tx stored).1 ≡ closed = try_send_result s.tx stored ∙ ground arith in
        (stays closed e, (record s { tx = (try_send s.tx stored).0 }, goes closed e refl, refl))
