-- ===== src/Hub/Frames/Replay.antt =====
-- What a client that resumes from a cursor gets, against everything ever published.
use rust_uma.Prelude.{
  ℕ, suc, ◌≤◌, ◌<◌, ◌-◌, ◌≡◌, refl, sym, subst, ap, ap₂, ◌∙◌, ◌⊎◌, inl, inr, true, List, [], ◌∷◌,
  ◌++◌, arith, max, ltb, length, last_n, older, last_n-push, filterb, filterb-append,
  take-append-drop, Bool-cases, append_assoc, append-nil, any, older-push, ◌↔◌,
}
use rust_uma.Hub.Frames.{
  WireFrame, FrameHub, ok, err, lagged, resuming_after, evict, publish, has_events_after, after,
  publish_all,
}

-- The largest last sequence of some frames, and of a floor below them.
pub floor_of : ℕ → List WireFrame → ℕ
floor_of floor [] = floor
floor_of floor (f ∷ fs) = floor_of (max floor f.last_sequence) fs

evict_lem :
    (limit : ℕ) (fs : List WireFrame) (floor : ℕ)
    → evict limit fs floor ≡ (last_n limit fs, floor_of floor (older limit fs))
unfolding evict floor_of
evict_lem limit [] floor = let e : 0 - limit ≡ 0 = omega arith in rw e
evict_lem limit (f ∷ fs) floor = elim (Bool-cases (ltb limit (suc (length fs)))) [
  | inl e ↦
      let k : suc (length fs) - limit ≡ suc (length fs - limit) = ground arith in
      rw (e, k) (evict_lem limit fs (max floor f.last_sequence))
  | inr e ↦ let k : suc (length fs) - limit ≡ 0 = ground arith in rw (e, k)
]

floor_of-append :
    (floor : ℕ) (fs gs : List WireFrame)
    → floor_of floor (fs ++ gs) ≡ floor_of (floor_of floor fs) gs
unfolding floor_of
floor_of-append floor [] gs = refl
floor_of-append floor (f ∷ fs) gs = floor_of-append (max floor f.last_sequence) fs gs

-- A cursor that the floor allows has seen every frame below the floor.
floor_of_none_after :
    (sequence floor : ℕ) (fs : List WireFrame)
    → floor_of floor fs ≤ sequence
    → (floor ≤ sequence) × (filterb (has_events_after sequence) fs ≡ [])
unfolding floor_of
floor_of_none_after sequence floor [] h = (h, refl)
floor_of_none_after sequence floor (f ∷ fs) h =
    let (low, none_after) = floor_of_none_after sequence (max floor f.last_sequence) fs h in
    (omega arith, ground arith)

-- A cursor below the floor has missed a frame, or something broadcast before the first one.
floor_of_some_after :
    (sequence floor : ℕ) (fs : List WireFrame)
    → sequence < floor_of floor fs
    → (sequence < floor) ⊎ (any (has_events_after sequence) fs ≡ true)
unfolding floor_of
floor_of_some_after sequence floor [] h = inl h
floor_of_some_after sequence floor (f ∷ fs) h =
    ground (arith, floor_of_some_after sequence (max floor f.last_sequence) fs h)

some_after-floor_of :
    (sequence floor : ℕ) (fs : List WireFrame)
    → (sequence < floor) ⊎ (any (has_events_after sequence) fs ≡ true)
    → sequence < floor_of floor fs
unfolding floor_of
some_after-floor_of sequence floor [] h = ground arith
some_after-floor_of sequence floor (f ∷ fs) h =
    ground (arith, some_after-floor_of sequence (max floor f.last_sequence) fs)

after-ok :
    (hub : FrameHub) (sequence : ℕ) {got : List WireFrame}
    → 0 < sequence
    → after hub sequence ≡ ok got
    → (hub.replay_floor ≤ sequence) × (got ≡ filterb (has_events_after sequence) hub.frames)
unfolding after
after-ok hub sequence positive read = ground arith

after-lagged :
    (hub : FrameHub) (sequence : ℕ)
    → (after hub sequence ≡ err lagged) ↔ ((0 < sequence) × (sequence < hub.replay_floor))
unfolding after
after-lagged hub sequence = ground arith

-- The state of a hub that resumed after `start`, once `history` has been published.
record Holds (start : ℕ) (history : List WireFrame) (hub : FrameHub) : Type 0 where
  frames_held : hub.frames ≡ last_n hub.capacity history
  floor_held : hub.replay_floor ≡ floor_of start (older hub.capacity history)

publish-Holds :
    {start : ℕ} {history : List WireFrame} {hub : FrameHub} (f : WireFrame)
    → Holds start history hub
    → Holds start (history ++ (f ∷ [])) (publish hub f) × ((publish hub f).capacity ≡ hub.capacity)
unfolding publish
publish-Holds {start} {history} {hub} f h = (
  record {
    frames_held =
        ap (λ p. p.0) evicted
        ∙ (ap (λ l. last_n limit (l ++ (f ∷ []))) h.frames_held
            ∙ last_n-push limit history (f ∷ []));
    floor_held =
        ap (λ p. p.1) evicted
        ∙ (ap₂ (λ floor l. floor_of floor (older limit (l ++ (f ∷ [])))) h.floor_held h.frames_held
            ∙ (sym (floor_of-append start (older limit history) _)
                ∙ ap (floor_of start) (sym (older-push limit history (f ∷ [])))));
  },
  refl,
)
  where
    limit : ℕ
    limit = hub.capacity

    evicted : evict limit (hub.frames ++ (f ∷ [])) hub.replay_floor ≡ (
      last_n limit (hub.frames ++ (f ∷ [])),
      floor_of hub.replay_floor (older limit (hub.frames ++ (f ∷ []))),
    )
    evicted = evict_lem limit (hub.frames ++ (f ∷ [])) hub.replay_floor

publish_all-Holds :
    (fs : List WireFrame) {start : ℕ} {history : List WireFrame} {hub : FrameHub}
    → Holds start history hub
    → Holds start (history ++ fs) (publish_all hub fs)
      × ((publish_all hub fs).capacity ≡ hub.capacity)
unfolding publish_all
publish_all-Holds [] {start} {history} {hub} h = (rw append-nil h, refl)
publish_all-Holds (f ∷ fs) {start} {history} {hub} h =
    let (published, capacity) = publish-Holds f h in
    let (rest, capacity') = publish_all-Holds fs published in
    (rw append_assoc at rest, capacity' ∙ capacity)

module _ (capacity start : ℕ) (history : List WireFrame) where
  abbrev reached : FrameHub
  reached = publish_all (resuming_after capacity start) history

  holds : Holds start history reached × (reached.capacity ≡ max capacity 1)
  holds = unfold resuming_after in publish_all-Holds history new_hub
    where
      new_hub : Holds start [] (resuming_after capacity start)
      new_hub =
          unfold resuming_after floor_of in
          let e : 0 - max capacity 1 ≡ 0 = omega arith in
          record { frames_held = rw e; floor_held = rw e }

  abbrev limit : ℕ
  limit = max capacity 1

  held : reached.frames ≡ last_n limit history
  held = holds.0.frames_held ∙ ap (λ n. last_n n history) holds.1

  floor : reached.replay_floor ≡ floor_of start (older limit history)
  floor = holds.0.floor_held ∙ ap (λ n. floor_of start (older n history)) holds.1

  -- Whatever a hub that resumed after `start` has published since, a positive cursor that is answered
  -- with frames lies at or after `start`, and gets exactly the frames ever published that hold events after
  -- it, in order.
  pub after_complete :
      (sequence : ℕ) (got : List WireFrame)
      → 0 < sequence
      → after reached sequence ≡ ok got
      → (start ≤ sequence) × (got ≡ filterb (has_events_after sequence) history)
  after_complete sequence got positive read =
      let (below, frames) = after-ok reached sequence positive read in
      let (low, none_older) =
        floor_of_none_after sequence start (older limit history)
          (subst (λ n. n ≤ sequence) floor below) in
      (
        low,
        frames
            ∙ (ap (filterb (has_events_after sequence)) held
                ∙ (ap (λ l. l ++ filterb (has_events_after sequence) (last_n limit history))
                      (sym none_older)
                    ∙ (sym (filterb-append (has_events_after sequence) (older limit history) _)
                        ∙ ap (filterb (has_events_after sequence))
                            (take-append-drop (length history - limit) history)))),
      )

  -- A positive cursor is refused exactly if something was missed: it lies before `start`, or a
  -- published frame with events after it is no longer held.
  pub lagged_missed :
      (sequence : ℕ)
      → (after reached sequence ≡ err lagged) ↔ (
          (0 < sequence)
          × ((sequence < start)
              ⊎ (any (has_events_after sequence) (older (max capacity 1) history) ≡ true)))
  lagged_missed sequence = (
    λ read.
        let (positive, below) = (after-lagged reached sequence).0 read in
        (
          positive,
          floor_of_some_after sequence start (older limit history)
              (subst (λ n. sequence < n) floor below),
        ),
    λ h. (after-lagged reached sequence).1 (
      h.0,
      subst (λ n. sequence < n) (sym floor)
          (some_after-floor_of sequence start (older limit history) h.1),
    ),
  )
