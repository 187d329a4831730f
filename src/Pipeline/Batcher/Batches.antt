-- ===== src/Pipeline/Batcher/Batches.antt =====
-- The batches against the events that wait.
use rust_uma.Prelude.{
  ℕ, suc, zero, ◌+◌, ◌≤◌, ◌⊎◌, ◌≡◌, ◌<◌, refl, ap, ap₂, u64_add, u64_mod, sym, subst, ◌∙◌, Option,
  none, some, List, [], ◌∷◌, ◌++◌, ltb, max, length, All, arith, Bool-cases, inl, inr,
  length-append,
}
use rust_uma.Model.{EventRecord}
use rust_uma.Hub.Frames.{FrameHub, WireFrame, publish_all}
use rust_uma.Pipeline.Batcher.{Limits, take_more, next_batch, batches, published, send_batches}

abbrev pub pending_list : Option EventRecord → List EventRecord
pending_list none = []
pending_list (some e) = e ∷ []

abbrev pub frame_list : Option WireFrame → List WireFrame
frame_list none = []
frame_list (some f) = f ∷ []

abbrev pub concat : List (List EventRecord) → List EventRecord
concat [] = []
concat (b ∷ bs) = b ++ concat bs

module _ (encoded_event_len : EventRecord → ℕ) (limits : Limits) where
  -- The sizes of a batch together.
  abbrev pub total : List EventRecord → ℕ
  total [] = 0
  total (e ∷ es) = encoded_event_len e + total es

  take_more-all :
      (n bytes : ℕ) (es : List EventRecord)
      → let t = take_more encoded_event_len limits n bytes es in
        t.more ++ (pending_list t.pending ++ t.waiting) ≡ es
  unfolding take_more
  take_more-all n bytes [] = refl
  take_more-all n bytes (e ∷ es) = elim (Bool-cases (ltb n (max limits.batch_max_events 1))) [
    | inl room ↦ elim (Bool-cases (ltb limits.batch_max_bytes (bytes + encoded_event_len e))) [
      | inl over ↦ rw (room, over) refl
      | inr fits ↦
          rw (room, fits) (ap (λ x. e ∷ x) (take_more-all (suc n) (bytes + encoded_event_len e) es))
    ]
    | inr full ↦ rw full refl
  ]

  take_more-length :
      (n bytes : ℕ) (es : List EventRecord)
      → n ≤ max limits.batch_max_events 1
      → n + length (take_more encoded_event_len limits n bytes es).more
        ≤ max limits.batch_max_events 1
  unfolding take_more
  take_more-length n bytes [] h = omega (arith, h)
  take_more-length n bytes (e ∷ es) h = elim (Bool-cases (ltb n (max limits.batch_max_events 1))) [
    | inl room ↦ elim (Bool-cases (ltb limits.batch_max_bytes (bytes + encoded_event_len e))) [
      | inl over ↦ rw (room, over) (omega (arith, h))
      | inr fits ↦
          rw (room, fits)
            (let rest =
                take_more-length (suc n) (bytes + encoded_event_len e) es (ground (arith, room)) in
              omega (arith, rest))
    ]
    | inr full ↦ rw full (omega (arith, h))
  ]

  take_more-total :
      (n bytes : ℕ) (es : List EventRecord)
      → let t = take_more encoded_event_len limits n bytes es in
        (t.more ≡ []) ⊎ (bytes + total t.more ≤ limits.batch_max_bytes)
  unfolding take_more
  take_more-total n bytes [] = inl refl
  take_more-total n bytes (e ∷ es) = elim (Bool-cases (ltb n (max limits.batch_max_events 1))) [
    | inl room ↦ elim (Bool-cases (ltb limits.batch_max_bytes (bytes + encoded_event_len e))) [
      | inl over ↦ rw (room, over) (inl refl)
      | inr fits ↦
          rw (room, fits)
            (elim (take_more-total (suc n) (bytes + encoded_event_len e) es) [
              | inl none_more ↦ inr (
                  subst (λ xs. bytes + (encoded_event_len e + total xs) ≤ limits.batch_max_bytes)
                    (sym none_more) (ground (arith, fits)))
              | inr within ↦ inr (omega (arith, within))
            ])
    ]
    | inr full ↦ rw full (inl refl)
  ]

  -- What a turn of the loop leaves is less than what it found.
  next_batch-all :
      (first : EventRecord) (es : List EventRecord)
      → let t = next_batch encoded_event_len limits first es in
        t.more ++ (pending_list t.pending ++ t.waiting) ≡ first ∷ es
  unfolding next_batch
  next_batch-all first es = ap (λ x. first ∷ x) (take_more-all 1 (encoded_event_len first) es)

  next_batch-shorter :
      (first : EventRecord) (es : List EventRecord) (fuel : ℕ)
      → suc (length es) ≤ suc fuel
      → let t = next_batch encoded_event_len limits first es in
        length (pending_list t.pending ++ t.waiting) ≤ fuel
  unfolding next_batch
  next_batch-shorter first es fuel h =
      let t = take_more encoded_event_len limits 1 (encoded_event_len first) es in
      let same : length (t.more ++ (pending_list t.pending ++ t.waiting)) ≡ length es =
        ap length (take_more-all 1 (encoded_event_len first) es) in
      omega (arith, h, same, length-append t.more (pending_list t.pending ++ t.waiting))

  batches-concat :
      (fuel : ℕ) (pending : Option EventRecord) (es : List EventRecord)
      → length (pending_list pending ++ es) ≤ fuel
      → concat (batches encoded_event_len limits fuel pending es) ≡ pending_list pending ++ es
  unfolding batches
  batches-concat zero none [] h = refl
  batches-concat zero none (e ∷ es) h = absurd (omega (arith, h))
  batches-concat zero (some e) es h = absurd (omega (arith, h))
  batches-concat (suc fuel) none [] h = refl
  batches-concat (suc fuel) none (e ∷ es) h =
      let t = next_batch encoded_event_len limits e es in
      ap (λ x. t.more ++ x)
        (batches-concat fuel t.pending t.waiting (next_batch-shorter e es fuel h))
      ∙ next_batch-all e es
  batches-concat (suc fuel) (some e) es h =
      let t = next_batch encoded_event_len limits e es in
      ap (λ x. t.more ++ x)
        (batches-concat fuel t.pending t.waiting (next_batch-shorter e es fuel h))
      ∙ next_batch-all e es

  -- A batch is not empty, and within both limits; a single event may be over the limit of bytes.
  abbrev pub IsBatch : List EventRecord → Type 0
  IsBatch b =
      (1 ≤ length b)
      × (length b ≤ max limits.batch_max_events 1)
      × ((length b ≡ 1) ⊎ (total b ≤ limits.batch_max_bytes))

  next_batch-IsBatch :
      (first : EventRecord) (es : List EventRecord)
      → IsBatch (next_batch encoded_event_len limits first es).more
  unfolding next_batch
  next_batch-IsBatch first es =
      let t = take_more encoded_event_len limits 1 (encoded_event_len first) es in
      let most = take_more-length 1 (encoded_event_len first) es (omega arith) in
      (
        omega arith,
        omega (arith, most),
        elim (take_more-total 1 (encoded_event_len first) es) [
          | inl none_more ↦ inl (ap (λ x. suc (length x)) none_more)
          | inr within ↦ inr within
        ],
      )

  batches-IsBatch :
      (fuel : ℕ) (pending : Option EventRecord) (es : List EventRecord)
      → All IsBatch (batches encoded_event_len limits fuel pending es)
  unfolding batches
  batches-IsBatch zero pending es = tt
  batches-IsBatch (suc fuel) none [] = tt
  batches-IsBatch (suc fuel) none (e ∷ es) =
      let t = next_batch encoded_event_len limits e es in
      (next_batch-IsBatch e es, batches-IsBatch fuel t.pending t.waiting)
  batches-IsBatch (suc fuel) (some e) es =
      let t = next_batch encoded_event_len limits e es in
      (next_batch-IsBatch e es, batches-IsBatch fuel t.pending t.waiting)

  batches-length :
      (fuel : ℕ) (pending : Option EventRecord) (es : List EventRecord)
      → length (batches encoded_event_len limits fuel pending es) ≤ fuel
  unfolding batches
  batches-length zero pending es = omega arith
  batches-length (suc fuel) none [] = omega arith
  batches-length (suc fuel) none (e ∷ es) =
      let t = next_batch encoded_event_len limits e es in
      omega (arith, batches-length fuel t.pending t.waiting)
  batches-length (suc fuel) (some e) es =
      let t = next_batch encoded_event_len limits e es in
      omega (arith, batches-length fuel t.pending t.waiting)

  module _ (encode_frame : ℕ → List EventRecord → Option WireFrame) where
    -- The frames of batches numbered from `n` on, without the batches that have none.
    unfoldable pub frames_from : ℕ → List (List EventRecord) → List WireFrame
    frames_from n [] = []
    frames_from n (b ∷ bs) = frame_list (encode_frame n b) ++ frames_from (suc n) bs

    publish_all-step :
        (o : Option WireFrame) (hub : FrameHub) (fs : List WireFrame)
        → publish_all (published encode_frame hub o) fs ≡ publish_all hub (frame_list o ++ fs)
    unfolding publish_all
    publish_all-step none hub fs = refl
    publish_all-step (some f) hub fs = refl

    send_batches-publish_all :
        (n : ℕ) (hub : FrameHub) (bs : List (List EventRecord))
        → n + length bs < u64_mod
        → send_batches encode_frame n hub bs
          ≡ (n + length bs, publish_all hub (frames_from (suc n) bs))
    unfolding send_batches frames_from publish_all
    send_batches-publish_all n hub [] h = ap (λ k. (k, hub)) (omega arith)
    send_batches-publish_all n hub (b ∷ bs) h =
        let next : max (u64_add n 1) 1 ≡ suc n = omega (arith, h) in
        let rest =
          send_batches-publish_all (suc n) (published encode_frame hub (encode_frame (suc n) b)) bs
            (omega (arith, h)) in
        rw next (
          rest
          ∙ ap₂ (λ k l. (k, l)) (omega arith)
              (publish_all-step (encode_frame (suc n) b) hub (frames_from (suc (suc n)) bs)))

    -- The events that wait, with none arriving while they leave, are put into batches: as many turns as
    -- there are events are enough to put every
    -- one into a batch, once and in their order. Each batch holds an event at least, at most the number
    -- of events that is set (one if that is 0), and at most the bytes that are set, unless it is a
    -- single event. The batches get the numbers after `n`, without a gap while these fit 64 bits, and
    -- the hub publishes the frames of the batches in order. A batch that `encode_frame` refuses has its
    -- number and no frame: its events are lost.
    pub batches_in_order :
        (n : ℕ) (hub : FrameHub) (pending : Option EventRecord) (es : List EventRecord)
        → n + length (pending_list pending ++ es) < u64_mod
        → let waiting = pending_list pending ++ es in
          let bs = batches encoded_event_len limits (length waiting) pending es in
          (concat bs ≡ waiting)
          × All IsBatch bs
          × (send_batches encode_frame n hub bs
              ≡ (n + length bs, publish_all hub (frames_from (suc n) bs)))
    batches_in_order n hub pending es fits =
        let waiting = pending_list pending ++ es in
        let bs = batches encoded_event_len limits (length waiting) pending es in
        (
          batches-concat (length waiting) pending es (omega arith),
          batches-IsBatch (length waiting) pending es,
          send_batches-publish_all n hub bs
              (omega (arith, fits, batches-length (length waiting) pending es)),
        )
