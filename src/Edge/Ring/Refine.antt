-- ===== src/Edge/Ring/Refine.antt =====
-- The ring against the sequence of everything pushed to it.
use rust_uma.Prelude.{
  ℕ, suc, ◌+◌, ◌-◌, ◌<◌, ◌≡◌, refl, sym, ap, ◌∙◌, List, [], ◌∷◌, ◌++◌, max, min, length,
  length-append, length-drop, arith, ◌==◌, u64_mod, inl, inr, Bool-cases, last_n, last_n-push,
  last?, append_assoc, append-nil, head?, drop-append,
}
use native.Mathlib.Decide.{dec_lt}
use rust_uma.Edge.Ring.{Frame, Ring, new, push, stats, stamp, offset_or_zero}
use rust_uma.Edge.Ring.Offsets.{IsValid, new-IsValid, push-IsValid, Consecutive}

pub push_all : Ring → List Frame → Ring
push_all r [] = r
push_all r (f ∷ fs) = push_all (push r f).0 fs

-- Frames with the offsets `k`, `k + 1` and so on put in.
pub stamped : ℕ → List Frame → List Frame
stamped k [] = []
stamped k (f ∷ fs) = record f { offset = k } ∷ stamped (k + 1) fs

length-stamped : (k : ℕ) (fs : List Frame) → length (stamped k fs) ≡ length fs
unfolding stamped
length-stamped k [] = refl
length-stamped k (f ∷ fs) = ap suc (length-stamped (k + 1) fs)

push-last_n :
    {r : Ring} (f : Frame)
    → IsValid r
    → (push r f).0.frames ≡ last_n r.capacity (r.frames ++ (stamp r f ∷ []))
unfolding push
push-last_n {r} f v =
    let size = length-append r.frames (stamp r f ∷ []) in
    elim (Bool-cases (length r.frames == r.capacity)) [
      | inl e ↦
          let full : length r.frames ≡ r.capacity = ground arith in
          let one : length (r.frames ++ (stamp r f ∷ [])) - r.capacity ≡ 1 = omega arith in
          rw (e, one) (sym (drop-append 1 r.frames _ (omega (arith, v.nonempty))))
      | inr e ↦
          let room : length r.frames < r.capacity = ground (arith, v.bounded) in
          let none_over : length (r.frames ++ (stamp r f ∷ [])) - r.capacity ≡ 0 = omega arith in
          rw (e, none_over)
    ]

-- The first and the last of some frames with consecutive offsets.
ends-Consecutive :
    (k : ℕ) (fs : List Frame)
    → Consecutive k fs
    → (0 < length fs → offset_or_zero (head? fs) ≡ k)
      × (0 < length fs → offset_or_zero (last? fs) + 1 ≡ k + length fs)
ends-Consecutive k [] h = (λ p. absurd (omega arith), λ p. absurd (omega arith))
ends-Consecutive k (f ∷ []) h = (λ p. h.0, λ p. omega arith)
ends-Consecutive k (f ∷ g ∷ fs) h =
    let (first, last) = ends-Consecutive (k + 1) (g ∷ fs) h.1 in
    (λ p. h.0, λ p. omega (arith, last (omega arith)))

none_last : (fs : List Frame) → length fs ≡ 0 → offset_or_zero (last? fs) ≡ 0
none_last [] e = refl
none_last (f ∷ fs) e = absurd (omega arith)

push_all-IsValid :
    (fs : List Frame) {r : Ring}
    → IsValid r
    → r.next_offset + length fs < u64_mod
    → IsValid (push_all r fs)
      × ((push_all r fs).next_offset ≡ r.next_offset + length fs)
      × ((push_all r fs).capacity ≡ r.capacity)
unfolding push_all
push_all-IsValid [] v small = (v, omega arith, refl)
push_all-IsValid (f ∷ fs) {r} v small =
    let (pushed, offset, next, capacity) = push-IsValid v f (omega arith) in
    let (end, next', capacity') = push_all-IsValid fs pushed (omega arith) in
    (end, omega arith, capacity' ∙ capacity)

push_all-last_n :
    (fs : List Frame) {r : Ring} (history : List Frame)
    → IsValid r
    → r.next_offset + length fs < u64_mod
    → r.frames ≡ last_n r.capacity history
    → (push_all r fs).frames ≡ last_n r.capacity (history ++ stamped r.next_offset fs)
unfolding push_all stamped
push_all-last_n [] history v small held = rw append-nil held
push_all-last_n (f ∷ fs) {r} history v small held =
    let (pushed, offset, next, capacity) = push-IsValid v f (omega arith) in
    let one : (push r f).0.frames ≡ last_n (push r f).0.capacity (history ++ (stamp r f ∷ [])) =
      rw capacity (
        push-last_n f v
        ∙ (ap (λ l. last_n r.capacity (l ++ (stamp r f ∷ []))) held
            ∙ last_n-push r.capacity history (stamp r f ∷ []))) in
    rw (capacity, next, append_assoc) at
      (push_all-last_n fs (history ++ (stamp r f ∷ [])) pushed (omega arith) one)

module _ (capacity : ℕ) (fs : List Frame) (small : length fs + 1 < u64_mod) where
  abbrev reached : Ring
  reached = push_all (new capacity) fs

  valid :
      IsValid reached × (reached.next_offset ≡ 1 + length fs) × (reached.capacity ≡ max capacity 1)
  valid = unfold new in push_all-IsValid fs (new-IsValid capacity) (omega arith)

  -- After fewer than 2^64 - 1 pushes into a new ring, it holds the last `max capacity 1` frames
  -- pushed, in order, with the offsets 1, 2, ... of their places in the sequence of pushes.
  pub push_all_refines : reached.frames ≡ last_n (max capacity 1) (stamped 1 fs)
  push_all_refines =
      unfold new in
      let e : 0 - max capacity 1 ≡ 0 = omega arith in
      push_all-last_n fs [] (new-IsValid capacity) (omega arith) (rw e)

  -- The counts and offsets that the ring reports after those pushes: as many frames as fit, and
  -- the offset of the last push; the oldest offset is that of the first frame still held.
  pub stats_lem :
      ((stats reached).count ≡ min (length fs) (max capacity 1))
      × ((stats reached).latest_offset ≡ length fs)
      × (0 < length fs
          → (stats reached).oldest_offset ≡ length fs + 1 - min (length fs) (max capacity 1))
  unfolding stats
  stats_lem =
      let (v, next, limit) = valid in
      let size : length reached.frames ≡ min (length fs) (max capacity 1) =
        rw push_all_refines (omega (arith, length-drop over (stamped 1 fs), length-stamped 1 fs)) in
      let (first, last) = ends-Consecutive _ reached.frames v.consecutive in
      (
        size,
        elim (dec_lt 0 (length fs)) [
          | yes some_pushed ↦ omega (arith, last (omega arith))
          | no none_pushed ↦ empty (omega arith) (omega arith)
        ],
        λ some_pushed. omega (arith, first (omega arith)),
      )
    where
      over : ℕ
      over = length (stamped 1 fs) - max capacity 1

      empty :
          length reached.frames ≡ 0
          → length fs ≡ 0
          → offset_or_zero (last? reached.frames) ≡ length fs
      empty e z = rw z (none_last reached.frames e)
