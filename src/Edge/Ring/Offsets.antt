-- ===== src/Edge/Ring/Offsets.antt =====
-- The offsets of the frames in the ring, and where a replay starts and ends.
use rust_uma.Prelude.{
  ℕ, zero, suc, ◌+◌, ◌-◌, ◌≤◌, ◌<◌, ◌≡◌, refl, subst, List, [], ◌∷◌, ◌++◌, min, length, drop,
  length-append, length-drop, arith, if◌then◌else◌, ◌==◌, u64_mod, u64_add-eq, inl, inr, Bool-cases,
}
use rust_uma.Edge.Ring.{Frame, Ring, new, push, tail, stamp, pop_front}

-- The frames have the offsets `k`, `k + 1`, and so on.
abbrev pub Consecutive : ℕ → List Frame → Type 0
Consecutive k [] = Unit
Consecutive k (f ∷ fs) = (f.offset ≡ k) × Consecutive (k + 1) fs

pub Consecutive-append :
    (k m : ℕ) (fs gs : List Frame)
    → Consecutive k fs
    → m ≡ k + length fs
    → Consecutive m gs
    → Consecutive k (fs ++ gs)
Consecutive-append k m [] gs h e g = subst (λ n. Consecutive n gs) (omega arith) g
Consecutive-append k m (f ∷ fs) gs h e g =
    (h.0, Consecutive-append (k + 1) m fs gs h.1 (omega arith) g)

pub Consecutive-drop :
    (n k : ℕ) (fs : List Frame) → Consecutive k fs → n ≤ length fs → Consecutive (k + n) (drop n fs)
Consecutive-drop zero k fs h le = subst (λ m. Consecutive m fs) (omega arith) h
Consecutive-drop (suc n) k [] h le = tt
Consecutive-drop (suc n) k (f ∷ fs) h le =
    subst (λ m. Consecutive m (drop n fs)) (omega arith)
      (Consecutive-drop n (k + 1) fs h.1 (omega arith))

-- The ring holds at most `capacity` frames, whose offsets end just before the next one.
pub record IsValid (r : Ring) : Type 0 where
  pub nonempty : 0 < r.capacity
  pub bounded : length r.frames ≤ r.capacity
  pub counted : length r.frames < r.next_offset
  pub fits : r.next_offset < u64_mod
  pub consecutive : Consecutive (r.next_offset - length r.frames) r.frames

pub new-IsValid : (capacity : ℕ) → IsValid (new capacity)
unfolding new
new-IsValid capacity = omega arith

abbrev kept : Ring → List Frame
kept r = if length r.frames == r.capacity then pop_front r.frames else r.frames

module _ {r : Ring} (v : IsValid r) where
  popped :
      length r.frames ≡ r.capacity
      → Consecutive (r.next_offset - length (drop 1 r.frames)) (drop 1 r.frames)
        × (length (drop 1 r.frames) + 1 ≡ r.capacity)
  popped e =
      let size = length-drop 1 r.frames in
      let full : 1 ≤ length r.frames = omega arith in
      (
        subst (λ m. Consecutive m (drop 1 r.frames)) (omega arith)
            (Consecutive-drop 1 _ r.frames v.consecutive full),
        omega arith,
      )

  kept_lem :
      Consecutive (r.next_offset - length (kept r)) (kept r)
      × (length (kept r) + 1 ≤ r.capacity)
      × (length (kept r) ≤ length r.frames)
  kept_lem = elim (Bool-cases (length r.frames == r.capacity)) [
    | inl e ↦
        let (after, size) = popped (ground arith) in
        rw e (after, omega arith, omega (arith, length-drop 1 r.frames))
    | inr e ↦ rw e (v.consecutive, ground arith, omega arith)
  ]

  -- A push keeps the ring valid while its next offset fits in 64 bits, and returns the frame that
  -- it stored last, with the offset that was next.
  pub push-IsValid :
      (f : Frame)
      → r.next_offset + 1 < u64_mod
      → IsValid (push r f).0
        × ((push r f).1.offset ≡ r.next_offset)
        × ((push r f).0.next_offset ≡ r.next_offset + 1)
        × ((push r f).0.capacity ≡ r.capacity)
  unfolding push
  push-IsValid f small =
      let (after, size, less) = kept_lem in
      let next = u64_add-eq r.next_offset 1 small in
      let longer = length-append (kept r) (stamp r f ∷ []) in
      let start : r.next_offset ≡ r.next_offset - length (kept r) + length (kept r) = omega arith in
      let same : r.next_offset - length (kept r)
          ≡ r.next_offset + 1 - length (kept r ++ (stamp r f ∷ [])) =
        omega arith in
      (
        record {
          nonempty = v.nonempty;
          bounded = omega arith;
          counted = omega arith;
          fits = omega arith;
          consecutive =
              rw (next, ← same)
                (Consecutive-append _ r.next_offset (kept r) (stamp r f ∷ []) after start
                  (refl, tt));
        },
        refl,
        next,
        refl,
      )

  -- A replay of `n` frames is the `min n (length frames)` newest ones, up to the latest offset.
  pub tail-Consecutive :
      (n : ℕ)
      → Consecutive (r.next_offset - length (tail r n)) (tail r n)
        × (length (tail r n) ≡ min n (length r.frames))
  unfolding tail
  tail-Consecutive n =
      let size = length-drop (length r.frames - min n (length r.frames)) r.frames in
      (
        subst (λ m. Consecutive m (tail r n)) (omega arith)
            (Consecutive-drop (length r.frames - min n (length r.frames)) _ r.frames v.consecutive
              (omega arith)),
        omega arith,
      )
