-- ===== src/Pipeline/Processor/Recent.antt =====
-- The window of the last outcomes of src/pipeline.rs and the count of its hits.
use rust_uma.Prelude.{
  ℕ, suc, ◌+◌, ◌-◌, ◌≤◌, ◌≡◌, refl, ap, sym, ap₂, subst, ◌∙◌, Bool, true, false, List, [], ◌∷◌,
  ◌++◌, length, length-append, length-drop, count, last_n, last_n-push, drop, if◌then◌else◌, ltb,
  u64_add, arith, Bool-cases, inl, inr, append_assoc, append-nil,
}
use rust_uma.Pipeline.Processor.{push_recent, drop_oldest, recent_enrichment_window}

abbrev is_hit : Bool → Bool
is_hit b = b

abbrev pub hits_of : List Bool → ℕ
hits_of window = count is_hit window

-- Outcomes one after the other.
unfoldable pub push_outcomes : List Bool → ℕ → List Bool → List Bool × ℕ
push_outcomes window hits [] = (window, hits)
push_outcomes window hits (hit ∷ outcomes) =
    let (window', hits') = push_recent hit window hits in push_outcomes window' hits' outcomes

hits_of-append :
    (window : List Bool) (hit : Bool)
    → hits_of (window ++ (hit ∷ [])) ≡ hits_of window + hits_of (hit ∷ [])
hits_of-append [] hit = omega arith
hits_of-append (true ∷ window) hit = omega (arith, hits_of-append window hit)
hits_of-append (false ∷ window) hit = omega (arith, hits_of-append window hit)

hits_of-length : (window : List Bool) → hits_of window ≤ length window
hits_of-length [] = omega arith
hits_of-length (true ∷ window) = omega (arith, hits_of-length window)
hits_of-length (false ∷ window) = omega (arith, hits_of-length window)

more-hits :
    (hit : Bool) (window : List Bool)
    → length window ≤ recent_enrichment_window
    → (if hit then u64_add (hits_of window) 1 else hits_of window) ≡ hits_of (window ++ (hit ∷ []))
more-hits true window h = omega (arith, h, hits_of-append window true, hits_of-length window)
more-hits false window h = omega (arith, h, hits_of-append window false, hits_of-length window)

drop_oldest-hits :
    (hit : Bool) (window : List Bool)
    → (drop_oldest (hit ∷ window) (hits_of (hit ∷ window))).1 ≡ hits_of window
drop_oldest-hits true window = omega arith
drop_oldest-hits false window = refl

drop_oldest-lem :
    (longer : List Bool)
    → length longer ≡ suc recent_enrichment_window
    → let (w, n) = drop_oldest longer (hits_of longer) in
      (w ≡ last_n recent_enrichment_window longer) × (n ≡ hits_of w)
drop_oldest-lem [] e = absurd (omega (arith, e))
drop_oldest-lem (hit ∷ window) e =
    let one : length (hit ∷ window) - recent_enrichment_window ≡ 1 = omega (arith, e) in
    (sym (ap (λ k. drop k (hit ∷ window)) one), drop_oldest-hits hit window)

push_recent-lem :
    (hit : Bool) (window : List Bool)
    → length window ≤ recent_enrichment_window
    → let (w, n) = push_recent hit window (hits_of window) in
      (w ≡ last_n recent_enrichment_window (window ++ (hit ∷ []))) × (n ≡ hits_of w)
unfolding push_recent
push_recent-lem hit window h =
    let longer = window ++ (hit ∷ []) in
    elim (Bool-cases (ltb recent_enrichment_window (length longer))) [
      | inl over ↦
          rw (over, more-hits hit window h)
            (drop_oldest-lem longer (ground (arith, over, h, length-append window (hit ∷ []))))
      | inr fits ↦
          rw (fits, more-hits hit window h)
            (let none_over : length longer - recent_enrichment_window ≡ 0 = ground (arith, fits) in
              (sym (ap (λ k. drop k longer) none_over), refl))
    ]

push_outcomes-from :
    (history outcomes : List Bool)
    → let window = last_n recent_enrichment_window history in
      let (w, n) = push_outcomes window (hits_of window) outcomes in
      (w ≡ last_n recent_enrichment_window (history ++ outcomes)) × (n ≡ hits_of w)
unfolding push_outcomes
push_outcomes-from history [] =
    (ap (last_n recent_enrichment_window) (sym (append-nil history)), refl)
push_outcomes-from history (hit ∷ outcomes) =
    let window = last_n recent_enrichment_window history in
    let short : length window ≤ recent_enrichment_window =
      omega (arith, length-drop (length history - recent_enrichment_window) history) in
    let step = push_recent-lem hit window short in
    let (w, n) = push_recent hit window (hits_of window) in
    let here : w ≡ last_n recent_enrichment_window (history ++ (hit ∷ [])) =
      step.0 ∙ last_n-push recent_enrichment_window history (hit ∷ []) in
    let counted : n ≡ hits_of (last_n recent_enrichment_window (history ++ (hit ∷ []))) =
      step.1 ∙ ap hits_of here in
    let rest = push_outcomes-from (history ++ (hit ∷ [])) outcomes in
    let same : push_outcomes w n outcomes
        ≡ push_outcomes (last_n recent_enrichment_window (history ++ (hit ∷ [])))
            (hits_of (last_n recent_enrichment_window (history ++ (hit ∷ [])))) outcomes =
      ap₂ (λ x y. push_outcomes x y outcomes) here counted in
    subst
      (λ r.
        (r.0 ≡ last_n recent_enrichment_window (history ++ (hit ∷ outcomes))) × (r.1 ≡ hits_of r.0))
      (sym same)
      (
        rest.0 ∙ ap (last_n recent_enrichment_window) (append_assoc history (hit ∷ []) outcomes),
        rest.1,
      )

-- Whatever outcomes a processor has noted since its start, its window is the last 1000 of them, and the
-- count that it publishes is the number of hits among those.
pub push_outcomes_lem :
    (outcomes : List Bool)
    → let (window, hits) = push_outcomes [] 0 outcomes in
      (window ≡ last_n recent_enrichment_window outcomes)
      × (hits ≡ hits_of (last_n recent_enrichment_window outcomes))
push_outcomes_lem outcomes =
    let all = push_outcomes-from [] outcomes in (all.0, all.1 ∙ ap hits_of all.0)
