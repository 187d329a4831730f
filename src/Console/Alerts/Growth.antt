-- ===== src/Console/Alerts/Growth.antt =====
-- The growth that is read off the samples against the growth of the counter.
use rust_uma.Prelude.{
  ℕ, ◌+◌, ◌-◌, ◌≤◌, ◌≡◌, ◌⊎◌, refl, ap, sym, subst, ◌∙◌, some, List, [], ◌∷◌, ◌++◌, map,
  if◌then◌else◌, ltb, leb, u64_add, append_assoc, append-nil, arith, Bool-cases, inl, inr,
}
use rust_uma.Console.Alerts.{Series, series_keep_ms, drop_old, push, added, total_from, increase}

-- A sample with what the counter truly grew by since the sample before.
pub record Reading : Type 0 where
  pub at : ℕ
  pub value : ℕ
  pub grown : ℕ

abbrev pub sample_of : Reading → ℕ × ℕ
sample_of r = (r.at, r.value)

unfoldable pub push_all : Series → List Reading → Series
push_all series [] = series
push_all series (r ∷ rs) = push_all (push r.at r.value series) rs

-- The counter grew on, or it started again and has at most what it grew by.
abbrev pub Follows : ℕ → List Reading → Type 0
Follows prev [] = Unit
Follows prev (r ∷ rs) = ((r.value ≡ prev + r.grown) ⊎ (r.value ≤ r.grown)) × Follows r.value rs

abbrev pub IsCounter : List Reading → Type 0
IsCounter [] = Unit
IsCounter (r ∷ rs) = Follows r.value rs

-- What the counter grew by, over the readings from `start` on.
abbrev pub growth : ℕ → List Reading → ℕ
growth start [] = 0
growth start (r ∷ rs) = (if leb start r.at then r.grown else 0) + growth start rs

u64_add-at_most : (a b : ℕ) → u64_add a b ≤ a + b
u64_add-at_most a b = omega arith

added-growth :
    (start prev : ℕ) (r : Reading)
    → (r.value ≡ prev + r.grown) ⊎ (r.value ≤ r.grown)
    → added start (some prev) (sample_of r) ≤ (if leb start r.at then r.grown else 0)
added-growth start prev r (inl on) = ground (arith, on)
added-growth start prev r (inr again) = ground (arith, again)

total_from-growth :
    (start total prev : ℕ) (rs : List Reading)
    → Follows prev rs
    → total_from start total (some prev) (map sample_of rs) ≤ total + growth start rs
unfolding total_from
total_from-growth start total prev [] h = omega arith
total_from-growth start total prev (r ∷ rs) h =
    let next = u64_add total (added start (some prev) (sample_of r)) in
    let step : next ≤ total + (if leb start r.at then r.grown else 0) = omega (
      arith,
      u64_add-at_most total (added start (some prev) (sample_of r)),
      added-growth start prev r h.0,
    ) in
    omega (arith, step, total_from-growth start next r.value rs h.1)

increase-growth :
    (now window_ms : ℕ) (rs : List Reading)
    → IsCounter rs
    → increase now window_ms (map sample_of rs) ≤ growth (now - window_ms) rs
unfolding increase total_from
increase-growth now window_ms [] h = omega arith
increase-growth now window_ms (r ∷ rs) h =
    omega (arith, total_from-growth (now - window_ms) 0 r.value rs h)

Follows-IsCounter : (prev : ℕ) (rs : List Reading) → Follows prev rs → IsCounter rs
Follows-IsCounter prev [] h = tt
Follows-IsCounter prev (r ∷ rs) h = h.1

IsCounter-tail : (r : Reading) (rs : List Reading) → IsCounter (r ∷ rs) → IsCounter rs
IsCounter-tail r rs h = Follows-IsCounter r.value rs h

-- The samples that are kept are the last ones.
drop_old-last :
    (now : ℕ) (series : Series) → (before : Series) × (before ++ drop_old now series ≡ series)
unfolding drop_old
drop_old-last now [] = ([], refl)
drop_old-last now (s ∷ series) = elim (Bool-cases (ltb series_keep_ms (now - s.0))) [
  | inl old ↦ let (before, e) = drop_old-last now series in (s ∷ before, rw old (ap (λ x. s ∷ x) e))
  | inr fresh ↦ ([], rw fresh refl)
]

push_all-last :
    (series : Series) (rs : List Reading)
    → (before : Series) × (before ++ push_all series rs ≡ series ++ map sample_of rs)
unfolding push_all push
push_all-last series [] = ([], sym (append-nil series))
push_all-last series (r ∷ rs) =
    let (gone, e) = drop_old-last r.at (series ++ (sample_of r ∷ [])) in
    let (before, f) = push_all-last (push r.at r.value series) rs in
    (
      gone ++ before,
      append_assoc gone before _
          ∙ (ap (λ x. gone ++ x) f
              ∙ (sym (append_assoc gone (push r.at r.value series) (map sample_of rs))
                  ∙ (ap (λ x. x ++ map sample_of rs) e
                      ∙ append_assoc series (sample_of r ∷ []) (map sample_of rs)))),
    )

abbrev rest_of : Series → Series
rest_of [] = []
rest_of (s ∷ series) = series

increase-last :
    (now window_ms : ℕ) (before series : Series) (rs : List Reading)
    → before ++ series ≡ map sample_of rs
    → IsCounter rs
    → increase now window_ms series ≤ growth (now - window_ms) rs
increase-last now window_ms [] series rs e h =
    subst (λ s. increase now window_ms s ≤ growth (now - window_ms) rs) (sym e)
      (increase-growth now window_ms rs h)
increase-last now window_ms (s ∷ before) series [] e h = absurd (ground (arith, e))
increase-last now window_ms (s ∷ before) series (r ∷ rs) e h =
    omega
      (arith, increase-last now window_ms before series rs (ap rest_of e) (IsCounter-tail r rs h))

-- A counter is read again and again; between two readings it grows, or it starts again from 0 once or
-- more. The growth that the series gives for a window is then never more than what the counter grew by,
-- over the readings in the window: an alert never counts what did not happen.
pub push_all-increase :
    (rs : List Reading) (now window_ms : ℕ)
    → IsCounter rs
    → increase now window_ms (push_all [] rs) ≤ growth (now - window_ms) rs
push_all-increase rs now window_ms h =
    let (before, e) = push_all-last [] rs in
    increase-last now window_ms before (push_all [] rs) rs e h
