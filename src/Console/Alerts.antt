-- ===== src/Console/Alerts.antt =====
-- The samples of a counter in src/console/alerts.rs, and their growth in a window of time.
use rust_uma.Prelude.{
  ℕ, ◌+◌, ◌-◌, ◌==◌, ◌≡◌, Bool, true, false, ◌&&◌, not, Option, none, some, List, [], ◌∷◌, ◌++◌,
  if◌then◌else◌, ltb, leb, u64_add, last?, String, string_eq, lookup, insert,
}
pub mod Growth

-- A sample is its time and the value of the counter.
abbrev pub Series : Type 0
Series = List (ℕ × ℕ)

abbrev pub series_keep_ms : ℕ
series_keep_ms = 3900000

-- `while front is too old { pop_front }`, one sample at a time.
unfoldable pub drop_old : ℕ → Series → Series
drop_old now [] = []
drop_old now (s ∷ series) =
    let rest = drop_old now series in if ltb series_keep_ms (now - s.0) then rest else s ∷ series

unfoldable pub push : ℕ → ℕ → Series → Series
push now value series = drop_old now (series ++ ((now, value) ∷ []))

-- What a sample adds to the growth, after the sample `prev`.
abbrev pub added : ℕ → Option ℕ → ℕ × ℕ → ℕ
added start none s = 0
added start (some prev) s = if leb start s.0 then (if leb prev s.1 then s.1 - prev else s.1) else 0

unfoldable pub total_from : ℕ → ℕ → Option ℕ → Series → ℕ
total_from start total prev [] = total
total_from start total prev (s ∷ series) =
    total_from start (u64_add total (added start prev s)) (some s.1) series

unfoldable pub increase : ℕ → ℕ → Series → ℕ
increase now window_ms series = total_from (now - window_ms) 0 none series

abbrev pub time_or_zero : Option (ℕ × ℕ) → ℕ
time_or_zero none = 0
time_or_zero (some s) = s.0

abbrev pub last_at : Series → ℕ
last_at series = time_or_zero (last? series)

abbrev pub or_empty : Option Series → Series
or_empty none = []
or_empty (some s) = s

-- A value of the counter, if there is one, goes into its series, and the growth comes back.
unfoldable pub counter :
    List (String × Series) → String → Option ℕ → ℕ → ℕ → List (String × Series) × Option ℕ
counter series key none now window_ms = (series, none)
counter series key (some value) now window_ms =
    let next = push now value (or_empty (lookup key series)) in
    (insert key next series, some (increase now window_ms next))
