-- ===== src/Console/AlertsExamples.antt =====
-- Tests of the samples of a counter, and their theorem at concrete readings: the counter starts again
-- before the last one.
use rust_uma.Prelude.{◌≤◌, ◌≡◌, refl, arith, ◌-◌, List, [], ◌∷◌, inl, inr, none}
use rust_uma.Console.Alerts.{drop_old, push, total_from, increase, counter}
use rust_uma.Console.Alerts.Growth.{Reading, push_all, growth, push_all-increase}

abbrev readings : List Reading
readings =
    record { at = 0; value = 5; grown = 5 }
    ∷ record { at = 60000; value = 8; grown = 3 }
    ∷ record { at = 120000; value = 2; grown = 4 }
    ∷ []

-- The two events before the restart are lost.
growth_of_the_last_readings : increase 120000 100000 (push_all [] readings) ≡ 5
unfolding push_all push drop_old increase total_from
growth_of_the_last_readings = refl

old_samples_go : push 4000000 9 (push_all [] readings) ≡ (120000, 2) ∷ (4000000, 9) ∷ []
unfolding push_all push drop_old
old_samples_go = refl

an_absent_value_leaves_the_series : counter [] "key" none 5 10 ≡ ([], none)
unfolding counter
an_absent_value_leaves_the_series = refl

push_all-increase_example :
    increase 120000 100000 (push_all [] readings) ≤ growth (120000 - 100000) readings
push_all-increase_example =
    push_all-increase readings 120000 100000 (inl refl, (inr (omega arith), tt))
