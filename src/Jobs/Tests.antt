-- ===== src/Jobs/Tests.antt =====
-- A job that runs every five minutes and last ran at minute 1, at minute 17; and the in-flight set.
use vac.Jobs.Slot.{next_occurrence-first}
use vac.Jobs.{ScheduledJob, next_occurrence, one_minute}
use vac.Prelude.{◌*◌, some, pos, ◌≡◌, refl, ◌<◌, ℕ, ◌+◌, ◌⊎◌, ◌≤◌}

abbrev five : ScheduledJob
five = record { id = 4; interval_minutes = some (pos 5); last_run = some one_minute }

five_next : next_occurrence (17 * one_minute) five ≡ 21 * one_minute
unfolding next_occurrence
five_next = refl

next_occurrence-first_example :
    (17 * one_minute < next_occurrence (17 * one_minute) five)
    × (k : ℕ) × (next_occurrence (17 * one_minute) five ≡ one_minute + (k + 1) * (5 * one_minute))
    × ((k ≡ 0) ⊎ (one_minute + k * (5 * one_minute) ≤ 17 * one_minute))
next_occurrence-first_example = next_occurrence-first (17 * one_minute) five
