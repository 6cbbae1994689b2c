-- ===== src/Jobs.antt =====
-- api/internal/jobs/scheduler.go: the next slot of an interval job and the in-flight set. A time is a
-- number of nanoseconds, and a duration is taken to be far from the 292 years at which Go's overflow.
-- The daily and weekly branches go by the calendar of Go's time package and are left out.
pub mod Slot
mod Tests
use vac.Prelude.{
  Option, ℕ, ◌+◌, List, ℤ, some, if◌then◌else◌, keep, pos, none, elem, ltb, not, suc, ◌*◌, ◌-◌,
  ◌==◌, ◌∷◌, ◌/◌,
}

-- The columns of store.ScheduledJob that the interval branch reads.
pub record ScheduledJob : Type 0 where
  pub id : ℕ
  pub interval_minutes : Option ℤ
  pub last_run : Option ℕ

abbrev pub one_minute : ℕ
one_minute = 60000000000

-- A step that is missing or not positive falls back to an hour.
abbrev pub step_of : Option ℤ → ℕ
step_of (some (pos (suc n))) = suc n * one_minute
step_of _ = 60 * one_minute

abbrev pub anchor_of : (now : ℕ) → Option ℕ → ℕ
anchor_of now none = now
anchor_of now (some t) = t

abbrev pub slot_after : (now anchor step : ℕ) → ℕ
slot_after now anchor step =
    let cand = anchor + step in
    if ltb now cand then cand else cand + ((now - cand) / step + 1) * step

-- nextOccurrence of a job whose frequency is interval.
unfoldable pub next_occurrence : (now : ℕ) → ScheduledJob → ℕ
next_occurrence now job = slot_after now (anchor_of now job.last_run) (step_of job.interval_minutes)

-- markRunning: the set after it, or none if the job is in flight already.
unfoldable pub mark_running : ℕ → List ℕ → Option (List ℕ)
mark_running id in_flight = if elem id in_flight then none else some (id ∷ in_flight)

-- clearRunning
unfoldable pub clear_running : ℕ → List ℕ → List ℕ
clear_running id in_flight = keep (λ j. not (j == id)) in_flight
