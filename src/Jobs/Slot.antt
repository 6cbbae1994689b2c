-- ===== src/Jobs/Slot.antt =====
-- The next slot of an interval job of api/internal/jobs/scheduler.go.
use vac.Jobs.{
  slot_after, step_of, mark_running, next_occurrence, ScheduledJob, clear_running, anchor_of,
}
use vac.Prelude.{
  Option, ℕ, ◌<◌, ℤ, arith, ◌≡◌, ◌+◌, some, ◌⊎◌, pos, ◌≤◌, suc, Bool-cases, negsuc, ltb, none, inl,
  zero, inr, ◌*◌, ◌-◌, ◌/◌, ◌%◌, refl, List, ◌∷◌, elem, keep, not, ◌==◌, false, ==_refl, [],
}
use native.Mathlib.Omega.{div_any}
use native.Mathlib.Nat.{mod-lt, mul_comm}

step-positive : (i : Option ℤ) → 0 < step_of i
step-positive none = omega arith
step-positive (some (pos zero)) = omega arith
step-positive (some (pos (suc n))) = omega arith
step-positive (some (negsuc n)) = omega arith

suc-times : (q s : ℕ) → (q + 1) * s ≡ s * q + s
suc-times q s = omega arith

slot-first :
    (now anchor step : ℕ)
    → 0 < step
    → (now < slot_after now anchor step)
      × (k : ℕ) × (slot_after now anchor step ≡ anchor + (k + 1) * step)
      × ((k ≡ 0) ⊎ (anchor + k * step ≤ now))
slot-first now anchor step p = elim (Bool-cases (ltb now (anchor + step))) [
  | inl ahead ↦
      let once : (0 + 1) * step ≡ step = omega (arith, suc-times 0 step) in
      rw ahead (ground arith, 0, omega (arith, once), inl refl)
  | inr missed ↦
      let cand = anchor + step in
      let q = (now - cand) / step in
      let whole : step * q + (now - cand) % step ≡ now - cand = div_any (now - cand) step in
      let part : (now - cand) % step < step = mod-lt (now - cand) p in
      let late : cand ≤ now = ground arith in
      let one_more : (q + 1) * step ≡ step * q + step = suc-times q step in
      let two_more : (q + 1 + 1) * step ≡ step * (q + 1) + step = suc-times (q + 1) step in
      let turned : step * (q + 1) ≡ (q + 1) * step = mul_comm step (q + 1) in
      rw missed (
        omega (arith, whole, part, late, one_more),
        q + 1,
        omega (arith, one_more, two_more, turned),
        inr (omega (arith, whole, late, one_more)),
      )
]

-- The next slot of an interval job lies after now and a whole number of steps, at least one, after the
-- job's anchor, and it is the first such: the slot before it is the anchor itself or not after now.
-- So missed slots are skipped, not made up for, and the cadence does not drift.
pub next_occurrence-first :
    (now : ℕ) (job : ScheduledJob)
    → let anchor = anchor_of now job.last_run in
      let step = step_of job.interval_minutes in
      (now < next_occurrence now job)
      × (k : ℕ) × (next_occurrence now job ≡ anchor + (k + 1) * step)
      × ((k ≡ 0) ⊎ (anchor + k * step ≤ now))
unfolding next_occurrence
next_occurrence-first now job =
    slot-first now (anchor_of now job.last_run) (step_of job.interval_minutes)
      (step-positive job.interval_minutes)

-- A job that is marked as running cannot be marked again until it is cleared, and then can.
pub mark_running-clear_running :
    (id : ℕ) (running after : List ℕ)
    → mark_running id running ≡ some after
    → (mark_running id after ≡ none)
      × (mark_running id (clear_running id after) ≡ some (id ∷ clear_running id after))
unfolding mark_running clear_running
mark_running-clear_running id running after h =
    let made : after ≡ id ∷ running = ground arith in
    (rw (made, ==_refl id) refl, rw (cleared_of after) refl)
  where
    cleared_of : (xs : List ℕ) → elem id (keep (λ j. not (j == id)) xs) ≡ false
    cleared_of [] = refl
    cleared_of (x ∷ xs) = ground (arith, cleared_of xs)
