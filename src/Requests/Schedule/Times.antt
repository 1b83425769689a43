-- ===== src/Requests/Schedule/Times.antt =====
-- The planner's times: `Due`, `MarkTriggered`, `WaitDuration` and the wait of the loop.
use ai_models.Prelude.{
  List, [], ◌∷◌, All, ℕ, zero, suc, ◌+◌, ◌-◌, ◌≡◌, ◌<◌, ◌≤◌, refl, true, false, not, ◌&&◌, ◌==◌,
  some, leb, arith, inl, inr, Bool-cases,
}
use ai_models.Prelude.Int64.{Int64, lt64, half}
use ai_models.Requests.Options.{Options}
use ai_models.Requests.Schedule.{
  Planner, due, triggered, mark_triggered, wait_duration, shorter, loop_wait,
}

-- A schedule whose every time is followed by a later one.
abbrev pub GoesOn : (ℕ → ℕ) → Type 0
GoesOn schedule = (t : ℕ) → t < schedule t

-- The first times of a schedule, and the one after them.
abbrev pub first_times : (ℕ → ℕ) → ℕ → ℕ → List ℕ
first_times schedule zero t = []
first_times schedule (suc k) t = t ∷ first_times schedule k (schedule t)

abbrev pub time_after : (ℕ → ℕ) → ℕ → ℕ → ℕ
time_after schedule zero t = t
time_after schedule (suc k) t = time_after schedule k (schedule t)

-- `t` is the first time of the schedule, from `next` on, that is after `now`.
abbrev pub IsFirstAfter : (ℕ → ℕ) → ℕ → ℕ → ℕ → Type 0
IsFirstAfter schedule next now t =
    (now < t)
    × ((k : ℕ) × (time_after schedule k next ≡ t)
        × All (λ early. early ≤ now) (first_times schedule k next))

leb→le : (a b : ℕ) → leb a b ≡ true → a ≤ b
leb→le a b h = ground arith

not_due : (next now : ℕ) → now < next → (not (next == 0) && leb next now) ≡ false
not_due next now h = ground arith

triggered-IsFirstAfter :
    (rounds : ℕ) (schedule : ℕ → ℕ) (next now : ℕ)
    → GoesOn schedule
    → now < next + rounds
    → IsFirstAfter schedule next now (triggered rounds schedule next now)
unfolding triggered
triggered-IsFirstAfter zero schedule next now g h = (omega arith, (0, refl, tt))
triggered-IsFirstAfter (suc rounds) schedule next now g h = elim (Bool-cases (leb next now)) [
  | inr past ↦ rw past (ground arith, (0, refl, tt))
  | inl early ↦
      let rest =
        triggered-IsFirstAfter rounds schedule (schedule next) now g
          (let p = g next in omega arith) in
      rw early (rest.0, (suc rest.1.0, rest.1.1, (leb→le next now early, rest.1.2)))
]

-- For a schedule that has a later time after each time, the loop of `MarkTriggered` ends, and the
-- planner's next time is then the first of the schedule, from the one that it had on, that is
-- after `now`.
pub mark_triggered-IsFirstAfter :
    (p : Planner) (now : ℕ)
    → GoesOn p.schedule
    → IsFirstAfter p.schedule p.next now (mark_triggered p now).next
unfolding mark_triggered
mark_triggered-IsFirstAfter p now g =
    triggered-IsFirstAfter (now + 1 - p.next) p.schedule p.next now g (omega arith)

pub due-mark_triggered :
    (p : Planner) (now : ℕ) → GoesOn p.schedule → due (mark_triggered p now) now ≡ false
unfolding due
due-mark_triggered p now g = not_due _ now (mark_triggered-IsFirstAfter p now g).0

shorter_bounds :
    (candidate wait : Int64)
    → candidate < half
    → 0 < wait
    → wait < half
    → (0 < shorter candidate wait)
      × (shorter candidate wait ≤ wait)
      × (shorter candidate wait < half)
      × (0 < candidate → shorter candidate wait ≤ candidate)
shorter_bounds candidate wait c w h = (ground arith, ground arith, ground arith, λ p. ground arith)

wait_duration_bounds :
    (p : Planner) (now : ℕ)
    → now < p.next
    → (0 < wait_duration p now)
      × (wait_duration p now ≤ p.next - now)
      × (wait_duration p now < half)
unfolding wait_duration
wait_duration_bounds p now h = ground arith

positive_lem : (a : Int64) → lt64 0 a ≡ true → 0 < a
positive_lem a h = ground arith

-- Where the planned time is ahead, the rescan interval is above 0 and it and the mirror interval
-- are not negative, the loop waits longer than 0, and neither past the planned time nor longer
-- than the rescan interval.
loop_wait-le :
    (options : Options) (p : Planner) (now : ℕ)
    → now < p.next
    → lt64 0 options.rescan_interval ≡ true
    → options.rescan_interval < half
    → options.maintenance_gate_mirror_interval < half
    → (0 < loop_wait options (some p) now)
      × (loop_wait options (some p) now ≤ p.next - now)
      × (loop_wait options (some p) now ≤ options.rescan_interval)
unfolding loop_wait
loop_wait-le options p now h r k m =
    let w = wait_duration_bounds p now h in
    let inner =
      shorter_bounds (wait_duration p now) options.rescan_interval w.2
        (positive_lem options.rescan_interval r) k in
    let outer =
      shorter_bounds options.maintenance_gate_mirror_interval
        (shorter (wait_duration p now) options.rescan_interval) m inner.0 inner.2 in
    (outer.0, omega (arith, inner.3 w.0), omega arith)
