-- ===== src/ReadyQueue/Priority.antt =====
-- The feedback rule `calcNewPriority`.
use mirai_os.Prelude.{ℕ, ◌+◌, ◌*◌, ◌/◌, ◌^◌, ◌≤◌, ◌<◌, ◌≡◌, ℤ, Bool, true, false, arith}
use mirai_os.Thread.{ThreadInfo}
use mirai_os.ReadyQueue.{below, new_priority, calc_new_priority, timeslice_base}

-- A new priority `q` for a thread with time `r` left that had the priority `p`.
pub record FeedbackRule (fixed : Bool) (r : ℤ) (p q : ℕ) : Type 0 where
  pub in_range : q < 8
  pub not_top : 1 ≤ p → 1 ≤ q
  pub at_most_one : (q ≤ p + 1) × (p ≤ q + 1)
  pub kept : fixed ≡ true → q ≡ p
  pub lowered : p < q → below r 1 ≡ true
  pub raised : q < p → below r (timeslice_base * 2 ^ p / 2) ≡ false

-- `calcNewPriority` keeps a thread's priority below 8 and, where it was at least 1, at least 1; it
-- changes it by one at most, and not where it is fixed; the priority value grows only where no
-- time is left, and falls only where at least half of the time slice is left.
pub calc_new_priority-FeedbackRule :
    (t : ThreadInfo)
    → t.priority < 8
    → FeedbackRule t.fixed_priority t.jiffies_remaining t.priority (calc_new_priority t).priority
unfolding calc_new_priority new_priority
calc_new_priority-FeedbackRule t lt = record {
  in_range = ground arith;
  not_top = λ h. ground arith;
  at_most_one = ground arith;
  kept = λ h. ground arith;
  lowered = λ h. ground arith;
  raised = λ h. ground arith;
}
