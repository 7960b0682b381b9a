-- ===== src/Sync/CondVar.antt =====
-- src/sync/cond_var.c over the scheduler. `predicator` is an argument, its value when the round tests it; a null pointer is
-- `none`. A round is one step: no interrupt preempts the thread inside it.
use luck_os.Common.{
  ℕ, Bool, true, false, Option, none, some, List, [], ◌∷◌, ◌++◌, not, if◌then◌else◌, ◌>>=◌,
}
use luck_os.Sync.Yieldlock.{Yieldlock, yieldlock_lock, yieldlock_unlock}
use luck_os.Task.Scheduler.{
  Scheduler, add_thread_node_to_schedule, schedule_mark_thread_block, schedule_thread_yield,
}

pub record CondVar : Type 0 where
  pub waiting_task_queue : List ℕ

cond_var_init : CondVar
cond_var_init = record { waiting_task_queue = [] }

abbrev must_wait : Option Bool → Bool
must_wait none = false
must_wait (some holds) = not holds

-- One test of the loop: `true` when the wait is over, and the state where others may run when it is not.
cond_var_round :
    List ℕ
    → CondVar
    → Yieldlock
    → Option Bool
    → Scheduler
    → Option (Bool × CondVar × Yieldlock × Scheduler)
cond_var_round seen cv lock predicator s =
    let waiting = record cv {
      waiting_task_queue = cv.waiting_task_queue ++ (s.crt_thread_node ∷ []);
    } in
    yieldlock_lock seen lock >>= λ held.
    if must_wait predicator
    then (schedule_thread_yield (schedule_mark_thread_block s) >>= λ s'.
        some (false, waiting, yieldlock_unlock held, s'))
    else some (true, cv, yieldlock_unlock held, s)

-- The states in which the waiting thread runs again, each with its predicate.
cond_var_wait :
    List ℕ
    → List (CondVar × Yieldlock × Option Bool × Scheduler × List ℕ)
    → CondVar
    → Yieldlock
    → Option Bool
    → Scheduler
    → Option (CondVar × Yieldlock × Scheduler)
cond_var_wait seen [] cv lock predicator s =
    cond_var_round seen cv lock predicator s >>= λ (over, cv', lock', s').
    if over then some (cv', lock', s') else none
cond_var_wait seen ((cv₁, lock₁, predicator₁, s₁, seen₁) ∷ woken) cv lock predicator s =
    let later = cond_var_wait seen₁ woken cv₁ lock₁ predicator₁ s₁ in
    cond_var_round seen cv lock predicator s >>= λ (over, cv', lock', s').
    if over then some (cv', lock', s') else later

notify_first : List ℕ → Scheduler → CondVar × Scheduler
notify_first [] s = (record { waiting_task_queue = [] }, s)
notify_first (head ∷ rest) s =
    (record { waiting_task_queue = rest }, add_thread_node_to_schedule s head)

cond_var_notify : CondVar → Scheduler → CondVar × Scheduler
cond_var_notify cv s = notify_first cv.waiting_task_queue s
