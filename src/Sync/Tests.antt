-- ===== src/Sync/Tests.antt =====
-- The locks on a scheduler with two ready threads.
use luck_os.Common.{◌≡◌, refl, arith, [], ◌∷◌, true, false}
use luck_os.Sync.Yieldlock.{locked_no, locked_yes, yieldlock_init}
use luck_os.Sync.Mutex.{
  Mutex, mutex_init, mutex_step, outside, locking, lock_yielding, testing, entering,
}
use luck_os.Sync.Mutex.Exclusion.{
  Shared, with_phase, IsExclusive, Run, step, done, advancing, interrupting, Run-IsExclusive,
}
use luck_os.Task.Scheduler.{Scheduler, task_running, get_crt_thread}
use luck_os.Sync.Spinlock.{Spinlock, spinlock_lock_irqsave, spinlock_unlock_irqrestore}
use luck_os.Sync.Spinlock.Restore.{IsHeld, spinlock_irqsave-restores}

abbrev one_running : Scheduler
one_running = record {
  threads = λ n. record {
    kernel_stack = 4096;
    priority = 10;
    status = task_running;
    ticks = 0;
    process = 1;
    need_reschedule = false;
    preempt_count = 0;
  };
  crt_thread_node = 1;
  main_thread_node = 9;
  main_process = 1;
  ready_tasks = 2 ∷ 3 ∷ [];
  main_thread_in_ready_queue = false;
  interrupt_enabled = true;
  tss_esp = 0;
  page_dir = 1;
  tick = 0;
}

abbrev new_spinlock : Spinlock
new_spinlock = record { hold = locked_no; interrupt_mask = 0 }

spinlock_irqsave-restores_example :
    (splock₁ : Spinlock) × (s₁ : Scheduler) × (spinlock_lock_irqsave new_spinlock one_running
      ≡ (splock₁, s₁))
    × (IsHeld s₁)
    × ((spinlock_unlock_irqrestore splock₁ s₁).1.interrupt_enabled ≡ one_running.interrupt_enabled)
    × ((get_crt_thread (spinlock_unlock_irqrestore splock₁ s₁).1).preempt_count
        ≡ (get_crt_thread one_running).preempt_count)
spinlock_irqsave-restores_example = spinlock_irqsave-restores new_spinlock one_running (omega arith)

-- Threads 1 and 2 outside of a new mutex.
abbrev new_shared : Shared
new_shared = record { mutex = mutex_init; scheduler = one_running; phases = λ n. outside }

new_shared-IsExclusive : IsExclusive new_shared
new_shared-IsExclusive = record {
  inside = record { held = λ n e. absurd (cc e); single = λ n n' e e'. absurd (cc e) };
  owner = record { held = λ n e. absurd (cc e); single = λ n n' e e'. absurd (cc e) };
}

-- Thread 1 is about to leave `ydlock` with the mutex.
abbrev taken_mutex : Mutex
taken_mutex = record mutex_init { hold = locked_yes; ydlock = record { hold = locked_yes } }

abbrev thread_two : Scheduler
thread_two = record one_running { crt_thread_node = 2 }

-- Thread 1 takes both locks; an interrupt switches to thread 2, which has to yield.
abbrev contended : Shared
contended = record {
  mutex = taken_mutex;
  scheduler = thread_two;
  phases =
      with_phase
        (with_phase
          (with_phase (with_phase (with_phase (λ n. outside) 1 locking) 1 testing) 1 entering) 2
          locking)
        2 lock_yielding;
}

contended-Run : Run new_shared contended
unfolding mutex_step mutex_init yieldlock_init
contended-Run = step (advancing locking mutex_init one_running refl) (
    step
      (advancing testing (record mutex_init { ydlock = record { hold = locked_yes } }) one_running
        refl)
      (step (advancing entering taken_mutex one_running refl) (
        step (interrupting thread_two) (
          step (advancing locking taken_mutex thread_two refl)
            (step (advancing lock_yielding taken_mutex thread_two refl) done)))))

Run-IsExclusive_example : IsExclusive contended
Run-IsExclusive_example = Run-IsExclusive new_shared contended new_shared-IsExclusive contended-Run
