-- ===== src/Sync/Mutex.antt =====
-- src/sync/mutex.c over the scheduler, one access of the shared state after the other: between two steps of a call an
-- interrupt may switch to another thread, as `interrupt_exit` in src/interrupt/idt.S does.
pub mod Effect
pub mod Exclusion
use luck_os.Common.{ℕ, Option, none, some, List, [], ◌∷◌, ◌++◌, ◌==◌, not, if◌then◌else◌, ◌>>=◌}
use luck_os.Sync.Yieldlock.{
  Yieldlock, locked_no, locked_yes, atomic_exchange, yieldlock_init, yieldlock_unlock,
}
use luck_os.Task.Scheduler.{
  Scheduler, add_thread_node_to_schedule, schedule_mark_thread_block, schedule_thread_yield,
}

-- `thread_node` is 0 for a null pointer.
pub record Mutex : Type 0 where
  pub hold : ℕ
  pub thread_node : ℕ
  pub waiting_task_queue : List ℕ
  pub ydlock : Yieldlock

unfoldable pub mutex_init : Mutex
mutex_init = record {
  hold = locked_no;
  thread_node = 0;
  waiting_task_queue = [];
  ydlock = yieldlock_init;
}

-- Where a thread is: outside, at a statement of `mutex_lock`, with the mutex, or at a statement of `mutex_unlock`.
pub data Phase : Type 0 where
  outside : Phase
  locking : Phase
  lock_yielding : Phase
  testing : Phase
  queueing : Phase
  marking : Phase
  parting : Phase
  waiting : Phase
  entering : Phase
  owning : Phase
  unlocking : Phase
  unlock_yielding : Phase
  releasing : Phase
  clearing : Phase
  waking : Phase
  adding : ℕ → Phase
  leaving : Phase

-- One round of `yieldlock_lock` on `ydlock`, up to the test of its loop.
abbrev pub try_ydlock : Phase → Phase → Mutex → Scheduler → Option (Phase × Mutex × Scheduler)
try_ydlock taken again mp s =
    let (old, new) = atomic_exchange mp.ydlock.hold locked_yes in
    some
      (if old == locked_no then taken else again, record mp { ydlock = record { hold = new } }, s)

-- A call of `schedule_thread_yield`, and where the thread goes on when it runs again.
abbrev yield_to : Phase → Mutex → Scheduler → Option (Phase × Mutex × Scheduler)
yield_to phase mp s = schedule_thread_yield s >>= λ s'. some (phase, mp, s')

-- The test of the loop of `mutex_lock`.
abbrev test_hold : Mutex → Scheduler → Option (Phase × Mutex × Scheduler)
test_hold mp s =
    let (old, new) = atomic_exchange mp.hold locked_yes in
    some (if old == locked_no then entering else queueing, record mp { hold = new }, s)

-- The head of the queue is taken out of it; an empty queue wakes nobody.
abbrev pub take_first : List ℕ → Mutex → Scheduler → Option (Phase × Mutex × Scheduler)
take_first [] mp s = some (leaving, mp, s)
take_first (head ∷ rest) mp s = some (adding head, record mp { waiting_task_queue = rest }, s)

-- The next statement of the current thread. Outside it calls `mutex_lock`, and with the mutex `mutex_unlock`.
unfoldable pub mutex_step : Phase → Mutex → Scheduler → Option (Phase × Mutex × Scheduler)
mutex_step outside mp s = some (locking, mp, s)
mutex_step locking mp s = try_ydlock testing lock_yielding mp s
mutex_step lock_yielding mp s = yield_to locking mp s
mutex_step testing mp s = test_hold mp s
mutex_step queueing mp s = some (
  marking,
  record mp { waiting_task_queue = mp.waiting_task_queue ++ (s.crt_thread_node ∷ []) },
  s,
)
mutex_step marking mp s = some (parting, mp, schedule_mark_thread_block s)
mutex_step parting mp s = some (waiting, record mp { ydlock = yieldlock_unlock mp.ydlock }, s)
mutex_step waiting mp s = yield_to locking mp s
mutex_step entering mp s = some (owning, record mp { ydlock = yieldlock_unlock mp.ydlock }, s)
mutex_step owning mp s = some (unlocking, mp, s)
mutex_step unlocking mp s = try_ydlock releasing unlock_yielding mp s
mutex_step unlock_yielding mp s = yield_to unlocking mp s
mutex_step releasing mp s = some (clearing, record mp { hold = locked_no }, s)
mutex_step clearing mp s = some (waking, record mp { thread_node = 0 }, s)
mutex_step waking mp s = take_first mp.waiting_task_queue mp s
mutex_step (adding head) mp s = some (leaving, mp, add_thread_node_to_schedule s head)
mutex_step leaving mp s = some (outside, record mp { ydlock = yieldlock_unlock mp.ydlock }, s)
