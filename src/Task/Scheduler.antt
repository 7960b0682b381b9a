-- ===== src/Task/Scheduler.antt =====
-- src/task/scheduler.c, with `timer_callback` of src/interrupt/timer.c: the ready queue and the switching between threads. A
-- thread is named by its node, and has one node; the queue is the list of its nodes, from its head. The switch of the
-- registers is assembly: what follows a switch is what the next thread does.
pub mod Fair
pub mod Running
mod Tests
use luck_os.Common.{
  ℕ, zero, suc, ◌+◌, ◌-◌, ◌%◌, ◌^◌, Bool, true, false, Option, none, some, List, [], ◌∷◌, ◌++◌,
  ◌==◌, leb, ltb, not, if◌then◌else◌, ◌&&◌, length,
}

pub data TaskStatus : Type 0 where
  task_running : TaskStatus
  task_ready : TaskStatus
  task_blocked : TaskStatus
  task_waiting : TaskStatus
  task_hanging : TaskStatus
  task_dead : TaskStatus

abbrev pub is_running : TaskStatus → Bool
is_running task_running = true
is_running task_ready = false
is_running task_blocked = false
is_running task_waiting = false
is_running task_hanging = false
is_running task_dead = false

abbrev pub is_dead : TaskStatus → Bool
is_dead task_running = false
is_dead task_ready = false
is_dead task_blocked = false
is_dead task_waiting = false
is_dead task_hanging = false
is_dead task_dead = true

-- The fields of `tcb_t` that the scheduler reads; `process` is 0 for a null pointer.
pub record Thread : Type 0 where
  pub kernel_stack : ℕ
  pub priority : ℕ
  pub status : TaskStatus
  pub ticks : ℕ
  pub process : ℕ
  pub need_reschedule : Bool
  pub preempt_count : ℕ

-- The globals of scheduler.c, and `tick`; `interrupt_enabled` is the flag of the processor, `tss_esp` the stack of the task
-- segment, and `page_dir` the process whose page directory is loaded.
pub record Scheduler : Type 0 where
  pub threads : ℕ → Thread
  pub crt_thread_node : ℕ
  pub main_thread_node : ℕ
  pub main_process : ℕ
  pub ready_tasks : List ℕ
  pub main_thread_in_ready_queue : Bool
  pub interrupt_enabled : Bool
  pub tss_esp : ℕ
  pub page_dir : ℕ
  pub tick : ℕ

abbrev kernel_stack_size : ℕ
kernel_stack_size = 8192

abbrev pub with_thread : (ℕ → Thread) → ℕ → Thread → ℕ → Thread
with_thread threads node thread n = if n == node then thread else threads n

abbrev pub get_crt_thread : Scheduler → Thread
get_crt_thread s = s.threads s.crt_thread_node

abbrev is_kernel_main_thread : Scheduler → Bool
is_kernel_main_thread s = s.crt_thread_node == s.main_thread_node

abbrev process_switch : Scheduler → ℕ → ℕ
process_switch s process = if process == 0 then s.main_process else process

-- Whether the thread that is switched out goes back to the queue.
abbrev pub stays_ready : Scheduler → Bool
stays_ready s = is_running (get_crt_thread s).status && not (is_kernel_main_thread s)

abbrev switched_out : Scheduler → Thread
switched_out s = record (get_crt_thread s) {
  status = if stays_ready s then task_ready else (get_crt_thread s).status;
  ticks = 0;
  need_reschedule = false;
}

-- `do_context_switch` behind the removal of `head`, with `rest` in the queue.
pub switch_to : Scheduler → ℕ → List ℕ → Scheduler
switch_to s head rest =
    let threads₁ = with_thread s.threads s.crt_thread_node (switched_out s) in
    let next_thread = record (threads₁ head) { status = task_running } in
    record s {
      threads = with_thread threads₁ head next_thread;
      crt_thread_node = head;
      ready_tasks = if stays_ready s then rest ++ (s.crt_thread_node ∷ []) else rest;
      main_thread_in_ready_queue =
          if head == s.main_thread_node then false else s.main_thread_in_ready_queue;
      tss_esp = (next_thread.kernel_stack + kernel_stack_size) % 2 ^ 32;
      page_dir =
          if (get_crt_thread s).process == next_thread.process
          then s.page_dir
          else process_switch s next_thread.process;
    }

-- The switch to the head of the queue. That of an empty queue is a null pointer, and taking its thread a fault.
pub switch_from : Scheduler → List ℕ → Option Scheduler
switch_from s [] = none
switch_from s (head ∷ rest) = some (switch_to s head rest)

pub do_context_switch : Scheduler → Option Scheduler
do_context_switch s = switch_from s s.ready_tasks

-- The flag in front of the test on `preempt_count` is already cleared.
schedule : Scheduler → Option Scheduler
schedule s =
    let s₁ = record s { interrupt_enabled = false } in
    let crt_thread = get_crt_thread s₁ in
    let need_context_switch =
      if ltb 0 (length s₁.ready_tasks) then crt_thread.need_reschedule else false in
    if ltb 0 crt_thread.preempt_count
    then some s₁
    else if need_context_switch
    then do_context_switch s₁
    else some (record s₁ { interrupt_enabled = true })

-- The thread that is woken or new, unless it is dead.
abbrev pub made_ready : Thread → Thread
made_ready thread = if is_dead thread.status then thread else record thread { status = task_ready }

pub add_thread_node_to_schedule : Scheduler → ℕ → Scheduler
add_thread_node_to_schedule s thread_node = record s {
  threads = with_thread s.threads thread_node (made_ready (s.threads thread_node));
  ready_tasks = s.ready_tasks ++ (thread_node ∷ []);
  interrupt_enabled = true;
}

-- `node` is the new node, of the thread `thread`.
add_thread_to_schedule : Scheduler → ℕ → Thread → Scheduler
add_thread_to_schedule s node thread =
    add_thread_node_to_schedule (record s { threads = with_thread s.threads node thread }) node

-- `linked_list_insert_to_head`: the node comes behind the head, and into an empty list as the only one.
abbrev pub insert_to_head : List ℕ → ℕ → List ℕ
insert_to_head [] thread_node = thread_node ∷ []
insert_to_head (head ∷ rest) thread_node = head ∷ thread_node ∷ rest

unfoldable pub add_thread_node_to_schedule_head : Scheduler → ℕ → Scheduler
add_thread_node_to_schedule_head s thread_node = record s {
  threads =
      with_thread s.threads thread_node (record (s.threads thread_node) { status = task_ready });
  ready_tasks = insert_to_head s.ready_tasks thread_node;
  interrupt_enabled = true;
}

pub schedule_thread_yield : Scheduler → Option Scheduler
schedule_thread_yield s =
    let s₁ = record s { interrupt_enabled = false } in
    let s₂ = record s₁ {
      ready_tasks = s₁.ready_tasks ++ (s₁.main_thread_node ∷ []);
      main_thread_in_ready_queue = true;
    } in
    if length s₁.ready_tasks == 0 then do_context_switch s₂ else do_context_switch s₁

pub schedule_mark_thread_block : Scheduler → Scheduler
schedule_mark_thread_block s = record s {
  threads =
      with_thread s.threads s.crt_thread_node (record (get_crt_thread s) { status = task_waiting });
}

-- `schedule_thread_exit` behind `remove_process_thread` and up to `add_dead_task`.
pub mark_thread_dead : Scheduler → Scheduler
mark_thread_dead s = record s {
  threads =
      with_thread s.threads s.crt_thread_node (record (get_crt_thread s) { status = task_dead });
}

-- The end of `schedule_thread_exit`, behind `add_dead_task`.
leave_dead_thread : Scheduler → Option Scheduler
leave_dead_thread s = do_context_switch (record s { interrupt_enabled = false })

unfoldable pub disable_preempt : Scheduler → Scheduler
disable_preempt s = record s {
  threads = with_thread s.threads s.crt_thread_node (record (get_crt_thread s) {
    preempt_count = ((get_crt_thread s).preempt_count + 1) % 2 ^ 32;
  });
}

unfoldable pub enable_preempt : Scheduler → Scheduler
enable_preempt s = record s {
  threads = with_thread s.threads s.crt_thread_node (record (get_crt_thread s) {
    preempt_count = ((get_crt_thread s).preempt_count + 2 ^ 32 - 1) % 2 ^ 32;
  });
}

-- The time slice of the current thread.
pub timer_callback : Scheduler → Scheduler
timer_callback s =
    let crt_thread = get_crt_thread s in
    let ticks = (crt_thread.ticks + 1) % 2 ^ 32 in
    record s {
      tick = (s.tick + 1) % 2 ^ 32;
      threads = with_thread s.threads s.crt_thread_node (record crt_thread {
        ticks = ticks;
        need_reschedule =
            if leb crt_thread.priority ticks then true else crt_thread.need_reschedule;
      });
    }
