-- ===== src/Task/Scheduler/Tests.antt =====
-- A queue of two threads behind the current one.
use luck_os.Common.{◌≡◌, some, ◌==◌, if◌then◌else◌, arith, refl, [], ◌∷◌, inl, ℕ_discrete, false}
use luck_os.Task.Scheduler.{
  Thread, Scheduler, TaskStatus, task_running, task_ready, do_context_switch, switch_to,
  switch_from, schedule_thread_yield, add_thread_node_to_schedule, add_thread_node_to_schedule_head,
}
use luck_os.Task.Scheduler.Fair.{Run, IsYielded, schedule_thread_yield-Run}
use luck_os.Task.Scheduler.Running.{
  IsScheduled, do_context_switch-IsScheduled, add_thread_node-IsScheduled,
}

abbrev some_thread : TaskStatus → Thread
some_thread status = record {
  kernel_stack = 4096;
  priority = 10;
  status = status;
  ticks = 0;
  process = 1;
  need_reschedule = false;
  preempt_count = 0;
}

abbrev two_ready : Scheduler
two_ready = record {
  threads = λ n. some_thread (if n == 1 then task_running else task_ready);
  crt_thread_node = 1;
  main_thread_node = 9;
  main_process = 1;
  ready_tasks = 2 ∷ 3 ∷ [];
  main_thread_in_ready_queue = false;
  interrupt_enabled = false;
  tss_esp = 0;
  page_dir = 1;
  tick = 0;
}

two_ready-IsScheduled : IsScheduled two_ready
two_ready-IsScheduled = record {
  running = λ n run. elim (ℕ_discrete n 1) [
    | yes e ↦ inl e
    | no ne ↦
        let test : (n == 1) ≡ false = ground (arith, ne) in
        let waits : task_ready ≡ task_running = rw test at run in absurd (cc waits)
  ];
  absent = (λ e. omega (arith, e), (λ e. omega (arith, e), tt));
  distinct = ((λ e. omega (arith, e), tt), (tt, tt));
}

-- A third thread is put behind the head of the queue, and two switches follow.
abbrev pushed : Scheduler
pushed = add_thread_node_to_schedule_head two_ready 5

schedule_thread_yield-Run_example :
    (s' : Scheduler) × (schedule_thread_yield two_ready ≡ some s')
    × Run two_ready 1 0 s'
    × IsYielded two_ready (2 ∷ 3 ∷ []) s'
schedule_thread_yield-Run_example = schedule_thread_yield-Run two_ready

two_ready-switch : do_context_switch two_ready ≡ some (switch_to two_ready 2 (3 ∷ []))
unfolding do_context_switch switch_from
two_ready-switch = refl

do_context_switch-IsScheduled_example : IsScheduled (switch_to two_ready 2 (3 ∷ []))
do_context_switch-IsScheduled_example =
    do_context_switch-IsScheduled two_ready (switch_to two_ready 2 (3 ∷ [])) two_ready-IsScheduled
      two_ready-switch

add_thread_node-IsScheduled_example : IsScheduled (add_thread_node_to_schedule two_ready 5)
add_thread_node-IsScheduled_example =
    add_thread_node-IsScheduled two_ready 5 two_ready-IsScheduled (λ e. omega (arith, e))
      (λ e. omega (arith, e), (λ e. omega (arith, e), tt))
