-- ===== src/Task/Scheduler/Fair.antt =====
-- The ready queue is fair: a thread in it waits for one switch for each thread in front of it, and for each thread that is
-- put behind the head of the queue while it waits.
use luck_os.Common.{
  ℕ, suc, ◌+◌, ◌≤◌, ◌≡◌, refl, sym, ap, ◌∙◌, arith, List, [], ◌∷◌, ◌++◌, ◌==◌, Bool, true, false,
  if◌then◌else◌, ◌⊎◌, inl, inr, some, length, get_elem?, subst,
}
use luck_os.Task.Scheduler.{
  Scheduler, do_context_switch, switch_to, switch_from, add_thread_node_to_schedule,
  add_thread_node_to_schedule_head, schedule_thread_yield, schedule_mark_thread_block,
  mark_thread_dead, disable_preempt, enable_preempt, timer_callback, stays_ready, task_running,
}

-- One step of the kernel: the number of its switches, and of the threads that it puts behind the head of the queue.
pub data Step : Scheduler → ℕ → ℕ → Scheduler → Type 0 where
  switching : {s s' : Scheduler} → do_context_switch s ≡ some s' → Step s 1 0 s'
  waking : {s : Scheduler} (node : ℕ) → Step s 0 0 (add_thread_node_to_schedule s node)
  pushing : {s : Scheduler} (node : ℕ) → Step s 0 1 (add_thread_node_to_schedule_head s node)
  blocking : {s : Scheduler} → Step s 0 0 (schedule_mark_thread_block s)
  dying : {s : Scheduler} → Step s 0 0 (mark_thread_dead s)
  disabling : {s : Scheduler} → Step s 0 0 (disable_preempt s)
  enabling : {s : Scheduler} → Step s 0 0 (enable_preempt s)
  masking : {s : Scheduler} (flag : Bool) → Step s 0 0 (record s { interrupt_enabled = flag })
  idling :
      {s : Scheduler}
      → Step s 0 0 (record s {
        ready_tasks = s.ready_tasks ++ (s.main_thread_node ∷ []);
        main_thread_in_ready_queue = true;
      })
  ticking : {s : Scheduler} → Step s 0 0 (timer_callback s)

-- A run of steps: the numbers of its switches and of the threads put behind the head.
pub data Run : Scheduler → ℕ → ℕ → Scheduler → Type 0 where
  done : {s : Scheduler} → Run s 0 0 s
  step :
      {s s₁ s' : Scheduler} (switches pushes switches' pushes' : ℕ)
      → Step s switches pushes s₁
      → Run s₁ switches' pushes' s'
      → Run s (switches + switches') (pushes + pushes') s'

-- The thread is behind `place` others in the queue.
abbrev IsBehind : Scheduler → ℕ → ℕ → Type 0
IsBehind s node place = get_elem? s.ready_tasks place ≡ some node

-- The switch from `s` is not refused, and goes to the thread.
pub record GoesTo (s : Scheduler) (node : ℕ) (s' : Scheduler) : Type 0 where
  pub switched : do_context_switch s ≡ some s'
  pub current : s'.crt_thread_node ≡ node
  pub runs : (s'.threads node).status ≡ task_running

-- Between `s` and `s'` a switch goes to the thread.
pub record HasRun (s : Scheduler) (node : ℕ) (s' : Scheduler) : Type 0 where
  pub switches : ℕ
  pub pushes : ℕ
  pub before : Scheduler
  pub first_run : Run s switches pushes before
  pub after : Scheduler
  pub goes : GoesTo before node after
  pub switches_after : ℕ
  pub pushes_after : ℕ
  pub last_run : Run after switches_after pushes_after s'

-- The thread still waits: with each of the `switches` it has come up by one place, and with each of the `pushes` it has
-- gone back by one at most.
record Waits (node place switches pushes : ℕ) (s' : Scheduler) : Type 0 where
  place' : ℕ
  behind : IsBehind s' node place'
  bound : place' + switches ≤ place + pushes

List-cases : (xs : List ℕ) → (xs ≡ []) ⊎ ((x : ℕ) × (rest : List ℕ) × (xs ≡ x ∷ rest))
List-cases [] = inl refl
List-cases (x ∷ xs) = inr (x, xs, refl)

switch_from-cons :
    (s : Scheduler) (queue : List ℕ) (head : ℕ) (rest : List ℕ)
    → queue ≡ head ∷ rest
    → switch_from s queue ≡ some (switch_to s head rest)
unfolding switch_from
switch_from-cons s queue head rest e = rw e refl

-- The queue behind a switch: `rest`, and the current thread behind it if it stays ready.
abbrev queue_behind : Scheduler → List ℕ → List ℕ
queue_behind s rest = if stays_ready s then rest ++ (s.crt_thread_node ∷ []) else rest

-- Where the thread yields to: the main thread with an empty queue, and the head of the queue otherwise.
abbrev pub IsYielded : Scheduler → List ℕ → Scheduler → Type 0
IsYielded s [] s' = (s'.crt_thread_node ≡ s.main_thread_node) × (s'.ready_tasks ≡ queue_behind s [])
IsYielded s (head ∷ rest) s' = (s'.crt_thread_node ≡ head) × (s'.ready_tasks ≡ queue_behind s rest)

-- A switch with the interrupts disabled before it.
masked_switch-Run :
    (s s' : Scheduler)
    → do_context_switch (record s { interrupt_enabled = false }) ≡ some s'
    → Run s 1 0 s'
masked_switch-Run s s' run = step 0 0 1 0 (masking false) (step 1 0 0 0 (switching run) done)

yield_ready :
    (s : Scheduler) (head : ℕ) (rest : List ℕ)
    → s.ready_tasks ≡ head ∷ rest
    → (s' : Scheduler) × (schedule_thread_yield s ≡ some s')
      × Run s 1 0 s'
      × IsYielded s s.ready_tasks s'
unfolding schedule_thread_yield do_context_switch switch_to
yield_ready s head rest queue =
    let s₁ = record s { interrupt_enabled = false } in
    let test : (length s.ready_tasks == 0) ≡ false =
      let size : length s.ready_tasks ≡ suc (length rest) = ap (length {A = ℕ}) queue in
      ground (arith, size) in
    let run = switch_from-cons s₁ s.ready_tasks head rest queue in
    (
      switch_to s₁ head rest,
      ap
            (λ (t : Bool).
              if t
              then do_context_switch (record s₁ {
                ready_tasks = s₁.ready_tasks ++ (s₁.main_thread_node ∷ []);
                main_thread_in_ready_queue = true;
              })
              else do_context_switch s₁)
            test
          ∙ run,
      masked_switch-Run s (switch_to s₁ head rest) run,
      subst (λ (t : List ℕ). IsYielded s t (switch_to s₁ head rest)) (sym queue) (refl, refl),
    )

yield_idle :
    (s : Scheduler)
    → s.ready_tasks ≡ []
    → (s' : Scheduler) × (schedule_thread_yield s ≡ some s')
      × Run s 1 0 s'
      × IsYielded s s.ready_tasks s'
unfolding schedule_thread_yield do_context_switch switch_to
yield_idle s empty =
    let s₁ = record s { interrupt_enabled = false } in
    let s₂ = record s₁ {
      ready_tasks = s₁.ready_tasks ++ (s₁.main_thread_node ∷ []);
      main_thread_in_ready_queue = true;
    } in
    let test : (length s.ready_tasks == 0) ≡ true = ap (λ (t : List ℕ). length t == 0) empty in
    let queue : s.ready_tasks ++ (s.main_thread_node ∷ []) ≡ s.main_thread_node ∷ [] =
      ap (λ (t : List ℕ). t ++ (s.main_thread_node ∷ [])) empty in
    let run = switch_from-cons s₂ s₂.ready_tasks s.main_thread_node [] queue in
    (
      switch_to s₂ s.main_thread_node [],
      ap (λ (t : Bool). if t then do_context_switch s₂ else do_context_switch s₁) test ∙ run,
      step 0 0 1 0 (masking false) (step 0 0 1 0 idling (step 1 0 0 0 (switching run) done)),
      subst (λ (t : List ℕ). IsYielded s t (switch_to s₂ s.main_thread_node [])) (sym empty)
          (refl, refl),
    )

-- `schedule_thread_yield` is never refused. With an empty queue it goes to the main thread, and otherwise to the head of the
-- queue; behind it stay the rest of the queue and then the current thread, if that is running and not the main thread. It is
-- a run of the steps of `Step` with one switch.
pub schedule_thread_yield-Run :
    (s : Scheduler)
    → (s' : Scheduler) × (schedule_thread_yield s ≡ some s')
      × Run s 1 0 s'
      × IsYielded s s.ready_tasks s'
unfolding schedule_thread_yield do_context_switch
schedule_thread_yield-Run s = elim (List-cases s.ready_tasks) [
  | inl empty ↦ yield_idle s empty
  | inr (head, rest, queue) ↦ yield_ready s head rest queue
]
