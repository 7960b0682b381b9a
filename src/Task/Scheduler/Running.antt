-- ===== src/Task/Scheduler/Running.antt =====
-- One thread runs: the current one, which is not in the queue.
use luck_os.Common.{
  ℕ, ◌≡◌, ◌≢◌, refl, sym, ap, ◌∙◌, arith, List, [], ◌∷◌, ◌++◌, ◌==◌, true, false, Bool-cases, not,
  ◌&&◌, ◌⊎◌, inl, inr, ℕ_discrete, some, subst,
}
use luck_os.Task.Scheduler.{
  Scheduler, Thread, TaskStatus, task_running, task_ready, do_context_switch, switch_to,
  switch_from, add_thread_node_to_schedule, stays_ready, get_crt_thread, is_running, is_dead,
  made_ready,
}

abbrev IsAbsent : ℕ → List ℕ → Type 0
IsAbsent n [] = Unit
IsAbsent n (x ∷ xs) = (n ≢ x) × (IsAbsent n xs)

abbrev pub AreDistinct : List ℕ → Type 0
AreDistinct [] = Unit
AreDistinct (x ∷ xs) = (IsAbsent x xs) × (AreDistinct xs)

IsAbsent-snoc : (n x : ℕ) (xs : List ℕ) → IsAbsent n xs → n ≢ x → IsAbsent n (xs ++ (x ∷ []))
IsAbsent-snoc n x [] h ne = (ne, tt)
IsAbsent-snoc n x (y ∷ xs) h ne = (h.0, IsAbsent-snoc n x xs h.1 ne)

AreDistinct-snoc :
    (x : ℕ) (xs : List ℕ) → AreDistinct xs → IsAbsent x xs → AreDistinct (xs ++ (x ∷ []))
AreDistinct-snoc x [] h new = (tt, tt)
AreDistinct-snoc x (y ∷ xs) h new =
    (IsAbsent-snoc y x xs h.0 (λ e. new.0 (sym e)), AreDistinct-snoc x xs h.1 new.1)

-- No thread but the current one and the main thread is marked as running; the queue holds each thread once, and not the current
-- one.
pub record IsScheduled (s : Scheduler) : Type 0 where
  pub running :
      (n : ℕ)
      → (s.threads n).status ≡ task_running
      → (n ≡ s.crt_thread_node) ⊎ (n ≡ s.main_thread_node)
  pub absent : IsAbsent s.crt_thread_node s.ready_tasks
  pub distinct : AreDistinct s.ready_tasks

status_out :
    (s : Scheduler)
    → stays_ready s ≡ false
    → (get_crt_thread s).status ≡ task_running
    → s.crt_thread_node ≡ s.main_thread_node
status_out s leaves running =
    let open' : not (s.crt_thread_node == s.main_thread_node) ≡ false =
      ap (λ (t : TaskStatus). is_running t && not (s.crt_thread_node == s.main_thread_node))
        (sym running)
      ∙ leaves in
    ground (arith, open')

ready_ne : task_ready ≢ task_running
ready_ne e = cc e

-- Who runs behind a switch.
switch_to-running :
    (s : Scheduler) (head : ℕ) (rest : List ℕ)
    → IsScheduled s
    → (n : ℕ) → ((switch_to s head rest).threads n).status ≡ task_running
    → (n ≡ head) ⊎ (n ≡ s.main_thread_node)
unfolding switch_to
switch_to-running s head rest valid n run = elim (ℕ_discrete n head) [
  | yes e ↦ inl e
  | no ne ↦
      let test : (n == head) ≡ false = ground (arith, ne) in
      elim (ℕ_discrete n s.crt_thread_node) [
        | yes e ↦
            let test' : (n == s.crt_thread_node) ≡ true = ground (arith, e) in
            elim (Bool-cases (stays_ready s)) [
              | inl stays ↦ absurd (ready_ne (rw (test, test', stays) at run))
              | inr leaves ↦ inr (e ∙ status_out s leaves (rw (test, test', leaves) at run))
            ]
        | no ne' ↦
            let test' : (n == s.crt_thread_node) ≡ false = ground (arith, ne') in
            elim (valid.running n (rw (test, test') at run)) [
              | inl e ↦ absurd (ne' e)
              | inr e ↦ inr e
            ]
      ]
]

switch_to-queue :
    (s : Scheduler) (head : ℕ) (rest : List ℕ)
    → IsScheduled s
    → s.ready_tasks ≡ head ∷ rest
    → (IsAbsent head (switch_to s head rest).ready_tasks)
      × (AreDistinct (switch_to s head rest).ready_tasks)
unfolding switch_to
switch_to-queue s head rest valid queue =
    let absent : IsAbsent s.crt_thread_node (head ∷ rest) =
      subst (λ (t : List ℕ). IsAbsent s.crt_thread_node t) queue valid.absent in
    let distinct : AreDistinct (head ∷ rest) =
      subst (λ (t : List ℕ). AreDistinct t) queue valid.distinct in
    elim (Bool-cases (stays_ready s)) [
      | inl stays ↦ rw stays (
        IsAbsent-snoc head s.crt_thread_node rest distinct.0 (λ e. absent.0 (sym e)),
        AreDistinct-snoc s.crt_thread_node rest distinct.1 absent.1,
      )
      | inr leaves ↦ rw leaves distinct
    ]

switched-IsScheduled :
    (s : Scheduler) (head : ℕ) (rest : List ℕ)
    → IsScheduled s
    → IsAbsent head (switch_to s head rest).ready_tasks
    → AreDistinct (switch_to s head rest).ready_tasks
    → IsScheduled (switch_to s head rest)
unfolding switch_to
switched-IsScheduled s head rest valid absent distinct = record {
  running = switch_to-running s head rest valid;
  absent = absent;
  distinct = distinct;
}

switch_from-IsScheduled :
    (s s' : Scheduler) (queue : List ℕ)
    → IsScheduled s
    → s.ready_tasks ≡ queue
    → switch_from s queue ≡ some s'
    → IsScheduled s'
unfolding switch_from
switch_from-IsScheduled s s' [] valid e run = absurd (cc run)
switch_from-IsScheduled s s' (head ∷ rest) valid e run =
    let same : switch_to s head rest ≡ s' = cc run in
    let (absent, distinct) = switch_to-queue s head rest valid e in
    subst (λ (t : Scheduler). IsScheduled t) same
      (switched-IsScheduled s head rest valid absent distinct)

-- A switch keeps: no thread but the current one and the main thread is marked as running, and the queue holds each thread once,
-- and not the current one.
pub do_context_switch-IsScheduled :
    (s s' : Scheduler) → IsScheduled s → do_context_switch s ≡ some s' → IsScheduled s'
unfolding do_context_switch
do_context_switch-IsScheduled s s' valid run =
    switch_from-IsScheduled s s' s.ready_tasks valid refl run

made_ready-waits : (t : Thread) → (made_ready t).status ≢ task_running
made_ready-waits t run = elim (Bool-cases (is_dead t.status)) [
  | inl dead ↦
      let same : t.status ≡ task_running = rw dead at run in
      let alive : is_dead t.status ≡ false = ap (λ (u : TaskStatus). is_dead u) same in
      absurd (cc (sym dead ∙ alive))
  | inr alive ↦ ready_ne (rw alive at run)
]

-- Adding a thread that is neither current nor in the queue keeps the same.
pub add_thread_node-IsScheduled :
    (s : Scheduler) (node : ℕ)
    → IsScheduled s
    → node ≢ s.crt_thread_node
    → IsAbsent node s.ready_tasks
    → IsScheduled (add_thread_node_to_schedule s node)
unfolding add_thread_node_to_schedule
add_thread_node-IsScheduled s node valid other new = record {
  running = λ n run. elim (ℕ_discrete n node) [
    | yes e ↦
        let test : (n == node) ≡ true = ground (arith, e) in
        absurd (made_ready-waits (s.threads node) (rw test at run))
    | no ne ↦
        let test : (n == node) ≡ false = ground (arith, ne) in valid.running n (rw test at run)
  ];
  absent = IsAbsent-snoc s.crt_thread_node node s.ready_tasks valid.absent (λ e. other (sym e));
  distinct = AreDistinct-snoc node s.ready_tasks valid.distinct new;
}
