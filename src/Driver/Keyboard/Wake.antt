-- ===== src/Driver/Keyboard/Wake.antt =====
-- The interrupt handler stores its code and wakes the waiting readers.
use luck_os.Common.{ℕ, ◌≡◌, refl, sym, ap, ◌∙◌, some, List, [], ◌∷◌, ◌++◌, ◌>>=◌, true, arith, ◌==◌}
use mathlib.Core.List.{append_assoc, append-nil}
use luck_os.Common.Int.{ℤ}
use luck_os.Task.Scheduler.{
  Scheduler, get_crt_thread, add_thread_node_to_schedule_head, insert_to_head, disable_preempt,
  enable_preempt,
}
use luck_os.Sync.Spinlock.{spinlock_lock, spinlock_unlock}
use luck_os.Driver.Keyboard.Fifo.{IsValid, Enqueues, enqueue-Enqueues}
use luck_os.Driver.Keyboard.Reader.{Keyboard, wake_all, mark_reschedule, keyboard_interrupt_handler}

abbrev last_first : List ℕ → List ℕ
last_first [] = []
last_first (node ∷ nodes) = last_first nodes ++ (node ∷ [])

-- The nodes behind the head of the queue, the last one first; the first node is the head of an empty queue.
abbrev behind_head : List ℕ → List ℕ → List ℕ
behind_head [] [] = []
behind_head [] (node ∷ nodes) = node ∷ last_first nodes
behind_head (head ∷ rest) nodes = head ∷ (last_first nodes ++ rest)

wake_all-cons :
    (nodes : List ℕ) (s : Scheduler) (head : ℕ) (rest : List ℕ)
    → s.ready_tasks ≡ head ∷ rest
    → (wake_all nodes s).ready_tasks ≡ head ∷ (last_first nodes ++ rest)
unfolding wake_all add_thread_node_to_schedule_head
wake_all-cons [] s head rest queue = queue
wake_all-cons (node ∷ nodes) s head rest queue =
    wake_all-cons nodes (add_thread_node_to_schedule_head s node) head (node ∷ rest)
      (ap (λ (t : List ℕ). insert_to_head t node) queue)
    ∙ ap (λ (t : List ℕ). head ∷ t) (sym (append_assoc (last_first nodes) (node ∷ []) rest))

wake_all-nil :
    (nodes : List ℕ) (s : Scheduler)
    → s.ready_tasks ≡ []
    → (wake_all nodes s).ready_tasks ≡ behind_head [] nodes
unfolding wake_all add_thread_node_to_schedule_head
wake_all-nil [] s queue = queue
wake_all-nil (node ∷ nodes) s queue =
    wake_all-cons nodes (add_thread_node_to_schedule_head s node) node []
      (ap (λ (t : List ℕ). insert_to_head t node) queue)
    ∙ ap (λ (t : List ℕ). node ∷ t) (append-nil (last_first nodes))

wake_all-behind_head :
    (nodes : List ℕ) (s : Scheduler) (queue : List ℕ)
    → s.ready_tasks ≡ queue
    → (wake_all nodes s).ready_tasks ≡ behind_head queue nodes
wake_all-behind_head nodes s [] e = wake_all-nil nodes s e
wake_all-behind_head nodes s (head ∷ rest) e = wake_all-cons nodes s head rest e

marked-reschedule : (s : Scheduler) → (get_crt_thread (mark_reschedule s)).need_reschedule ≡ true
marked-reschedule s =
    let n = s.crt_thread_node in let test : (n == n) ≡ true = ground arith in rw test refl

-- What the handler leaves.
pub record IsHandled (k : Keyboard) (s : Scheduler) (scancode : ℕ) (k' : Keyboard) (s' : Scheduler)
    : Type 0 where
  pub stored : (result : ℤ) × Enqueues k.queue scancode (result, k'.queue)
  pub nobody : k'.waiting_tasks ≡ []
  pub woken : s'.ready_tasks ≡ behind_head s.ready_tasks k.waiting_tasks
  pub preempted : (get_crt_thread s').need_reschedule ≡ true

-- With a valid buffer the handler stores the code behind the others, unless the buffer is full, and moves all the waiting
-- readers behind the head of the ready queue, the last one first, where the first one becomes the head of an empty queue;
-- the current thread is to be preempted.
pub keyboard_interrupt_handler-IsHandled :
    (k : Keyboard) (s : Scheduler) (scancode : ℕ)
    → IsValid k.queue
    → (k' : Keyboard) × (s' : Scheduler) × (keyboard_interrupt_handler k s scancode ≡ some (k', s'))
      × IsHandled k s scancode k' s'
unfolding keyboard_interrupt_handler spinlock_lock spinlock_unlock disable_preempt enable_preempt
keyboard_interrupt_handler-IsHandled k s scancode valid =
    let ((result, queue'), run, enqueued) = enqueue-Enqueues k.queue scancode valid in
    let (lock₁, s₁) = spinlock_lock k.keyboard_lock s in
    let (lock₂, s₂) = spinlock_unlock lock₁ s₁ in
    (
      record { queue = queue'; waiting_tasks = []; keyboard_lock = lock₂ },
      mark_reschedule (wake_all k.waiting_tasks s₂),
      rw (run, ◌>>=◌) refl,
      record {
        stored = (result, enqueued);
        nobody = refl;
        woken = wake_all-behind_head k.waiting_tasks s₂ s₂.ready_tasks refl;
        preempted = marked-reschedule (wake_all k.waiting_tasks s₂);
      },
    )
