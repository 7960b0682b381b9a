-- ===== src/Driver/Keyboard/Reader.antt =====
-- The reader and the interrupt handler of keyboard.c, over the scheduler and the spin lock. The decoder of scan codes in
-- src/driver/keyhelp.c is a parameter: its state, `process_scancode`, and the macros that read the result.
use luck_os.Common.{
  ℕ, zero, suc, Bool, true, Option, none, some, List, [], ◌∷◌, ◌++◌, ◌==◌, ◌&&◌, if◌then◌else◌,
  ◌>>=◌,
}
use luck_os.Common.Int.{ℤ, pos, negsuc}
use luck_os.Task.Scheduler.{
  Scheduler, get_crt_thread, with_thread, add_thread_node_to_schedule_head,
  schedule_mark_thread_block, schedule_thread_yield,
}
use luck_os.Sync.Spinlock.{
  Spinlock, spinlock_init, spinlock_lock, spinlock_unlock, spinlock_lock_irqsave,
  spinlock_unlock_irqrestore,
}
use luck_os.Driver.Keyboard.{BufferQueue, enqueue, dequeue, init_queue}

-- The globals of keyboard.c.
pub record Keyboard : Type 0 where
  pub queue : BufferQueue
  pub waiting_tasks : List ℕ
  pub keyboard_lock : Spinlock

init_keyboard : Keyboard
init_keyboard = record { queue = init_queue; waiting_tasks = []; keyboard_lock = spinlock_init }

-- The waiting threads go behind the head of the ready queue, one after the other.
unfoldable pub wake_all : List ℕ → Scheduler → Scheduler
wake_all [] s = s
wake_all (node ∷ nodes) s = wake_all nodes (add_thread_node_to_schedule_head s node)

-- The last step of the handler.
abbrev pub mark_reschedule : Scheduler → Scheduler
mark_reschedule s = record s {
  threads =
      with_thread s.threads s.crt_thread_node
        (record (get_crt_thread s) { need_reschedule = true });
}

-- `scancode` is what the port gives.
unfoldable pub keyboard_interrupt_handler : Keyboard → Scheduler → ℕ → Option (Keyboard × Scheduler)
keyboard_interrupt_handler k s scancode =
    let (lock₁, s₁) = spinlock_lock k.keyboard_lock s in
    enqueue k.queue scancode >>= λ (result, queue').
    (let (lock₂, s₂) = spinlock_unlock lock₁ s₁ in
      some (
        record { queue = queue'; waiting_tasks = []; keyboard_lock = lock₂ },
        mark_reschedule (wake_all k.waiting_tasks s₂),
      ))

-- A character ends the loop.
done_with :
    {Decoder : Type 0}
    → ℤ
    → Decoder
    → Keyboard
    → Scheduler
    → Option (ℤ × Decoder × Keyboard × Scheduler)
    → Option (ℤ × Decoder × Keyboard × Scheduler)
done_with (pos c) decoder k s later = some (pos c, decoder, k, s)
done_with (negsuc c) decoder k s later = later

module _ {Decoder : Type 0} (process_scancode : Decoder → ℕ → ℕ × Decoder)
    (kh_hasdata kh_ismake : ℕ → Bool) (kh_getchar : ℕ → ℕ) where
  -- The loop of `read_keyboard_char_impl`.
  unfoldable pub read_from : ℕ → Decoder → ℕ → BufferQueue → Option (ℤ × Decoder × BufferQueue)
  read_from zero decoder augchar queue = none
  read_from (suc fuel) decoder augchar queue =
      let next = dequeue queue >>= λ (code, queue').
      read_from fuel (process_scancode decoder code).1 (process_scancode decoder code).0 queue' in
      if kh_hasdata augchar && kh_ismake augchar
      then some (pos (kh_getchar augchar), decoder, queue)
      else if queue.size == 0
      then some (negsuc 0, decoder, queue)
      else next

  unfoldable pub read_keyboard_char_impl :
      ℕ → Decoder → BufferQueue → Option (ℤ × Decoder × BufferQueue)
  read_keyboard_char_impl fuel decoder queue =
      if queue.size == 0
      then some (negsuc 0, decoder, queue)
      else dequeue queue >>= λ (code, queue').
          read_from fuel (process_scancode decoder code).1 (process_scancode decoder code).0 queue'

  -- The result of a round: a character, or the end of the round where other threads may run.
  pub finish_round :
      Keyboard → Decoder → Scheduler → BufferQueue → ℤ → Option (ℤ × Decoder × Keyboard × Scheduler)
  finish_round k decoder s queue' (pos c) =
      let (lock', s') = spinlock_unlock_irqrestore k.keyboard_lock s in
      some (pos c, decoder, record k { queue = queue'; keyboard_lock = lock' }, s')
  finish_round k decoder s queue' (negsuc c) =
      let (lock', s') = spinlock_unlock_irqrestore k.keyboard_lock (schedule_mark_thread_block s) in
      let k' = record k {
        queue = queue';
        waiting_tasks = k.waiting_tasks ++ (s.crt_thread_node ∷ []);
        keyboard_lock = lock';
      } in
      schedule_thread_yield s' >>= λ s''. some (negsuc c, decoder, k', s'')

  -- One round of the loop of `read_keyboard_char`, from its `spinlock_lock_irqsave` on.
  pub read_round : ℕ → Decoder → Keyboard → Scheduler → Option (ℤ × Decoder × Keyboard × Scheduler)
  read_round fuel decoder k s =
      let (lock₁, s₁) = spinlock_lock_irqsave k.keyboard_lock s in
      read_keyboard_char_impl fuel decoder k.queue >>= λ (c, decoder', queue').
      finish_round (record k { keyboard_lock = lock₁ }) decoder' s₁ queue' c

  -- `woken` lists the states in which the thread runs again after its rounds of waiting.
  pub read_keyboard_char :
      ℕ
      → List (Decoder × Keyboard × Scheduler)
      → Decoder
      → Keyboard
      → Scheduler
      → Option (ℤ × Decoder × Keyboard × Scheduler)
  read_keyboard_char fuel [] decoder k s =
      read_round fuel decoder k s >>= λ (c, decoder', k', s'). done_with c decoder' k' s' none
  read_keyboard_char fuel ((decoder₁, k₁, s₁) ∷ woken) decoder k s =
      let later = read_keyboard_char fuel woken decoder₁ k₁ s₁ in
      read_round fuel decoder k s >>= λ (c, decoder', k', s'). done_with c decoder' k' s' later
