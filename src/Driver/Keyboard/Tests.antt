-- ===== src/Driver/Keyboard/Tests.antt =====
-- The theorems at a queue that runs over the end of the buffer.
use luck_os.Common.{
  ℕ, ◌≡◌, refl, some, [], ◌∷◌, Bool, true, false, not, ◌==◌, arith, replicate, length-replicate,
}
use luck_os.Common.Int.{ℤ}
use luck_os.Driver.Keyboard.{BufferQueue, enqueue}
use luck_os.Driver.Keyboard.Fifo.{codes, IsValid, Enqueues, enqueue-Enqueues}
use luck_os.Driver.Keyboard.Reader.{Keyboard, read_keyboard_char_impl, keyboard_interrupt_handler}
use luck_os.Driver.Keyboard.Read.{decode_first, read_keyboard_char_impl-decode_first}
use luck_os.Driver.Keyboard.Wake.{IsHandled, keyboard_interrupt_handler-IsHandled}
use luck_os.Task.Scheduler.{Scheduler, task_waiting}

abbrev wrapped : BufferQueue
wrapped = record { buffer = replicate 1024 7; head = 1022; tail = 1; size = 3 }

wrapped-IsValid : IsValid wrapped
wrapped-IsValid = record {
  places = length-replicate {A = ℕ} 1024 7;
  head = omega arith;
  tail = refl;
  size = omega arith;
}

enqueue-Enqueues_example :
    (out : ℤ × BufferQueue) × (enqueue wrapped 30 ≡ some out) × Enqueues wrapped 30 out
enqueue-Enqueues_example = enqueue-Enqueues wrapped 30 wrapped-IsValid

-- A decoder with no state, for which each code but 7 is a key that is pressed.
abbrev plain_decoder : ℕ → ℕ → ℕ × ℕ
plain_decoder decoder code = (code, decoder)

abbrev not_seven : ℕ → Bool
not_seven augchar = not (augchar == 7)

abbrev always : ℕ → Bool
always augchar = true

abbrev same_char : ℕ → ℕ
same_char augchar = augchar

read_keyboard_char_impl-decode_first_example :
    (result : ℤ) × (decoder' : ℕ) × (queue' : BufferQueue) × (read_keyboard_char_impl plain_decoder
        not_seven always same_char 4 0 wrapped
      ≡ some (result, decoder', queue'))
    × IsValid queue'
    × (decode_first plain_decoder not_seven always same_char 0 (codes wrapped)
        ≡ (result, decoder', codes queue'))
read_keyboard_char_impl-decode_first_example =
    read_keyboard_char_impl-decode_first plain_decoder not_seven always same_char 4 0 wrapped
      wrapped-IsValid (omega arith)

abbrev waiting_keyboard : Keyboard
waiting_keyboard = record {
  queue = wrapped;
  waiting_tasks = 4 ∷ 5 ∷ [];
  keyboard_lock = record { hold = 0; interrupt_mask = 0 };
}

abbrev idle : Scheduler
idle = record {
  threads = λ n. record {
    kernel_stack = 4096;
    priority = 10;
    status = task_waiting;
    ticks = 0;
    process = 1;
    need_reschedule = false;
    preempt_count = 0;
  };
  crt_thread_node = 1;
  main_thread_node = 1;
  main_process = 1;
  ready_tasks = [];
  main_thread_in_ready_queue = false;
  interrupt_enabled = true;
  tss_esp = 0;
  page_dir = 1;
  tick = 0;
}

keyboard_interrupt_handler-IsHandled_example :
    (k' : Keyboard) × (s' : Scheduler) × (keyboard_interrupt_handler waiting_keyboard idle 30
      ≡ some (k', s'))
    × IsHandled waiting_keyboard idle 30 k' s'
keyboard_interrupt_handler-IsHandled_example =
    keyboard_interrupt_handler-IsHandled waiting_keyboard idle 30 wrapped-IsValid
