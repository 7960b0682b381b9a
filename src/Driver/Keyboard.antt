-- ===== src/Driver/Keyboard.antt =====
-- src/driver/keyboard.c: the ring buffer between the interrupt handler and the readers. An access outside of the buffer is
-- a fault, `none`.
pub mod Fifo
pub mod Reader
pub mod Read
pub mod Wake
mod Tests
use luck_os.Common.{
  ℕ, ◌+◌, ◌-◌, ◌%◌, Option, none, some, List, ◌==◌, if◌then◌else◌, ◌>>=◌, get_elem?, set?,
  replicate,
}
use luck_os.Common.Int.{ℤ, pos, negsuc}

abbrev keyboard_buf_size : ℕ
keyboard_buf_size = 1024

pub record BufferQueue : Type 0 where
  pub buffer : List ℕ
  pub head : ℕ
  pub tail : ℕ
  pub size : ℕ

pub next_index : ℕ → ℕ
next_index index = (index + 1) % keyboard_buf_size

pub enqueue : BufferQueue → ℕ → Option (ℤ × BufferQueue)
enqueue queue scan_code =
    if queue.size == keyboard_buf_size
    then some (negsuc 0, queue)
    else set? queue.buffer queue.tail scan_code >>= λ buffer. some (
      pos 0,
      record queue { buffer = buffer; tail = next_index queue.tail; size = queue.size + 1 },
    )

-- The callers see to it that the queue is not empty.
pub dequeue : BufferQueue → Option (ℕ × BufferQueue)
dequeue queue = do
  code ← get_elem? queue.buffer queue.head
  some (code, record queue { head = next_index queue.head; size = queue.size - 1 })

-- The queue as `init_keyboard` leaves it.
pub init_queue : BufferQueue
init_queue = record { buffer = replicate keyboard_buf_size 0; head = 0; tail = 0; size = 0 }
