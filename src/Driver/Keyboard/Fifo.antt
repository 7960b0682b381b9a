-- ===== src/Driver/Keyboard/Fifo.antt =====
-- The ring buffer of keyboard.c as a bounded first-in first-out queue.
use luck_os.Common.{
  ℕ, zero, suc, ◌+◌, ◌-◌, ◌%◌, ◌≤◌, ◌<◌, ◌≡◌, refl, sym, ap, ◌∙◌, true, false, some, List, [], ◌∷◌,
  ◌++◌, arith, ◌==◌, ◌>>=◌, length, get_or, set, set?-set, get_elem?-get_or, get_or-set, length-set,
  length-replicate, ◌⊎◌, inl, inr, ℕ_discrete,
}
use luck_os.Common.Int.{ℤ, pos, negsuc}
use luck_os.Driver.Keyboard.{BufferQueue, next_index, enqueue, dequeue, init_queue}

-- The `n` codes of the ring from place `h` on.
ring : List ℕ → ℕ → ℕ → List ℕ
ring buffer h zero = []
ring buffer h (suc n) = get_or buffer (h % 1024) 0 ∷ ring buffer (h + 1) n

-- The codes in the queue, the oldest first.
pub codes : BufferQueue → List ℕ
codes queue = ring queue.buffer queue.head queue.size

pub record IsValid (queue : BufferQueue) : Type 0 where
  pub places : length queue.buffer ≡ 1024
  pub head : queue.head < 1024
  pub tail : queue.tail ≡ (queue.head + queue.size) % 1024
  pub size : queue.size ≤ 1024

ring-last :
    (buffer : List ℕ) (h n : ℕ)
    → ring buffer h (suc n) ≡ ring buffer h n ++ (get_or buffer ((h + n) % 1024) 0 ∷ [])
unfolding ring
ring-last buffer h zero = let e : h + 0 ≡ h = omega arith in rw e refl
ring-last buffer h (suc n) =
    let e : h + 1 + n ≡ h + suc n = omega arith in
    ap (λ (t : List ℕ). get_or buffer (h % 1024) 0 ∷ t)
      (ring-last buffer (h + 1) n
        ∙ ap (λ (t : ℕ). ring buffer (h + 1) n ++ (get_or buffer (t % 1024) 0 ∷ [])) e)

ring-wrap :
    (buffer : List ℕ) (h h' n : ℕ) → h % 1024 ≡ h' % 1024 → ring buffer h n ≡ ring buffer h' n
unfolding ring
ring-wrap buffer h h' zero e = refl
ring-wrap buffer h h' (suc n) e =
    ap (λ (t : ℕ). get_or buffer t 0 ∷ ring buffer (h + 1) n) e
    ∙ ap (λ (t : List ℕ). get_or buffer (h' % 1024) 0 ∷ t)
        (ring-wrap buffer (h + 1) (h' + 1) n (omega (arith, e)))

length-ring : (buffer : List ℕ) (h n : ℕ) → length (ring buffer h n) ≡ n
unfolding ring
length-ring buffer h zero = refl
length-ring buffer h (suc n) = ap (λ (t : ℕ). suc t) (length-ring buffer (h + 1) n)

pub length-codes : (queue : BufferQueue) → length (codes queue) ≡ queue.size
unfolding codes
length-codes queue = length-ring queue.buffer queue.head queue.size

pub codes-empty : (queue : BufferQueue) → queue.size ≡ 0 → codes queue ≡ []
unfolding codes ring
codes-empty queue e = ap (λ (t : ℕ). ring queue.buffer queue.head t) e

-- A write behind the codes leaves them.
ring-set :
    (buffer : List ℕ) (h n k v : ℕ)
    → length buffer ≡ 1024
    → n ≤ k
    → k < 1024
    → ring (set buffer ((h + k) % 1024) v) h n ≡ ring buffer h n
unfolding ring
ring-set buffer h zero k v places less small = refl
ring-set buffer h (suc n) k v places less small =
    let other : get_or (set buffer ((h + k) % 1024) v) (h % 1024) 0 ≡ get_or buffer (h % 1024) 0 =
      ground (arith, get_or-set buffer ((h + k) % 1024) (h % 1024) v (omega (arith, places))) in
    let e : h + 1 + (k - 1) ≡ h + k = omega arith in
    let rest = ring-set buffer (h + 1) n (k - 1) v places (omega arith) (omega arith) in
    ap (λ (t : ℕ). t ∷ ring (set buffer ((h + k) % 1024) v) (h + 1) n) other
    ∙ ap (λ (t : List ℕ). get_or buffer (h % 1024) 0 ∷ t)
        (ap (λ (t : ℕ). ring (set buffer (t % 1024) v) (h + 1) n) (sym e) ∙ rest)

-- The result of `enqueue`, and the queue after it.
abbrev pub Enqueues : BufferQueue → ℕ → ℤ × BufferQueue → Type 0
Enqueues queue scan_code (result, queue') =
    ((queue.size ≡ 1024) × (result ≡ negsuc 0) × (queue' ≡ queue))
    ⊎ ((queue.size < 1024)
        × (result ≡ pos 0)
        × IsValid queue'
        × (codes queue' ≡ codes queue ++ (scan_code ∷ [])))

-- On a valid queue `enqueue` does not fault. It puts the code behind the others and returns 0, or the queue holds 1024
-- codes, and it returns -1 and changes nothing.
pub enqueue-Enqueues :
    (queue : BufferQueue) (scan_code : ℕ)
    → IsValid queue
    → (out : ℤ × BufferQueue) × (enqueue queue scan_code ≡ some out) × Enqueues queue scan_code out
unfolding enqueue next_index codes
enqueue-Enqueues queue scan_code ok = elim (ℕ_discrete queue.size 1024) [
  | yes full ↦
      let test : (queue.size == 1024) ≡ true = ground arith in
      ((negsuc 0, queue), rw test refl, inl (full, refl, refl))
  | no room ↦
      let test : (queue.size == 1024) ≡ false = ground arith in
      let less : queue.size < 1024 = ground (arith, ok.size) in
      let inside : queue.tail < length queue.buffer = omega (arith, ok.tail, ok.places) in
      let n = queue.size in
      let t = (queue.head + n) % 1024 in
      let one : n + 1 ≡ suc n = omega arith in
      let same : get_or (set queue.buffer t scan_code) t 0 ≡ scan_code =
        ground (arith, get_or-set queue.buffer t t scan_code (omega (arith, ok.places))) in
      let queue' : BufferQueue = record queue {
        buffer = set queue.buffer queue.tail scan_code;
        tail = (queue.tail + 1) % 1024;
        size = n + 1;
      } in
      (
        (pos 0, queue'),
        rw (test, set?-set queue.buffer queue.tail scan_code inside, ◌>>=◌) refl,
        inr (
          less,
          refl,
          record {
            places = length-set queue.buffer queue.tail scan_code ∙ ok.places;
            head = ok.head;
            tail = omega (arith, ok.tail);
            size = omega arith;
          },
          ap (λ (p : ℕ). ring (set queue.buffer p scan_code) queue.head (n + 1)) ok.tail
              ∙ ap (λ (p : ℕ). ring (set queue.buffer t scan_code) queue.head p) one
              ∙ ring-last (set queue.buffer t scan_code) queue.head n
              ∙ ap (λ (p : List ℕ). p ++ (get_or (set queue.buffer t scan_code) t 0 ∷ []))
                  (ring-set queue.buffer queue.head n n scan_code ok.places (omega arith) less)
              ∙ ap (λ (p : ℕ). ring queue.buffer queue.head n ++ (p ∷ [])) same,
        ),
      )
]

-- On a valid queue that is not empty, `dequeue` takes out and returns the oldest code.
pub dequeue-first :
    (queue : BufferQueue)
    → IsValid queue
    → 0 < queue.size
    → (code : ℕ) × (queue' : BufferQueue) × (dequeue queue ≡ some (code, queue'))
      × IsValid queue'
      × (codes queue ≡ code ∷ codes queue')
unfolding dequeue next_index codes ring
dequeue-first queue ok some_codes =
    let one : queue.size ≡ suc (queue.size - 1) = omega arith in
    let place : queue.head % 1024 ≡ queue.head = omega (arith, ok.head) in
    (
      get_or queue.buffer queue.head 0,
      record queue { head = (queue.head + 1) % 1024; size = queue.size - 1 },
      rw (get_elem?-get_or queue.buffer queue.head 0 (omega (arith, ok.head, ok.places)), ◌>>=◌)
          refl,
      record {
        places = ok.places;
        head = omega arith;
        tail = omega (arith, ok.tail);
        size = omega (arith, ok.size);
      },
      ap (λ (p : ℕ). ring queue.buffer queue.head p) one
          ∙ ap
              (λ (p : ℕ).
                get_or queue.buffer p 0 ∷ ring queue.buffer (queue.head + 1) (queue.size - 1))
              place
          ∙ ap (λ (p : List ℕ). get_or queue.buffer queue.head 0 ∷ p)
              (ring-wrap queue.buffer (queue.head + 1) ((queue.head + 1) % 1024) (queue.size - 1)
                (omega arith)),
    )

-- The queue of `init_keyboard` is valid and holds no code.
init_queue-IsValid : IsValid init_queue × (codes init_queue ≡ [])
unfolding init_queue codes ring
init_queue-IsValid = (
  record {
    places = length-replicate {A = ℕ} 1024 0;
    head = omega arith;
    tail = refl;
    size = omega arith;
  },
  refl,
)
