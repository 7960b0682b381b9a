-- ===== src/Sync/Mutex/Effect.antt =====
-- What one statement of a thread does to the two locks of a mutex.
use luck_os.Common.{
  ℕ, ◌≡◌, refl, arith, Bool, true, false, some, List, [], ◌∷◌, ◌==◌, ◌>>=◌, Bool-cases, inl, inr,
}
use luck_os.Sync.Yieldlock.{locked_no, locked_yes, yieldlock_unlock}
use luck_os.Task.Scheduler.{Scheduler}
use luck_os.Task.Scheduler.Fair.{schedule_thread_yield-Run}
use luck_os.Sync.Mutex.{
  Mutex, Phase, outside, locking, lock_yielding, testing, queueing, marking, parting, waiting,
  entering, owning, unlocking, unlock_yielding, releasing, clearing, waking, adding, leaving,
  try_ydlock, take_first, mutex_step,
}

-- The thread holds `ydlock`.
abbrev pub is_inside : Phase → Bool
is_inside outside = false
is_inside locking = false
is_inside lock_yielding = false
is_inside testing = true
is_inside queueing = true
is_inside marking = true
is_inside parting = true
is_inside waiting = false
is_inside entering = true
is_inside owning = false
is_inside unlocking = false
is_inside unlock_yielding = false
is_inside releasing = true
is_inside clearing = true
is_inside waking = true
is_inside (adding node) = true
is_inside leaving = true

-- The thread has the mutex.
abbrev pub is_owner : Phase → Bool
is_owner outside = false
is_owner locking = false
is_owner lock_yielding = false
is_owner testing = false
is_owner queueing = false
is_owner marking = false
is_owner parting = false
is_owner waiting = false
is_owner entering = true
is_owner owning = true
is_owner unlocking = true
is_owner unlock_yielding = true
is_owner releasing = true
is_owner clearing = false
is_owner waking = false
is_owner (adding node) = false
is_owner leaving = false

-- A lock before and after, and whether the thread holds it.
pub data Effect : Bool → ℕ → Bool → ℕ → Type 0 where
  kept :
      {before after : Bool} {old new : ℕ}
      → after ≡ before
      → (old ≡ locked_yes → new ≡ locked_yes)
      → Effect before old after new
  taken :
      {before after : Bool} {old new : ℕ}
      → old ≡ locked_no
      → new ≡ locked_yes
      → Effect before old after new
  freed :
      {before after : Bool} {old new : ℕ}
      → before ≡ true
      → after ≡ false
      → Effect before old after new

-- The effects of a statement on `ydlock` and on the mutex.
pub record Effects (phase : Phase) (mp : Mutex) (phase' : Phase) (mp' : Mutex) : Type 0 where
  pub on_ydlock : Effect (is_inside phase) mp.ydlock.hold (is_inside phase') mp'.ydlock.hold
  pub on_mutex : Effect (is_owner phase) mp.hold (is_owner phase') mp'.hold

unchanged : {b : Bool} {hold : ℕ} → Effect b hold b hold
unchanged = kept refl (λ e. e)

try_ydlock-Effect :
    (ready again : Phase) (owns : Bool) (mp : Mutex) (s : Scheduler)
    → is_inside ready ≡ true
    → is_inside again ≡ false
    → is_owner ready ≡ owns
    → is_owner again ≡ owns
    → (phase' : Phase) × (mp' : Mutex) × (try_ydlock ready again mp s ≡ some (phase', mp', s))
      × Effect false mp.ydlock.hold (is_inside phase') mp'.ydlock.hold
      × Effect owns mp.hold (is_owner phase') mp'.hold
try_ydlock-Effect ready again owns mp s inside outside' owner owner' =
    let mp' = record mp { ydlock = record { hold = locked_yes } } in
    elim (Bool-cases (mp.ydlock.hold == locked_no)) [
      | inl free ↦
          let zero_before : mp.ydlock.hold ≡ locked_no = ground (arith, free) in
          (ready, mp', rw free refl, taken zero_before refl, kept owner (λ e. e))
      | inr busy ↦ (again, mp', rw busy refl, kept outside' (λ e. refl), kept owner' (λ e. e))
    ]

take_first-Effects :
    (queue : List ℕ) (mp : Mutex) (s : Scheduler)
    → (phase' : Phase) × (mp' : Mutex) × (s' : Scheduler) × (take_first queue mp s
        ≡ some (phase', mp', s'))
      × Effects waking mp phase' mp'
take_first-Effects [] mp s =
    (leaving, mp, s, refl, record { on_ydlock = unchanged; on_mutex = unchanged })
take_first-Effects (head ∷ rest) mp s =
    (adding head, _, s, refl, record { on_ydlock = unchanged; on_mutex = unchanged })

-- Any statement can be executed, and has one of the effects on each lock.
pub mutex_step-Effects :
    (phase : Phase) (mp : Mutex) (s : Scheduler)
    → (phase' : Phase) × (mp' : Mutex) × (s' : Scheduler) × (mutex_step phase mp s
        ≡ some (phase', mp', s'))
      × Effects phase mp phase' mp'
unfolding mutex_step yieldlock_unlock
mutex_step-Effects outside mp s =
    (locking, mp, s, refl, record { on_ydlock = unchanged; on_mutex = unchanged })
mutex_step-Effects locking mp s =
    let (phase', mp', run, on_ydlock, on_mutex) =
      try_ydlock-Effect testing lock_yielding false mp s refl refl refl refl in
    (phase', mp', s, run, record { on_ydlock = on_ydlock; on_mutex = on_mutex })
mutex_step-Effects lock_yielding mp s =
    let (s', run, more, yielded) = schedule_thread_yield-Run s in
    (locking, mp, s', rw (run, ◌>>=◌) refl, record { on_ydlock = unchanged; on_mutex = unchanged })
mutex_step-Effects testing mp s =
    let mp' = record mp { hold = locked_yes } in
    elim (Bool-cases (mp.hold == locked_no)) [
      | inl free ↦
          let zero_before : mp.hold ≡ locked_no = ground (arith, free) in
          (
            entering,
            mp',
            s,
            rw free refl,
            record { on_ydlock = unchanged; on_mutex = taken zero_before refl },
          )
      | inr busy ↦ (
        queueing,
        mp',
        s,
        rw busy refl,
        record { on_ydlock = unchanged; on_mutex = kept refl (λ e. refl) },
      )
    ]
mutex_step-Effects queueing mp s =
    (marking, _, s, refl, record { on_ydlock = unchanged; on_mutex = unchanged })
mutex_step-Effects marking mp s =
    (parting, mp, _, refl, record { on_ydlock = unchanged; on_mutex = unchanged })
mutex_step-Effects parting mp s =
    (waiting, _, s, refl, record { on_ydlock = freed refl refl; on_mutex = unchanged })
mutex_step-Effects waiting mp s =
    let (s', run, more, yielded) = schedule_thread_yield-Run s in
    (locking, mp, s', rw (run, ◌>>=◌) refl, record { on_ydlock = unchanged; on_mutex = unchanged })
mutex_step-Effects entering mp s =
    (owning, _, s, refl, record { on_ydlock = freed refl refl; on_mutex = unchanged })
mutex_step-Effects owning mp s =
    (unlocking, mp, s, refl, record { on_ydlock = unchanged; on_mutex = unchanged })
mutex_step-Effects unlocking mp s =
    let (phase', mp', run, on_ydlock, on_mutex) =
      try_ydlock-Effect releasing unlock_yielding true mp s refl refl refl refl in
    (phase', mp', s, run, record { on_ydlock = on_ydlock; on_mutex = on_mutex })
mutex_step-Effects unlock_yielding mp s =
    let (s', run, more, yielded) = schedule_thread_yield-Run s in
    (
      unlocking,
      mp,
      s',
      rw (run, ◌>>=◌) refl,
      record { on_ydlock = unchanged; on_mutex = unchanged },
    )
mutex_step-Effects releasing mp s =
    (clearing, _, s, refl, record { on_ydlock = unchanged; on_mutex = freed refl refl })
mutex_step-Effects clearing mp s =
    (waking, _, s, refl, record { on_ydlock = unchanged; on_mutex = unchanged })
mutex_step-Effects waking mp s = take_first-Effects mp.waiting_task_queue mp s
mutex_step-Effects (adding head) mp s =
    (leaving, mp, _, refl, record { on_ydlock = unchanged; on_mutex = unchanged })
mutex_step-Effects leaving mp s =
    (outside, _, s, refl, record { on_ydlock = freed refl refl; on_mutex = unchanged })
