-- ===== src/Sync/Spinlock/Restore.antt =====
-- A spin lock leaves the interrupt flag and the preemption count as they were.
use luck_os.Common.{
  ◌+◌, ◌-◌, ◌%◌, ◌^◌, ◌<◌, ◌≡◌, refl, arith, true, false, ◌==◌, Bool-cases, inl, inr,
}
use luck_os.Task.Scheduler.{Scheduler, get_crt_thread, disable_preempt, enable_preempt}
use luck_os.Sync.Spinlock.{Spinlock, spinlock_lock_irqsave, spinlock_unlock_irqrestore}

-- The state between the two calls: no interrupts, and no preemption.
pub record IsHeld (s : Scheduler) : Type 0 where
  pub masked : s.interrupt_enabled ≡ false
  pub counted : 0 < (get_crt_thread s).preempt_count

-- With a count that does not wrap around, `spinlock_lock_irqsave` disables interrupts and preemption, and the matching
-- `spinlock_unlock_irqrestore` restores the interrupt flag and the count.
pub spinlock_irqsave-restores :
    (splock : Spinlock) (s : Scheduler)
    → (get_crt_thread s).preempt_count + 1 < 2 ^ 32
    → (splock₁ : Spinlock) × (s₁ : Scheduler) × (spinlock_lock_irqsave splock s ≡ (splock₁, s₁))
      × (IsHeld s₁)
      × ((spinlock_unlock_irqrestore splock₁ s₁).1.interrupt_enabled ≡ s.interrupt_enabled)
      × ((get_crt_thread (spinlock_unlock_irqrestore splock₁ s₁).1).preempt_count
          ≡ (get_crt_thread s).preempt_count)
unfolding spinlock_lock_irqsave spinlock_unlock_irqrestore disable_preempt enable_preempt
spinlock_irqsave-restores splock s small =
    let n = s.crt_thread_node in
    let t = s.threads n in
    let test : (n == n) ≡ true = ground arith in
    let up : (t.preempt_count + 1) % 2 ^ 32 ≡ t.preempt_count + 1 = omega arith in
    let down : ((t.preempt_count + 1) % 2 ^ 32 + 2 ^ 32 - 1) % 2 ^ 32 ≡ t.preempt_count =
      omega arith in
    (
      (spinlock_lock_irqsave splock s).0,
      (spinlock_lock_irqsave splock s).1,
      refl,
      record { masked = refl; counted = rw test (omega (arith, up)) },
      elim (Bool-cases s.interrupt_enabled) [
        | inl enabled ↦ rw enabled refl
        | inr disabled ↦ rw disabled refl
      ],
      elim (Bool-cases s.interrupt_enabled) [
        | inl enabled ↦ rw (enabled, test) down
        | inr disabled ↦ rw (disabled, test) down
      ],
    )
