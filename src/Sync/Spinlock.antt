-- ===== src/Sync/Spinlock.antt =====
-- src/sync/spinlock.c, as it is built: with `SINGLE_PROCESSOR` of spinlock.h, the loops on `hold` are left out.
pub mod Restore
use luck_os.Common.{ℕ, ◌^◌, true, false, ◌==◌, if◌then◌else◌}
use luck_os.Sync.Yieldlock.{locked_no}
use luck_os.Task.Scheduler.{Scheduler, disable_preempt, enable_preempt}

pub record Spinlock : Type 0 where
  pub hold : ℕ
  pub interrupt_mask : ℕ

pub spinlock_init : Spinlock
spinlock_init = record { hold = locked_no; interrupt_mask = 0 }

unfoldable pub spinlock_lock : Spinlock → Scheduler → Spinlock × Scheduler
spinlock_lock splock s = (splock, disable_preempt s)

-- Bit 9 of the flags is the interrupt flag.
pub spinlock_lock_irqsave : Spinlock → Scheduler → Spinlock × Scheduler
spinlock_lock_irqsave splock s =
    let s₁ = disable_preempt s in
    let interrupt_mask = if s₁.interrupt_enabled then 2 ^ 9 else 0 in
    (record splock { interrupt_mask = interrupt_mask }, record s₁ { interrupt_enabled = false })

unfoldable pub spinlock_unlock : Spinlock → Scheduler → Spinlock × Scheduler
spinlock_unlock splock s = (splock, enable_preempt s)

pub spinlock_unlock_irqrestore : Spinlock → Scheduler → Spinlock × Scheduler
spinlock_unlock_irqrestore splock s =
    let s₁ = enable_preempt s in
    (splock, if splock.interrupt_mask == 0 then s₁ else record s₁ { interrupt_enabled = true })
