-- ===== src/Sync/Mutex/Exclusion.antt =====
-- Threads that share a mutex, each at a statement of its own, and interrupts that switch between any two statements.
use luck_os.Common.{
  ℕ, ◌≡◌, ◌≢◌, refl, sym, ap, ◌∙◌, arith, Bool, true, false, some, ◌==◌, if◌then◌else◌, ℕ_discrete,
  ◌⊎◌, inl, inr, subst,
}
use luck_os.Sync.Yieldlock.{locked_yes}
use luck_os.Task.Scheduler.{Scheduler}
use luck_os.Sync.Mutex.{Mutex, Phase, mutex_step}
use luck_os.Sync.Mutex.Effect.{
  is_inside, is_owner, Effect, kept, taken, freed, Effects, mutex_step-Effects,
}

abbrev pub with_phase : (ℕ → Phase) → ℕ → Phase → ℕ → Phase
with_phase phases node phase n = if n == node then phase else phases n

-- The mutex, the scheduler, and the place of each thread by its node.
pub record Shared : Type 0 where
  pub mutex : Mutex
  pub scheduler : Scheduler
  pub phases : ℕ → Phase

-- The current thread executes its next statement; an interrupt, or code that does not use the mutex, changes the scheduler in
-- any way.
pub data Step : Shared → Shared → Type 0 where
  advancing :
      {x : Shared} (phase' : Phase) (mp' : Mutex) (s' : Scheduler)
      → mutex_step (x.phases x.scheduler.crt_thread_node) x.mutex x.scheduler
        ≡ some (phase', mp', s')
      → Step x (record {
        mutex = mp';
        scheduler = s';
        phases = with_phase x.phases x.scheduler.crt_thread_node phase';
      })
  interrupting : {x : Shared} (s' : Scheduler) → Step x (record x { scheduler = s' })

pub data Run : Shared → Shared → Type 0 where
  done : {x : Shared} → Run x x
  step : {x x₁ x' : Shared} → Step x x₁ → Run x₁ x' → Run x x'

-- At most one thread is in a phase of `holds`, and the lock is taken while one is.
pub record IsHeldByOne (holds : Phase → Bool) (phases : ℕ → Phase) (hold : ℕ) : Type 0 where
  pub held : (n : ℕ) → holds (phases n) ≡ true → hold ≡ locked_yes
  pub single : (n n' : ℕ) → holds (phases n) ≡ true → holds (phases n') ≡ true → n ≡ n'

-- Both locks are exclusive: that around the fields of the mutex, and the mutex.
pub record IsExclusive (x : Shared) : Type 0 where
  pub inside : IsHeldByOne is_inside x.phases x.mutex.ydlock.hold
  pub owner : IsHeldByOne is_owner x.phases x.mutex.hold

with_phase_self :
    (phases : ℕ → Phase) (node n : ℕ) (phase : Phase)
    → n ≡ node
    → with_phase phases node phase n ≡ phase
with_phase_self phases node n phase e =
    let test : (n == node) ≡ true = ground (arith, e) in rw test refl

with_phase_other :
    (phases : ℕ → Phase) (node n : ℕ) (phase : Phase)
    → n ≢ node
    → with_phase phases node phase n ≡ phases n
with_phase_other phases node n phase ne =
    let test : (n == node) ≡ false = ground (arith, ne) in rw test refl

module _ (holds : Phase → Bool) (phases : ℕ → Phase) (node : ℕ) (phase' : Phase) where
  -- A thread that holds the lock afterwards is this one, or held it before.
  holder :
      (n : ℕ)
      → holds (with_phase phases node phase' n) ≡ true
      → ((n ≡ node) × (holds phase' ≡ true)) ⊎ ((n ≢ node) × (holds (phases n) ≡ true))
  holder n e = elim (ℕ_discrete n node) [
    | yes same ↦ inl (same, ap holds (sym (with_phase_self phases node n phase' same)) ∙ e)
    | no other ↦ inr (other, ap holds (sym (with_phase_other phases node n phase' other)) ∙ e)
  ]

  -- A thread that holds the lock before and after as it did.
  holder_kept :
      (n : ℕ)
      → holds phase' ≡ holds (phases node)
      → holds (with_phase phases node phase' n) ≡ true
      → holds (phases n) ≡ true
  holder_kept n same e = elim (holder n e) [
    | inl (here, now) ↦ ap (λ (t : ℕ). holds (phases t)) here ∙ sym same ∙ now
    | inr (other, before) ↦ before
  ]

  Effect-IsHeldByOne :
      (old new : ℕ)
      → Effect (holds (phases node)) old (holds phase') new
      → IsHeldByOne holds phases old
      → IsHeldByOne holds (with_phase phases node phase') new
  Effect-IsHeldByOne old new (kept same stays) one = record {
    held = λ n e. stays (one.held n (holder_kept n same e));
    single = λ n n' e e'. one.single n n' (holder_kept n same e) (holder_kept n' same e');
  }
  Effect-IsHeldByOne old new (taken free busy) one =
      let nobody : (n : ℕ) → holds (phases n) ≢ true =
        λ n e. let was = one.held n e in omega (arith, was, free) in
      let only : (n : ℕ) → holds (with_phase phases node phase' n) ≡ true → n ≡ node = λ n e.
        elim (holder n e) [
          | inl (here, now) ↦ here
          | inr (other, before) ↦ absurd (nobody n before)
        ] in
      record { held = λ n e. busy; single = λ n n' e e'. only n e ∙ sym (only n' e') }
  Effect-IsHeldByOne old new (freed was is) one =
      let nobody : (n : ℕ) → holds (with_phase phases node phase' n) ≢ true = λ n e.
        elim (holder n e) [
          | inl (here, now) ↦ absurd (cc (now, is))
          | inr (other, before) ↦ other (one.single n node before was)
        ] in
      record { held = λ n e. absurd (nobody n e); single = λ n n' e e'. absurd (nobody n e) }

-- A statement keeps the exclusion.
advance-IsExclusive :
    (x : Shared) (phase' : Phase) (mp' : Mutex) (s' : Scheduler)
    → Effects (x.phases x.scheduler.crt_thread_node) x.mutex phase' mp'
    → IsExclusive x
    → IsExclusive (record {
      mutex = mp';
      scheduler = s';
      phases = with_phase x.phases x.scheduler.crt_thread_node phase';
    })
advance-IsExclusive x phase' mp' s' effects one = record {
  inside =
      Effect-IsHeldByOne is_inside x.phases x.scheduler.crt_thread_node phase' x.mutex.ydlock.hold
        mp'.ydlock.hold effects.on_ydlock one.inside;
  owner =
      Effect-IsHeldByOne is_owner x.phases x.scheduler.crt_thread_node phase' x.mutex.hold mp'.hold
        effects.on_mutex one.owner;
}

step-Effects :
    (phase : Phase) (mp : Mutex) (s : Scheduler) (phase' : Phase) (mp' : Mutex) (s' : Scheduler)
    → mutex_step phase mp s ≡ some (phase', mp', s')
    → Effects phase mp phase' mp'
step-Effects phase mp s phase' mp' s' run =
    let (phase₁, mp₁, s₁, run₁, effects) = mutex_step-Effects phase mp s in
    let same : phase₁ ≡ phase' = cc (run₁, run) in
    let same' : mp₁ ≡ mp' = cc (run₁, run) in
    subst (λ (t : Mutex). Effects phase mp phase' t) same'
      (subst (λ (t : Phase). Effects phase mp t mp₁) same effects)

Step-IsExclusive : (x x' : Shared) → Step x x' → IsExclusive x → IsExclusive x'
Step-IsExclusive x x' (advancing phase' mp' s' run) one =
    advance-IsExclusive x phase' mp' s'
      (step-Effects (x.phases x.scheduler.crt_thread_node) x.mutex x.scheduler phase' mp' s' run)
      one
Step-IsExclusive x x' (interrupting s') one = record { inside = one.inside; owner = one.owner }

-- Whatever the order in which the threads and the interrupts come, between any two statements of `mutex_lock` and
-- `mutex_unlock`, at most one thread has the mutex and at most one is inside `ydlock`, where the thread that calls
-- `mutex_unlock` has the mutex. Each lock is taken while a thread has it.
pub Run-IsExclusive : (x x' : Shared) → IsExclusive x → Run x x' → IsExclusive x'
Run-IsExclusive x x' one done = one
Run-IsExclusive x x' one (step {x₁ = x₁} first rest) =
    Run-IsExclusive x₁ x' (Step-IsExclusive x x₁ first one) rest
