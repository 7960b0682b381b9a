-- ===== src/Sync/Yieldlock.antt =====
-- src/sync/yieldlock.c and yieldlock.h, over the exchange of src/sync/cas.S.
-- The exchange is the only access of the loop: the argument `seen` lists the values that other threads leave in `hold`
-- between the rounds of a waiting thread.
use luck_os.Common.{ℕ, ◌≡◌, Bool, Option, none, some, List, [], ◌∷◌, ◌==◌, not, if◌then◌else◌}

abbrev pub locked_no : ℕ
locked_no = 0

abbrev pub locked_yes : ℕ
locked_yes = 1

pub record Yieldlock : Type 0 where
  pub hold : ℕ

-- The old value of `*dst`, and the new one.
abbrev pub atomic_exchange : ℕ → ℕ → ℕ × ℕ
atomic_exchange dst src = (dst, src)

unfoldable pub yieldlock_init : Yieldlock
yieldlock_init = record { hold = locked_no }

-- `none`: the thread still waits after all the yields of `seen`.
unfoldable pub yieldlock_lock : List ℕ → Yieldlock → Option Yieldlock
yieldlock_lock [] l =
    let (old, new) = atomic_exchange l.hold locked_yes in
    if not (old == locked_no) then none else some (record { hold = new })
yieldlock_lock (next ∷ seen) l =
    let (old, new) = atomic_exchange l.hold locked_yes in
    let again = yieldlock_lock seen (record { hold = next }) in
    if not (old == locked_no) then again else some (record { hold = new })

yieldlock_trylock : Yieldlock → Bool × Yieldlock
yieldlock_trylock l =
    let (old, new) = atomic_exchange l.hold locked_yes in (old == locked_no, record { hold = new })

unfoldable pub yieldlock_unlock : Yieldlock → Yieldlock
yieldlock_unlock l = record { hold = locked_no }

pub yieldlock_lock-free :
    (seen : List ℕ) (l : Yieldlock)
    → l.hold ≡ locked_no
    → yieldlock_lock seen l ≡ some (record { hold = locked_yes })
unfolding yieldlock_lock
yieldlock_lock-free [] l e = rw e
yieldlock_lock-free (next ∷ seen) l e = rw e
