-- ===== src/Mem/Frames/Counts.antt =====
-- The reference counts of the frames as a map from frames to numbers.
use luck_os.Common.{
  ℕ, ◌*◌, ◌^◌, ◌<◌, ◌≡◌, ◌≢◌, refl, sym, ap, ◌∙◌, Option, some, List, ◌>>=◌, true, false, not, ◌==◌,
  if◌then◌else◌, arith, Bool-cases, inl, inr, ℕ_discrete,
}
use luck_os.Common.Int.{ℤ, pos, ◌+ℤ◌, nonpos, int32}
use luck_os.Sync.Yieldlock.{locked_no, yieldlock_lock-free, yieldlock_unlock}
use luck_os.Utils.HashTable.{
  HashTable, Kv, value_of, hash_table_get, hash_table_put, hash_table_remove,
}
use luck_os.Utils.HashTable.Expand.{IsTable}
use luck_os.Utils.HashTable.Update.{found}
use luck_os.Utils.HashTable.Put.{hash_table_put-IsPut}
use luck_os.Utils.HashTable.Remove.{hash_table_remove-IsRemoved}
use luck_os.Mem.Frames.{CowCounts, with_count, store_count, old_count, change_cow_frame_refcount}

-- The count of a frame.
abbrev pub count_of : CowCounts → ℕ → ℤ
count_of c frame = old_count c (hash_table_get c.table frame)

-- Each frame has a block of its own.
pub record AreCounts (c : CowCounts) : Type 0 where
  pub table : IsTable c.table
  pub apart :
      (frame other : ℕ)
      → frame ≢ other
      → hash_table_get c.table frame ≢ 0
      → hash_table_get c.table frame ≢ hash_table_get c.table other

-- A count that is not positive is none.
abbrev pub kept : ℤ → ℤ
kept z = if nonpos z then pos 0 else z

-- The counts behind a change of one of them.
record IsChanged (c : CowCounts) (frame : ℕ) (z : ℤ) (c' : CowCounts) : Type 0 where
  here : count_of c' frame ≡ kept z
  others : (other : ℕ) → other ≢ frame → count_of c' other ≡ count_of c other

get-found :
    (t t' : HashTable) (key : ℕ)
    → found t' key ≡ found t key
    → hash_table_get t' key ≡ hash_table_get t key
unfolding hash_table_get
get-found t t' key e = ap (λ (o : Option Kv). value_of o) e

block_test : (n : ℕ) → n ≢ 0 → not (n == 0) ≡ true
block_test n ne = let test : (n == 0) ≡ false = ground (arith, ne) in rw test refl

-- An old block gets the new number.
set_old :
    (c : CowCounts) (frame : ℕ) (z : ℤ)
    → AreCounts c
    → nonpos z ≡ false
    → hash_table_get c.table frame ≢ 0
    → IsChanged c frame z
        (record c { counts = with_count c.counts (hash_table_get c.table frame) z })
set_old c frame z valid positive present =
    let block = hash_table_get c.table frame in
    let test = block_test block present in
    let same : (block == block) ≡ true = ground arith in
    record {
      here = rw (test, same, positive) refl;
      others = λ other ne.
          let apart = valid.apart frame other (λ e. ne (sym e)) present in
          let different : (hash_table_get c.table other == block) ≡ false = ground (arith, apart) in
          rw different refl;
    }

-- A new block is put into the table.
put_new :
    (c : CowCounts) (frame new_block : ℕ) (z : ℤ)
    → AreCounts c
    → nonpos z ≡ false
    → c.table.buckets_num * 2 < 2 ^ 32
    → new_block ≢ 0
    → ((other : ℕ) → hash_table_get c.table other ≢ new_block)
    → IsChanged c frame z (record c {
      counts = with_count c.counts new_block z;
      table = (hash_table_put c.table frame new_block).1;
    })
unfolding hash_table_get
put_new c frame new_block z valid positive doubles real fresh =
    let t' = (hash_table_put c.table frame new_block).1 in
    let done = hash_table_put-IsPut c.table frame new_block valid.table doubles in
    let (kv, at, value) = done.here in
    let block : hash_table_get t' frame ≡ new_block =
      ap (λ (o : Option Kv). value_of o) at ∙ value in
    let test = block_test new_block real in
    let same : (new_block == new_block) ≡ true = ground arith in
    record {
      here = rw (block, test, same, positive) refl;
      others = λ other ne.
          let kept' = get-found c.table t' other (done.others other ne) in
          let different : (hash_table_get c.table other == new_block) ≡ false =
            ground (arith, fresh other) in
          rw (kept', different) refl;
    }

-- The block is taken out of the table.
take_out :
    (c : CowCounts) (frame : ℕ) (z : ℤ)
    → AreCounts c
    → nonpos z ≡ true
    → IsChanged c frame z (record c { table = (hash_table_remove c.table frame).1 })
unfolding hash_table_get
take_out c frame z valid none_left =
    let t' = (hash_table_remove c.table frame).1 in
    let done = hash_table_remove-IsRemoved c.table frame valid.table in
    let block : hash_table_get t' frame ≡ 0 = ap (λ (o : Option Kv). value_of o) done.gone in
    record {
      here = rw (block, none_left) refl;
      others = λ other ne.
          let kept' = get-found c.table t' other (done.others other ne) in rw kept' refl;
    }

store_count-IsChanged :
    (c : CowCounts) (frame new_block : ℕ) (z : ℤ)
    → AreCounts c
    → c.table.buckets_num * 2 < 2 ^ 32
    → new_block ≢ 0
    → ((other : ℕ) → hash_table_get c.table other ≢ new_block)
    → IsChanged c frame z (store_count c frame (hash_table_get c.table frame) new_block z)
unfolding store_count
store_count-IsChanged c frame new_block z valid doubles real fresh =
    let block = hash_table_get c.table frame in
    elim (Bool-cases (nonpos z)) [
      | inl none_left ↦ elim (ℕ_discrete block 0) [
        | yes absent ↦
            let test : (block == 0) ≡ true = ground (arith, absent) in
            rw (none_left, test)
              (record { here = rw (none_left, test) refl; others = λ other ne. refl })
        | no present ↦
            let test : (block == 0) ≡ false = ground (arith, present) in
            rw (none_left, test) (take_out c frame z valid none_left)
      ]
      | inr positive ↦ elim (ℕ_discrete block 0) [
        | yes absent ↦
            let test : (block == 0) ≡ true = ground (arith, absent) in
            rw (positive, test) (put_new c frame new_block z valid positive doubles real fresh)
        | no present ↦
            let test : (block == 0) ≡ false = ground (arith, present) in
            rw (positive, test) (set_old c frame z valid positive present)
      ]
    ]

-- With the counts in use and their lock free, and a fresh block, `change_cow_frame_refcount` returns the old count of the frame
-- and adds the change to it as an `int32`, where a sum that is not positive leaves 0; the counts of the other frames stay as they are.
pub change_cow_frame_refcount-adds :
    (seen : List ℕ) (new_block : ℕ) (c : CowCounts) (frame : ℕ) (refcount_delta : ℤ)
    → c.ready ≡ true
    → c.lock.hold ≡ locked_no
    → AreCounts c
    → c.table.buckets_num * 2 < 2 ^ 32
    → new_block ≢ 0
    → ((other : ℕ) → hash_table_get c.table other ≢ new_block)
    → (c' : CowCounts) × (change_cow_frame_refcount seen new_block c frame refcount_delta
        ≡ some (count_of c frame, c'))
      × (count_of c' frame ≡ kept (int32 (count_of c frame +ℤ refcount_delta)))
      × ((other : ℕ) → other ≢ frame → count_of c' other ≡ count_of c other)
      × (c'.lock.hold ≡ locked_no)
unfolding change_cow_frame_refcount yieldlock_unlock
change_cow_frame_refcount-adds seen new_block c frame refcount_delta ready free valid doubles real
      fresh =
    let z = int32 (count_of c frame +ℤ refcount_delta) in
    let stored = store_count c frame (hash_table_get c.table frame) new_block z in
    let done = store_count-IsChanged c frame new_block z valid doubles real fresh in
    (
      record stored { lock = record { hold = locked_no } },
      rw (ready, yieldlock_lock-free seen c.lock free, ◌>>=◌) refl,
      done.here,
      done.others,
      refl,
    )
