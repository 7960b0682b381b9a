-- ===== src/Utils/HashTable.antt =====
-- src/utils/hash_table.c: a table of buckets. A bucket is the list of its entries, as Utils.LinkedList shows a linked list to be:
-- `linked_list_append` puts an entry at its end, `linked_list_remove` takes one out. The buckets are a function of the
-- index; a null pointer is 0.
pub mod Matching
pub mod Expand
pub mod Update
pub mod Put
pub mod Remove
mod Tests
use luck_os.Common.{
  ℕ, zero, suc, ◌+◌, ◌-◌, ◌*◌, ◌%◌, ◌^◌, Bool, true, false, Option, none, some, List, [], ◌∷◌, ◌++◌,
  ◌==◌, ltb, not, if◌then◌else◌,
}

pub record Kv : Type 0 where
  pub key : ℕ
  pub v_ptr : ℕ

abbrev pub Bucket : Type 0
Bucket = List Kv

pub record HashTable : Type 0 where
  pub buckets : ℕ → Bucket
  pub buckets_num : ℕ
  pub size : ℕ

abbrev initial_buckets_num : ℕ
initial_buckets_num = 16

unfoldable pub hash_table_init : HashTable
hash_table_init = record { buckets = λ i. []; buckets_num = initial_buckets_num; size = 0 }

create_hash_table : HashTable
create_hash_table = hash_table_init

abbrev pub with_bucket : (ℕ → Bucket) → ℕ → Bucket → ℕ → Bucket
with_bucket buckets i bucket n = if n == i then bucket else buckets n

-- The loops that free each entry of each bucket.
clear_buckets : ℕ → (ℕ → Bucket) → ℕ → ℕ → Bucket
clear_buckets zero buckets i = buckets
clear_buckets (suc rounds) buckets i = clear_buckets rounds (with_bucket buckets i []) (i + 1)

hash_table_clear : HashTable → HashTable
hash_table_clear this = record this {
  buckets = clear_buckets this.buckets_num this.buckets 0;
  size = 0;
}

-- The values are freed too, and the table of the buckets, which leaves its address in the structure.
hash_table_destroy : HashTable → HashTable
hash_table_destroy this = record this {
  buckets = clear_buckets this.buckets_num this.buckets 0;
  size = 0;
}

pub hash_table_bucket_lookup : Bucket → ℕ → Option Kv
hash_table_bucket_lookup [] key = none
hash_table_bucket_lookup (kv ∷ bucket) key =
    if kv.key == key then some kv else hash_table_bucket_lookup bucket key

abbrev pub bucket_of : HashTable → ℕ → Bucket
bucket_of this key = this.buckets (key % this.buckets_num)

abbrev pub value_of : Option Kv → ℕ
value_of none = 0
value_of (some kv) = kv.v_ptr

unfoldable pub hash_table_get : HashTable → ℕ → ℕ
hash_table_get this key = value_of (hash_table_bucket_lookup (bucket_of this key) key)

hash_table_contains : HashTable → ℕ → Bool
hash_table_contains this key = elim (hash_table_bucket_lookup (bucket_of this key) key) [
  | none ↦ false
  | some kv ↦ true
]

-- `kv->v_ptr = v_ptr` in the entry that the lookup finds.
pub set_value : Bucket → ℕ → ℕ → Bucket
set_value [] key v_ptr = []
set_value (kv ∷ bucket) key v_ptr =
    if kv.key == key then record kv { v_ptr = v_ptr } ∷ bucket else kv ∷ set_value bucket key v_ptr

-- `linked_list_remove` of the entry that the lookup finds.
pub remove_entry : Bucket → ℕ → Bucket
remove_entry [] key = []
remove_entry (kv ∷ bucket) key = if kv.key == key then bucket else kv ∷ remove_entry bucket key

-- The entries of one bucket go to the ends of their new buckets.
pub move_bucket : Bucket → ℕ → (ℕ → Bucket) → ℕ → Bucket
move_bucket [] new_buckets_num new_buckets = new_buckets
move_bucket (kv ∷ bucket) new_buckets_num new_buckets =
    let place = kv.key % new_buckets_num in
    move_bucket bucket new_buckets_num
      (with_bucket new_buckets place (new_buckets place ++ (kv ∷ [])))

-- The loop over the old buckets, from `i` on.
pub move_buckets : ℕ → (ℕ → Bucket) → ℕ → (ℕ → Bucket) → ℕ → ℕ → Bucket
move_buckets zero buckets new_buckets_num new_buckets i = new_buckets
move_buckets (suc rounds) buckets new_buckets_num new_buckets i =
    move_buckets rounds buckets new_buckets_num
      (move_bucket (buckets i) new_buckets_num new_buckets) (i + 1)

pub hash_table_expand : HashTable → HashTable
hash_table_expand this =
    let new_buckets_num = this.buckets_num * 2 % 2 ^ 32 in
    record this {
      buckets = move_buckets this.buckets_num this.buckets new_buckets_num (λ i. []) 0;
      buckets_num = new_buckets_num;
    }

-- A new entry; the load factor is 3/4.
pub insert_entry : HashTable → ℕ → ℕ → HashTable
insert_entry this key v_ptr =
    let place = key % this.buckets_num in
    let new_kv : Kv = record { key = key; v_ptr = v_ptr } in
    let this₁ = record this {
      buckets = with_bucket this.buckets place (this.buckets place ++ (new_kv ∷ []));
      size = (this.size + 1) % 2 ^ 32;
    } in
    if ltb (3 * this₁.buckets_num) (4 * this₁.size) then hash_table_expand this₁ else this₁

-- `hash_table_put` behind the lookup: the old value, and the table.
pub put_entry : HashTable → ℕ → ℕ → Option Kv → ℕ × HashTable
put_entry this key v_ptr none = (0, insert_entry this key v_ptr)
put_entry this key v_ptr (some kv) =
    let place = key % this.buckets_num in
    (
      kv.v_ptr,
      record this {
        buckets = with_bucket this.buckets place (set_value (this.buckets place) key v_ptr);
      },
    )

pub hash_table_put : HashTable → ℕ → ℕ → ℕ × HashTable
hash_table_put this key v_ptr =
    put_entry this key v_ptr (hash_table_bucket_lookup (bucket_of this key) key)

pub remove_found : HashTable → ℕ → Option Kv → ℕ × HashTable
remove_found this key none = (0, this)
remove_found this key (some kv) =
    let place = key % this.buckets_num in
    (
      kv.v_ptr,
      record this {
        buckets = with_bucket this.buckets place (remove_entry (this.buckets place) key);
        size = (this.size + 2 ^ 32 - 1) % 2 ^ 32;
      },
    )

pub hash_table_remove : HashTable → ℕ → ℕ × HashTable
hash_table_remove this key =
    remove_found this key (hash_table_bucket_lookup (bucket_of this key) key)

-- An iterator: `next_bucket` and `next_index` are one more than `bucket_index` and `index`, which start at -1; `node` is the rest of
-- its bucket from the current entry on, and empty for a null pointer.
pub record HashTableIterator : Type 0 where
  pub map : HashTable
  pub next_bucket : ℕ
  pub node : Bucket
  pub next_index : ℕ

hash_table_create_iterator : HashTable → HashTableIterator
hash_table_create_iterator map = record { map = map; next_bucket = 0; node = []; next_index = 0 }

hash_table_iterator_has_next : HashTableIterator → Bool
hash_table_iterator_has_next iter = ltb iter.next_index iter.map.size

-- The search for a bucket that is not empty, with `rounds` buckets left; without one the function returns no value, `none`.
find_bucket : ℕ → HashTableIterator → Option Kv × HashTableIterator
find_bucket zero iter = (
  none,
  record iter { next_bucket = iter.next_bucket + 1; node = []; next_index = iter.next_index + 1 },
)
find_bucket (suc rounds) iter =
    let later = find_bucket rounds (record iter { next_bucket = iter.next_bucket + 1 }) in
    elim (iter.map.buckets iter.next_bucket) [
      | [] ↦ later
      | kv ∷ rest ↦ (
        some kv,
        record iter {
          next_bucket = iter.next_bucket + 1;
          node = kv ∷ rest;
          next_index = iter.next_index + 1;
        },
      )
    ]

-- The next entry of the bucket, or the result `searched` when there is none.
move_on : HashTableIterator → Bucket → Option Kv × HashTableIterator → Option Kv × HashTableIterator
move_on iter [] searched = searched
move_on iter (kv ∷ []) searched = searched
move_on iter (kv ∷ kv' ∷ rest) searched =
    (some kv', record iter { node = kv' ∷ rest; next_index = iter.next_index + 1 })

hash_table_iterator_next : HashTableIterator → Option Kv × HashTableIterator
hash_table_iterator_next iter =
    let finished = record iter {
      next_index = iter.map.size + 1;
      next_bucket = iter.map.buckets_num + 1;
      node = [];
    } in
    let searched = find_bucket (iter.map.buckets_num - iter.next_bucket) iter in
    let advanced = move_on iter iter.node searched in
    if not (ltb iter.next_index iter.map.size) then (none, finished) else advanced
