-- ===== src/Utils/HashTable/Matching.antt =====
-- The entries of a key, and how the operations on a bucket change them.
use luck_os.Common.{
  ℕ, ◌≡◌, ◌≢◌, refl, ap, arith, Option, none, some, [], ◌∷◌, ◌++◌, ◌==◌, if◌then◌else◌, Bool-cases,
  inl, inr, false,
}
use luck_os.Utils.HashTable.{Kv, Bucket, hash_table_bucket_lookup, set_value, remove_entry}

-- The entries with the key, in their order.
unfoldable pub matching : ℕ → Bucket → Bucket
matching key [] = []
matching key (kv ∷ bucket) = if kv.key == key then kv ∷ matching key bucket else matching key bucket

pub matching-append :
    (key : ℕ) (b c : Bucket) → matching key (b ++ c) ≡ matching key b ++ matching key c
unfolding matching
matching-append key [] c = refl
matching-append key (kv ∷ b) c = elim (Bool-cases (kv.key == key)) [
  | inl same ↦ rw same (ap (λ (t : Bucket). kv ∷ t) (matching-append key b c))
  | inr other ↦ rw other (matching-append key b c)
]

-- The first entry of a list.
abbrev pub first_entry : Bucket → Option Kv
first_entry [] = none
first_entry (kv ∷ bucket) = some kv

pub lookup-first_entry :
    (b : Bucket) (key : ℕ) → hash_table_bucket_lookup b key ≡ first_entry (matching key b)
unfolding hash_table_bucket_lookup matching
lookup-first_entry [] key = refl
lookup-first_entry (kv ∷ b) key = elim (Bool-cases (kv.key == key)) [
  | inl same ↦ rw same refl
  | inr other ↦ rw other (lookup-first_entry b key)
]

-- The first entry gets the value.
unfoldable pub set_first : ℕ → Bucket → Bucket
set_first v_ptr [] = []
set_first v_ptr (kv ∷ b) = record kv { v_ptr = v_ptr } ∷ b

pub matching-set_value_self :
    (b : Bucket) (key v_ptr : ℕ)
    → matching key (set_value b key v_ptr) ≡ set_first v_ptr (matching key b)
unfolding matching set_value set_first
matching-set_value_self [] key v_ptr = refl
matching-set_value_self (kv ∷ b) key v_ptr = elim (Bool-cases (kv.key == key)) [
  | inl same ↦ rw (same, same) refl
  | inr other ↦ rw (other, other) (matching-set_value_self b key v_ptr)
]

pub matching-set_value_other :
    (b : Bucket) (key v_ptr other : ℕ)
    → other ≢ key
    → matching other (set_value b key v_ptr) ≡ matching other b
unfolding matching set_value
matching-set_value_other [] key v_ptr other ne = refl
matching-set_value_other (kv ∷ b) key v_ptr other ne = elim (Bool-cases (kv.key == key)) [
  | inl same ↦
      let e : kv.key ≡ key = ground (arith, same) in
      let test : (kv.key == other) ≡ false = ground (arith, e, ne) in rw (same, test) refl
  | inr different ↦
      let rest = matching-set_value_other b key v_ptr other ne in
      elim (Bool-cases (kv.key == other)) [
        | inl same ↦ rw (different, same) (ap (λ (t : Bucket). kv ∷ t) rest)
        | inr apart ↦ rw (different, apart) rest
      ]
]

-- The rest of a list.
abbrev pub rest_entries : Bucket → Bucket
rest_entries [] = []
rest_entries (kv ∷ b) = b

pub matching-remove_entry_self :
    (b : Bucket) (key : ℕ) → matching key (remove_entry b key) ≡ rest_entries (matching key b)
unfolding matching remove_entry
matching-remove_entry_self [] key = refl
matching-remove_entry_self (kv ∷ b) key = elim (Bool-cases (kv.key == key)) [
  | inl same ↦ rw same refl
  | inr other ↦ rw (other, other) (matching-remove_entry_self b key)
]

pub matching-remove_entry_other :
    (b : Bucket) (key other : ℕ)
    → other ≢ key
    → matching other (remove_entry b key) ≡ matching other b
unfolding matching remove_entry
matching-remove_entry_other [] key other ne = refl
matching-remove_entry_other (kv ∷ b) key other ne = elim (Bool-cases (kv.key == key)) [
  | inl same ↦
      let e : kv.key ≡ key = ground (arith, same) in
      let test : (kv.key == other) ≡ false = ground (arith, e, ne) in rw (same, test) refl
  | inr different ↦
      let rest = matching-remove_entry_other b key other ne in
      elim (Bool-cases (kv.key == other)) [
        | inl same ↦ rw (different, same) (ap (λ (t : Bucket). kv ∷ t) rest)
        | inr apart ↦ rw (different, apart) rest
      ]
]
