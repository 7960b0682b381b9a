-- ===== src/Utils/HashTable/Remove.antt =====
-- `hash_table_remove` takes out the entry of its key, and a new table has none.
use luck_os.Common.{
  ℕ, ◌+◌, ◌-◌, ◌%◌, ◌^◌, ◌≤◌, ◌≡◌, ◌≢◌, refl, sym, ap, ◌∙◌, arith, Option, none, some, [], ◌∷◌,
  ◌==◌, inl, inr, ◌⊎◌, length, Bool-cases, Option-cases,
}
use luck_os.Utils.HashTable.{
  Kv, Bucket, HashTable, with_bucket, value_of, remove_entry, remove_found, hash_table_remove,
  hash_table_get, hash_table_init, hash_table_bucket_lookup,
}
use luck_os.Utils.HashTable.Matching.{
  matching, first_entry, rest_entries, matching-remove_entry_self, matching-remove_entry_other,
}
use luck_os.Utils.HashTable.Expand.{AreHashed, entries, IsTable}
use luck_os.Utils.HashTable.Update.{found, IsTable-of_IsUpdate, with_bucket-IsUpdate}
use luck_os.Utils.HashTable.Put.{found-here, found-others}

-- The table behind a removal, and the result.
pub record IsRemoved (t : HashTable) (key result : ℕ) (t' : HashTable) : Type 0 where
  pub valid : IsTable t'
  pub old : result ≡ hash_table_get t key
  pub gone : found t' key ≡ none
  pub others : (other : ℕ) → other ≢ key → found t' other ≡ found t other
  pub counted :
      ((found t key ≡ none) × (t' ≡ t))
      ⊎ ((found t key ≢ none) × (t'.size ≡ (t.size + 2 ^ 32 - 1) % 2 ^ 32))

AreHashed-remove_entry :
    (b : Bucket) (n i key : ℕ) → AreHashed n i b → AreHashed n i (remove_entry b key)
unfolding remove_entry
AreHashed-remove_entry [] n i key h = tt
AreHashed-remove_entry (kv ∷ b) n i key h = elim (Bool-cases (kv.key == key)) [
  | inl same ↦ rw same h.1
  | inr other ↦ rw other (h.0, AreHashed-remove_entry b n i key h.1)
]

first_entry-rest : (es : Bucket) → length es ≤ 1 → first_entry (rest_entries es) ≡ none
first_entry-rest [] small = refl
first_entry-rest (x ∷ []) small = refl
first_entry-rest (x ∷ y ∷ es) small = absurd (omega (arith, small))

length-rest : (es : Bucket) → length (rest_entries es) ≤ length es
length-rest [] = omega arith
length-rest (x ∷ es) = omega arith

IsRemoved-present :
    (t : HashTable) (key : ℕ) (kv : Kv)
    → IsTable t
    → found t key ≡ some kv
    → IsRemoved t key kv.v_ptr (record t {
      buckets =
          with_bucket t.buckets
            (key % t.buckets_num)
            (remove_entry (t.buckets (key % t.buckets_num)) key);
      size = (t.size + 2 ^ 32 - 1) % 2 ^ 32;
    })
unfolding hash_table_get
IsRemoved-present t key kv valid present =
    let n = t.buckets_num in
    let place = key % n in
    let b = remove_entry (t.buckets place) key in
    let size = (t.size + 2 ^ 32 - 1) % 2 ^ 32 in
    let es = rest_entries (entries t key) in
    let t' = record t { buckets = with_bucket t.buckets place b; size = size } in
    let update =
      with_bucket-IsUpdate t key b es size valid
        (AreHashed-remove_entry (t.buckets place) n place key
          (valid.hashed place (omega (arith, valid.some_bucket))))
        (matching-remove_entry_self (t.buckets place) key)
        (matching-remove_entry_other (t.buckets place) key) in
    let small = valid.single key in
    record {
      valid =
          IsTable-of_IsUpdate t key es t' valid (omega (arith, small, length-rest (entries t key)))
            update;
      old = sym (ap (λ (o : Option Kv). value_of o) present);
      gone = found-here t t' key es update ∙ first_entry-rest (entries t key) small;
      others = found-others t t' key es update;
      counted = inr (λ e. cc (sym present ∙ e), refl);
    }

IsRemoved-absent : (t : HashTable) (key : ℕ) → IsTable t → found t key ≡ none → IsRemoved t key 0 t
unfolding hash_table_get
IsRemoved-absent t key valid absent = record {
  valid = valid;
  old = sym (ap (λ (o : Option Kv). value_of o) absent);
  gone = absent;
  others = λ other ne. refl;
  counted = inl (absent, refl);
}

-- `hash_table_remove` returns the value of the key, or null, and leaves no entry of it; the other keys stay as they are.
pub hash_table_remove-IsRemoved :
    (t : HashTable) (key : ℕ)
    → IsTable t
    → IsRemoved t key (hash_table_remove t key).0 (hash_table_remove t key).1
unfolding hash_table_remove remove_found
hash_table_remove-IsRemoved t key valid = elim (Option-cases (found t key)) [
  | inl absent ↦ rw absent (IsRemoved-absent t key valid absent)
  | inr (kv, present) ↦ rw present (IsRemoved-present t key kv valid present)
]

pub hash_table_init-IsTable : IsTable hash_table_init
unfolding hash_table_init matching
hash_table_init-IsTable = record {
  some_bucket = omega arith;
  hashed = λ i less. tt;
  single = λ key. omega arith;
}

pub hash_table_init-get : (key : ℕ) → hash_table_get hash_table_init key ≡ 0
unfolding hash_table_get hash_table_init hash_table_bucket_lookup
hash_table_init-get key = refl
