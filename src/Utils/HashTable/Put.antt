-- ===== src/Utils/HashTable/Put.antt =====
-- `hash_table_put` stores the value of its key.
use luck_os.Common.{
  ℕ, ◌+◌, ◌*◌, ◌%◌, ◌^◌, ◌<◌, ◌≡◌, ◌≢◌, refl, sym, ap, ◌∙◌, arith, Option, none, some, [], ◌∷◌,
  ◌++◌, ◌==◌, ltb, inl, inr, ◌⊎◌, true, false, length, Bool-cases, Option-cases,
}
use mathlib.Core.List.{append-nil}
use luck_os.Utils.HashTable.{
  Kv, Bucket, HashTable, with_bucket, value_of, hash_table_expand, insert_entry, put_entry,
  set_value, hash_table_put, hash_table_get,
}
use luck_os.Utils.HashTable.Matching.{
  matching, matching-append, first_entry, set_first, matching-set_value_self,
  matching-set_value_other,
}
use luck_os.Utils.HashTable.Expand.{AreHashed, AreHashed-snoc, entries, IsTable}
use luck_os.Utils.HashTable.Update.{
  found, found-first_entry, entries-none, IsUpdate, IsTable-of_IsUpdate, with_bucket-IsUpdate,
  expand-IsUpdate,
}

-- The table behind a put of `v_ptr`, and the result.
pub record IsPut (t : HashTable) (key v_ptr result : ℕ) (t' : HashTable) : Type 0 where
  pub valid : IsTable t'
  pub old : result ≡ hash_table_get t key
  pub here : (kv : Kv) × (found t' key ≡ some kv) × (kv.v_ptr ≡ v_ptr)
  pub others : (other : ℕ) → other ≢ key → found t' other ≡ found t other
  pub counted :
      ((found t key ≡ none) × (t'.size ≡ (t.size + 1) % 2 ^ 32))
      ⊎ ((found t key ≢ none) × (t'.size ≡ t.size))

AreHashed-set_value :
    (b : Bucket) (n i key v_ptr : ℕ) → AreHashed n i b → AreHashed n i (set_value b key v_ptr)
unfolding set_value
AreHashed-set_value [] n i key v_ptr h = tt
AreHashed-set_value (kv ∷ b) n i key v_ptr h = elim (Bool-cases (kv.key == key)) [
  | inl same ↦ rw same h
  | inr other ↦ rw other (h.0, AreHashed-set_value b n i key v_ptr h.1)
]

pub found-others :
    (t t' : HashTable) (key : ℕ) (es : Bucket)
    → IsUpdate t key es t'
    → (other : ℕ) → other ≢ key
    → found t' other ≡ found t other
found-others t t' key es update other ne =
    found-first_entry t' other
    ∙ ap (λ (b : Bucket). first_entry b) (update.others other ne)
    ∙ sym (found-first_entry t other)

pub found-here :
    (t t' : HashTable) (key : ℕ) (es : Bucket)
    → IsUpdate t key es t'
    → found t' key ≡ first_entry es
found-here t t' key es update =
    found-first_entry t' key ∙ ap (λ (b : Bucket). first_entry b) update.here

abbrev new_entry : ℕ → ℕ → Kv
new_entry key v_ptr = record { key = key; v_ptr = v_ptr }

-- The size and the entries behind an insertion.
insert_entry-IsUpdate :
    (t : HashTable) (key v_ptr : ℕ)
    → IsTable t
    → t.buckets_num * 2 < 2 ^ 32
    → found t key ≡ none
    → (IsUpdate t key (new_entry key v_ptr ∷ []) (insert_entry t key v_ptr))
      × ((insert_entry t key v_ptr).size ≡ (t.size + 1) % 2 ^ 32)
unfolding insert_entry hash_table_expand matching
insert_entry-IsUpdate t key v_ptr valid doubles absent =
    let n = t.buckets_num in
    let place = key % n in
    let kv = new_entry key v_ptr in
    let b = t.buckets place ++ (kv ∷ []) in
    let size = (t.size + 1) % 2 ^ 32 in
    let t₁ = record t { buckets = with_bucket t.buckets place b; size = size } in
    let test : (key == key) ≡ true = ground arith in
    let one : matching key (kv ∷ []) ≡ kv ∷ [] = rw test refl in
    let here : matching key b ≡ kv ∷ [] =
      matching-append key (t.buckets place) (kv ∷ [])
      ∙ ap (λ (c : Bucket). c ++ matching key (kv ∷ [])) (entries-none t key absent)
      ∙ one in
    let update =
      with_bucket-IsUpdate t key b (kv ∷ []) size valid
        (AreHashed-snoc n place (t.buckets place) kv
          (valid.hashed place (omega (arith, valid.some_bucket))) refl)
        here
        (λ other ne.
          let apart : (key == other) ≡ false = ground (arith, ne) in
          let nothing : matching other (kv ∷ []) ≡ [] = rw apart refl in
          matching-append other (t.buckets place) (kv ∷ [])
          ∙ ap (λ (c : Bucket). matching other (t.buckets place) ++ c) nothing
          ∙ append-nil (matching other (t.buckets place))) in
    elim (Bool-cases (ltb (3 * n) (4 * size))) [
      | inl full ↦
          rw full (expand-IsUpdate t key (kv ∷ []) t₁ valid (omega arith) update doubles, refl)
      | inr room ↦ rw room (update, refl)
    ]

IsPut-new :
    (t : HashTable) (key v_ptr : ℕ)
    → IsTable t
    → t.buckets_num * 2 < 2 ^ 32
    → found t key ≡ none
    → IsPut t key v_ptr 0 (insert_entry t key v_ptr)
unfolding hash_table_get
IsPut-new t key v_ptr valid doubles absent =
    let t' = insert_entry t key v_ptr in
    let (update, size) = insert_entry-IsUpdate t key v_ptr valid doubles absent in
    record {
      valid = IsTable-of_IsUpdate t key (new_entry key v_ptr ∷ []) t' valid (omega arith) update;
      old = sym (ap (λ (o : Option Kv). value_of o) absent);
      here = (new_entry key v_ptr, found-here t t' key (new_entry key v_ptr ∷ []) update, refl);
      others = found-others t t' key (new_entry key v_ptr ∷ []) update;
      counted = inl (absent, size);
    }

first_entry-set_first :
    (v_ptr : ℕ) (es : Bucket) (kv : Kv)
    → first_entry es ≡ some kv
    → (kv' : Kv) × (first_entry (set_first v_ptr es) ≡ some kv') × (kv'.v_ptr ≡ v_ptr)
unfolding set_first
first_entry-set_first v_ptr [] kv e = absurd (cc e)
first_entry-set_first v_ptr (x ∷ es) kv e = (record x { v_ptr = v_ptr }, refl, refl)

length-set_first : (v_ptr : ℕ) (es : Bucket) → length (set_first v_ptr es) ≡ length es
unfolding set_first
length-set_first v_ptr [] = refl
length-set_first v_ptr (x ∷ es) = refl

IsPut-old :
    (t : HashTable) (key v_ptr : ℕ) (kv : Kv)
    → IsTable t
    → found t key ≡ some kv
    → IsPut t key v_ptr kv.v_ptr (record t {
      buckets =
          with_bucket t.buckets
            (key % t.buckets_num)
            (set_value (t.buckets (key % t.buckets_num)) key v_ptr);
    })
unfolding hash_table_get
IsPut-old t key v_ptr kv valid present =
    let n = t.buckets_num in
    let place = key % n in
    let es = set_first v_ptr (entries t key) in
    let t' = record t {
      buckets = with_bucket t.buckets place (set_value (t.buckets place) key v_ptr);
    } in
    let update =
      with_bucket-IsUpdate t key (set_value (t.buckets place) key v_ptr) es t.size valid
        (AreHashed-set_value (t.buckets place) n place key v_ptr
          (valid.hashed place (omega (arith, valid.some_bucket))))
        (matching-set_value_self (t.buckets place) key v_ptr)
        (matching-set_value_other (t.buckets place) key v_ptr) in
    let small = valid.single key in
    let (kv', first, value) =
      first_entry-set_first v_ptr (entries t key) kv (sym (found-first_entry t key) ∙ present) in
    record {
      valid =
          IsTable-of_IsUpdate t key es t' valid
            (omega (arith, small, length-set_first v_ptr (entries t key))) update;
      old = sym (ap (λ (o : Option Kv). value_of o) present);
      here = (kv', found-here t t' key es update ∙ first, value);
      others = found-others t t' key es update;
      counted = inr (λ e. cc (sym present ∙ e), refl);
    }

-- On a table whose buckets can still be doubled, `hash_table_put` stores the value of the key, whether the table grows or
-- not: it returns the old value or null, leaves the other keys as they are, and counts a new key.
pub hash_table_put-IsPut :
    (t : HashTable) (key v_ptr : ℕ)
    → IsTable t
    → t.buckets_num * 2 < 2 ^ 32
    → IsPut t key v_ptr (hash_table_put t key v_ptr).0 (hash_table_put t key v_ptr).1
unfolding hash_table_put put_entry
hash_table_put-IsPut t key v_ptr valid doubles = elim (Option-cases (found t key)) [
  | inl absent ↦ rw absent (IsPut-new t key v_ptr valid doubles absent)
  | inr (kv, present) ↦ rw present (IsPut-old t key v_ptr kv valid present)
]
