-- ===== src/Utils/HashTable/Update.antt =====
-- A change of the entries of one key.
use luck_os.Common.{
  ℕ, ◌*◌, ◌%◌, ◌^◌, ◌≤◌, ◌<◌, ◌≡◌, ◌≢◌, refl, sym, ap, ◌∙◌, arith, Option, none, [], ◌∷◌, ◌==◌,
  ℕ_discrete, true, false, subst, length,
}
use luck_os.Utils.HashTable.{
  Kv, Bucket, HashTable, with_bucket, bucket_of, hash_table_bucket_lookup, hash_table_expand,
}
use luck_os.Utils.HashTable.Matching.{matching, first_entry, lookup-first_entry}
use luck_os.Utils.HashTable.Expand.{
  AreHashed, AllHashed, entries, IsTable, hash_table_expand-IsExpanded,
}

-- The entry that a lookup of the key finds.
abbrev pub found : HashTable → ℕ → Option Kv
found t key = hash_table_bucket_lookup (bucket_of t key) key

pub found-first_entry : (t : HashTable) (key : ℕ) → found t key ≡ first_entry (entries t key)
found-first_entry t key = lookup-first_entry (bucket_of t key) key

first_entry-none : (es : Bucket) → first_entry es ≡ none → es ≡ []
first_entry-none [] e = refl
first_entry-none (kv ∷ es) e = absurd (cc e)

pub entries-none : (t : HashTable) (key : ℕ) → found t key ≡ none → entries t key ≡ []
entries-none t key e = first_entry-none (entries t key) (sym (found-first_entry t key) ∙ e)

-- The table `t'` has the entries `es` for the key, and those of `t` for the others.
pub record IsUpdate (t : HashTable) (key : ℕ) (es : Bucket) (t' : HashTable) : Type 0 where
  pub some_bucket : 0 < t'.buckets_num
  pub hashed : AllHashed t'.buckets_num t'.buckets
  pub here : entries t' key ≡ es
  pub others : (other : ℕ) → other ≢ key → entries t' other ≡ entries t other

pub IsTable-of_IsUpdate :
    (t : HashTable) (key : ℕ) (es : Bucket) (t' : HashTable)
    → IsTable t
    → length es ≤ 1
    → IsUpdate t key es t'
    → IsTable t'
IsTable-of_IsUpdate t key es t' valid small update = record {
  some_bucket = update.some_bucket;
  hashed = update.hashed;
  single = λ other. elim (ℕ_discrete other key) [
    | yes e ↦
        let same : entries t' other ≡ es = ap (λ (k : ℕ). entries t' k) e ∙ update.here in
        let size : length (entries t' other) ≡ length es = ap (length {A = Kv}) same in
        omega (arith, size, small)
    | no ne ↦
        let size : length (entries t' other) ≡ length (entries t other) =
          ap (length {A = Kv}) (update.others other ne) in
        let small' = valid.single other in omega (arith, size, small')
  ];
}

-- The bucket of the key is exchanged.
pub with_bucket-IsUpdate :
    (t : HashTable) (key : ℕ) (b : Bucket) (es : Bucket) (size : ℕ)
    → IsTable t
    → AreHashed t.buckets_num (key % t.buckets_num) b
    → matching key b ≡ es
    → ((other : ℕ) → other ≢ key → matching other b ≡ matching other (bucket_of t key))
    → IsUpdate t key es
        (record t { buckets = with_bucket t.buckets (key % t.buckets_num) b; size = size })
with_bucket-IsUpdate t key b es size valid hashed here others =
    let n = t.buckets_num in
    let place = key % n in
    record {
      some_bucket = valid.some_bucket;
      hashed = λ i less. elim (ℕ_discrete i place) [
        | yes e ↦
            let test : (i == place) ≡ true = ground (arith, e) in
            rw test (subst (λ (k : ℕ). AreHashed n k b) (sym e) hashed)
        | no ne ↦
            let test : (i == place) ≡ false = ground (arith, ne) in rw test (valid.hashed i less)
      ];
      here = let test : (place == place) ≡ true = ground arith in rw test here;
      others = λ other ne. elim (ℕ_discrete (other % n) place) [
        | yes e ↦
            let test : (other % n == place) ≡ true = ground (arith, e) in
            rw test (others other ne ∙ ap (λ (k : ℕ). matching other (t.buckets k)) (sym e))
        | no apart ↦ let test : (other % n == place) ≡ false = ground (arith, apart) in rw test refl
      ];
    }

pub expand-IsUpdate :
    (t : HashTable) (key : ℕ) (es : Bucket) (t₁ : HashTable)
    → IsTable t
    → length es ≤ 1
    → IsUpdate t key es t₁
    → t₁.buckets_num * 2 < 2 ^ 32
    → IsUpdate t key es (hash_table_expand t₁)
expand-IsUpdate t key es t₁ valid small update doubles =
    let expanded =
      hash_table_expand-IsExpanded t₁ (IsTable-of_IsUpdate t key es t₁ valid small update)
        doubles in
    record {
      some_bucket = omega (arith, expanded.doubled, update.some_bucket);
      hashed = expanded.rehashed;
      here = expanded.same key ∙ update.here;
      others = λ other ne. expanded.same other ∙ update.others other ne;
    }
