-- ===== src/Utils/HashTable/Expand.antt =====
-- Moving the entries into twice as many buckets changes no key.
use luck_os.Common.{
  ℕ, zero, suc, ◌+◌, ◌*◌, ◌%◌, ◌^◌, ◌≤◌, ◌<◌, ◌≡◌, ◌≢◌, refl, sym, ap, ◌∙◌, arith, [], ◌∷◌, ◌++◌,
  ◌==◌, ℕ_discrete, true, false, subst, length,
}
use mathlib.Core.List.{append_assoc, append-nil}
use luck_os.Utils.HashTable.{
  Kv, Bucket, HashTable, with_bucket, move_bucket, move_buckets, hash_table_expand, bucket_of,
}
use luck_os.Utils.HashTable.Matching.{matching, matching-append}

-- Each entry is in the bucket of its key, for `n` buckets.
abbrev pub AreHashed : ℕ → ℕ → Bucket → Type 0
AreHashed n i [] = Unit
AreHashed n i (kv ∷ bucket) = (kv.key % n ≡ i) × (AreHashed n i bucket)

pub AreHashed-snoc :
    (n i : ℕ) (bucket : Bucket) (kv : Kv)
    → AreHashed n i bucket
    → kv.key % n ≡ i
    → AreHashed n i (bucket ++ (kv ∷ []))
AreHashed-snoc n i [] kv h e = (e, tt)
AreHashed-snoc n i (other ∷ bucket) kv h e = (h.0, AreHashed-snoc n i bucket kv h.1 e)

-- A bucket has no entries of keys of other buckets.
matching-hashed :
    (n i key : ℕ) (bucket : Bucket) → AreHashed n i bucket → key % n ≢ i → matching key bucket ≡ []
unfolding matching
matching-hashed n i key [] h ne = refl
matching-hashed n i key (kv ∷ bucket) h ne =
    let other : kv.key ≢ key = λ e. ne (ap (λ (t : ℕ). t % n) (sym e) ∙ h.0) in
    let test : (kv.key == key) ≡ false = ground (arith, other) in
    rw test (matching-hashed n i key bucket h.1 ne)

-- The entries of `key` when `kv` was put at the end of its bucket.
matching-with_bucket :
    (buckets : ℕ → Bucket) (n key : ℕ) (kv : Kv)
    → matching key (with_bucket buckets (kv.key % n) (buckets (kv.key % n) ++ (kv ∷ [])) (key % n))
      ≡ matching key (buckets (key % n)) ++ matching key (kv ∷ [])
matching-with_bucket buckets n key kv = elim (ℕ_discrete (key % n) (kv.key % n)) [
  | yes e ↦
      let test : (key % n == kv.key % n) ≡ true = ground (arith, e) in
      rw test (
        matching-append key (buckets (kv.key % n)) (kv ∷ [])
        ∙ ap (λ (t : ℕ). matching key (buckets t) ++ matching key (kv ∷ [])) (sym e))
  | no ne ↦
      let test : (key % n == kv.key % n) ≡ false = ground (arith, ne) in
      let none_here : matching key (kv ∷ []) ≡ [] =
        matching-hashed n (kv.key % n) key (kv ∷ []) (refl, tt) ne in
      rw test (
        sym (
          ap (λ (t : Bucket). matching key (buckets (key % n)) ++ t) none_here
          ∙ append-nil (matching key (buckets (key % n)))))
]

matching-move_bucket :
    (bucket : Bucket) (n : ℕ) (buckets : ℕ → Bucket) (key : ℕ)
    → matching key (move_bucket bucket n buckets (key % n))
      ≡ matching key (buckets (key % n)) ++ matching key bucket
unfolding move_bucket matching
matching-move_bucket [] n buckets key = sym (append-nil (matching key (buckets (key % n))))
matching-move_bucket (kv ∷ bucket) n buckets key =
    let place = kv.key % n in
    let step = with_bucket buckets place (buckets place ++ (kv ∷ [])) in
    matching-move_bucket bucket n step key
    ∙ ap (λ (t : Bucket). t ++ matching key bucket) (matching-with_bucket buckets n key kv)
    ∙ append_assoc (matching key (buckets (key % n))) (matching key (kv ∷ [])) (matching key bucket)
    ∙ ap (λ (t : Bucket). matching key (buckets (key % n)) ++ t)
        (sym (matching-append key (kv ∷ []) bucket))

-- The old buckets hold the entries by `old` buckets.
abbrev pub AllHashed : ℕ → (ℕ → Bucket) → Type 0
AllHashed n buckets = (i : ℕ) → i < n → AreHashed n i (buckets i)

-- Behind the old bucket of a key, the loop adds no entry of it.
move_buckets-passed :
    (rounds : ℕ) (old : ℕ → Bucket) (m n : ℕ) (buckets : ℕ → Bucket) (i key : ℕ)
    → AllHashed m old
    → i + rounds ≡ m
    → key % m < i
    → matching key (move_buckets rounds old n buckets i (key % n))
      ≡ matching key (buckets (key % n))
unfolding move_buckets
move_buckets-passed zero old m n buckets i key hashed size passed = refl
move_buckets-passed (suc rounds) old m n buckets i key hashed size passed =
    let none_here : matching key (old i) ≡ [] =
      matching-hashed m i key (old i) (hashed i (omega arith)) (λ e. omega (arith, e, passed)) in
    move_buckets-passed rounds old m n (move_bucket (old i) n buckets) (i + 1) key hashed
      (omega arith) (omega (arith, passed))
    ∙ matching-move_bucket (old i) n buckets key
    ∙ ap (λ (t : Bucket). matching key (buckets (key % n)) ++ t) none_here
    ∙ append-nil (matching key (buckets (key % n)))

-- Up to the old bucket of a key, its entries are still to come.
move_buckets-coming :
    (rounds : ℕ) (old : ℕ → Bucket) (m n : ℕ) (buckets : ℕ → Bucket) (i key : ℕ)
    → AllHashed m old
    → i + rounds ≡ m
    → i ≤ key % m
    → key % m < m
    → matching key (move_buckets rounds old n buckets i (key % n))
      ≡ matching key (buckets (key % n)) ++ matching key (old (key % m))
unfolding move_buckets
move_buckets-coming zero old m n buckets i key hashed size low high =
    absurd (omega (arith, low, high))
move_buckets-coming (suc rounds) old m n buckets i key hashed size low high =
    let next = move_bucket (old i) n buckets in
    elim (ℕ_discrete (key % m) i) [
      | yes e ↦
          move_buckets-passed rounds old m n next (i + 1) key hashed (omega arith)
            (omega (arith, e))
          ∙ matching-move_bucket (old i) n buckets key
          ∙ ap (λ (t : ℕ). matching key (buckets (key % n)) ++ matching key (old t)) (sym e)
      | no ne ↦
          let none_here : matching key (old i) ≡ [] =
            matching-hashed m i key (old i) (hashed i (omega (arith, low, high))) ne in
          let first =
            matching-move_bucket (old i) n buckets key
            ∙ ap (λ (t : Bucket). matching key (buckets (key % n)) ++ t) none_here
            ∙ append-nil (matching key (buckets (key % n))) in
          move_buckets-coming rounds old m n next (i + 1) key hashed (omega arith)
            (omega (arith, low, ne)) high
          ∙ ap (λ (t : Bucket). t ++ matching key (old (key % m))) first
    ]

move_bucket-AllHashed :
    (bucket : Bucket) (n : ℕ) (buckets : ℕ → Bucket)
    → AllHashed n buckets
    → AllHashed n (move_bucket bucket n buckets)
unfolding move_bucket
move_bucket-AllHashed [] n buckets hashed = hashed
move_bucket-AllHashed (kv ∷ bucket) n buckets hashed =
    let place = kv.key % n in
    let step = with_bucket buckets place (buckets place ++ (kv ∷ [])) in
    move_bucket-AllHashed bucket n step (λ i less. elim (ℕ_discrete i place) [
      | yes e ↦
          let test : (i == place) ≡ true = ground (arith, e) in
          rw test (
            subst (λ (t : ℕ). AreHashed n i (buckets t ++ (kv ∷ []))) e
              (AreHashed-snoc n i (buckets i) kv (hashed i less) (sym e)))
      | no ne ↦ let test : (i == place) ≡ false = ground (arith, ne) in rw test (hashed i less)
    ])

move_buckets-AllHashed :
    (rounds : ℕ) (old : ℕ → Bucket) (n : ℕ) (buckets : ℕ → Bucket) (i : ℕ)
    → AllHashed n buckets
    → AllHashed n (move_buckets rounds old n buckets i)
unfolding move_buckets
move_buckets-AllHashed zero old n buckets i hashed = hashed
move_buckets-AllHashed (suc rounds) old n buckets i hashed =
    move_buckets-AllHashed rounds old n (move_bucket (old i) n buckets) (i + 1)
      (move_bucket-AllHashed (old i) n buckets hashed)

-- The entries of `key` in the table.
abbrev pub entries : HashTable → ℕ → Bucket
entries t key = matching key (bucket_of t key)

-- Each entry is in the bucket of its key, and each key has one entry at most.
pub record IsTable (t : HashTable) : Type 0 where
  pub some_bucket : 0 < t.buckets_num
  pub hashed : AllHashed t.buckets_num t.buckets
  pub single : (key : ℕ) → length (entries t key) ≤ 1

-- `hash_table_expand` keeps the entries of each key, and puts them into their new buckets.
pub record IsExpanded (t t' : HashTable) : Type 0 where
  pub same : (key : ℕ) → entries t' key ≡ entries t key
  pub doubled : t'.buckets_num ≡ t.buckets_num * 2
  pub rehashed : AllHashed t'.buckets_num t'.buckets
  pub same_size : t'.size ≡ t.size

pub hash_table_expand-IsExpanded :
    (t : HashTable) → IsTable t → t.buckets_num * 2 < 2 ^ 32 → IsExpanded t (hash_table_expand t)
unfolding hash_table_expand matching
hash_table_expand-IsExpanded t valid doubles =
    let m = t.buckets_num in
    let n = m * 2 % 2 ^ 32 in
    let twice : n ≡ m * 2 = omega (arith, doubles) in
    record {
      same = λ key.
          move_buckets-coming m t.buckets m n (λ i. []) 0 key valid.hashed (omega arith)
            (omega arith) (omega (arith, valid.some_bucket));
      doubled = twice;
      rehashed = move_buckets-AllHashed m t.buckets n (λ i. []) 0 (λ i less. tt);
      same_size = refl;
    }
