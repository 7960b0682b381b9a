-- ===== src/Stdlib/Copy.antt =====
-- `memcpy` and `strcpy` between places that do not overlap.
use luck_os.Common.{
  ℕ, zero, suc, ◌+◌, ◌≤◌, ◌<◌, ◌≡◌, refl, sym, ap, ◌∙◌, some, List, [], ◌∷◌, arith, ◌==◌, length,
  ◌⊎◌, inl, subst, true, false, ℕ_discrete,
}
use luck_os.Kheap.Bytes.{Memory, write8, read8-write8_self, read8-write8_apart}
use luck_os.Stdlib.{memcpy, memcpy_from, strcpy, strcpy_from}
use luck_os.Stdlib.Strings.{IsString, IsString-frame}

abbrev pub AreBytes : Memory → Type 0
AreBytes m = (x : ℕ) → m x < 256

-- `m'` is `m` outside of the `n` bytes at `a`.
abbrev pub SameApart : Memory → Memory → ℕ → ℕ → Type 0
SameApart m m' a n = (x : ℕ) → (x < a) ⊎ (a + n ≤ x) → m' x ≡ m x

-- The `n` bytes at `a` and those at `b` have none in common.
abbrev pub AreDisjoint : ℕ → ℕ → ℕ → ℕ → Type 0
AreDisjoint a n b k = (a + n ≤ b) ⊎ (b + k ≤ a)

pub write8-AreBytes : (m : Memory) (a v : ℕ) → AreBytes m → AreBytes (write8 m a v)
unfolding write8
write8-AreBytes m a v h x = let small = h x in ground arith

memcpy_from-AreBytes :
    (rounds : ℕ) (m : Memory) (dst src i : ℕ)
    → AreBytes m
    → AreBytes (memcpy_from rounds m dst src i)
unfolding memcpy_from
memcpy_from-AreBytes zero m dst src i h = h
memcpy_from-AreBytes (suc rounds) m dst src i h =
    memcpy_from-AreBytes rounds (write8 m (dst + i) (m (src + i))) dst src (i + 1)
      (write8-AreBytes m (dst + i) (m (src + i)) h)

pub memcpy-AreBytes : (m : Memory) (dst src num : ℕ) → AreBytes m → AreBytes (memcpy m dst src num)
unfolding memcpy
memcpy-AreBytes m dst src num h = memcpy_from-AreBytes num m dst src 0 h

write8-byte : (m : Memory) (a v : ℕ) → v < 256 → write8 m a v a ≡ v
write8-byte m a v h = read8-write8_self m a v h

-- `m'` has the `n` bytes of `m` at `src` also at `dst`, and is else `m`.
pub record IsCopy (m : Memory) (dst src n : ℕ) (m' : Memory) : Type 0 where
  pub copied : (k : ℕ) → k < n → m' (dst + k) ≡ m (src + k)
  pub others : SameApart m m' dst n

memcpy_from-IsCopy :
    (rounds : ℕ) (m m₀ : Memory) (dst src i n : ℕ)
    → i + rounds ≡ n
    → AreBytes m₀
    → AreDisjoint dst n src n
    → IsCopy m₀ dst src i m
    → IsCopy m₀ dst src n (memcpy_from rounds m dst src i)
unfolding memcpy_from
memcpy_from-IsCopy zero m m₀ dst src i n e bytes apart done =
    let last : i ≡ n = omega arith in subst (λ (t : ℕ). IsCopy m₀ dst src t m) last done
memcpy_from-IsCopy (suc rounds) m m₀ dst src i n e bytes apart done =
    let m' = write8 m (dst + i) (m (src + i)) in
    let source : m (src + i) ≡ m₀ (src + i) = done.others (src + i) (omega (arith, apart)) in
    let small : m (src + i) < 256 = omega (arith, source, bytes (src + i)) in
    memcpy_from-IsCopy rounds m' m₀ dst src (i + 1) n (omega arith) bytes apart (record {
      copied = λ k less. elim (ℕ_discrete k i) [
        | yes same ↦
            ap (λ (t : ℕ). m' (dst + t)) same
            ∙ write8-byte m (dst + i) (m (src + i)) small
            ∙ source
            ∙ ap (λ (t : ℕ). m₀ (src + t)) (sym same)
        | no other ↦
            read8-write8_apart m (dst + i) (m (src + i)) (dst + k) (ground arith)
            ∙ done.copied k (ground arith)
      ];
      others = λ x out.
          read8-write8_apart m (dst + i) (m (src + i)) x (omega (arith, out))
          ∙ done.others x (omega (arith, out));
    })

-- Between places that do not overlap, `memcpy` copies the bytes and changes no others.
pub memcpy-IsCopy :
    (m : Memory) (dst src n : ℕ)
    → AreBytes m
    → AreDisjoint dst n src n
    → IsCopy m dst src n (memcpy m dst src n)
unfolding memcpy
memcpy-IsCopy m dst src n bytes apart =
    memcpy_from-IsCopy n m m dst src 0 n (omega arith) bytes apart
      (record { copied = λ k less. absurd (omega arith); others = λ x out. refl })

-- `strcpy` of the string `cs` from `src` to `dst`.
pub record IsStringCopy (m : Memory) (dst src num : ℕ) (cs : List ℕ) (m' : Memory) : Type 0 where
  pub there : IsString m' dst cs
  pub others : SameApart m m' dst (length cs + 1)

strcpy_from-IsStringCopy :
    (fuel : ℕ) (m : Memory) (dst src num : ℕ) (cs : List ℕ)
    → length cs < fuel
    → AreDisjoint dst (length cs + 1) src (length cs + 1)
    → IsString m src cs
    → (m' : Memory) × (strcpy_from fuel m dst src num ≡ some (num + length cs, m'))
      × IsStringCopy m dst src num cs m'
unfolding strcpy_from
strcpy_from-IsStringCopy zero m dst src num cs less apart s = absurd (omega arith)
strcpy_from-IsStringCopy (suc fuel) m dst src num [] less apart s =
    let e : num ≡ num + 0 = omega arith in
    let test : (m src == 0) ≡ true = ground (arith, s) in
    (
      write8 m dst (m src),
      rw test (ap (λ (t : ℕ). some (t, write8 m dst (m src))) e),
      record {
        there = write8-byte m dst (m src) (omega (arith, s)) ∙ s;
        others = λ x out. read8-write8_apart m dst (m src) x (omega (arith, out));
      },
    )
strcpy_from-IsStringCopy (suc fuel) m dst src num (c ∷ cs) less apart s =
    let test : (m src == 0) ≡ false = ground (arith, s.0, s.1) in
    let m₁ = write8 m dst (m src) in
    let e : num + 1 + length cs ≡ num + suc (length cs) = omega arith in
    let kept : IsString m₁ (src + 1) cs =
      IsString-frame m m₁ (src + 1) cs
        (λ x lo hi. read8-write8_apart m dst (m src) x (omega (arith, apart))) s.3 in
    let (m', run, done) =
      strcpy_from-IsStringCopy fuel m₁ (dst + 1) (src + 1) (num + 1) cs (omega arith)
        (omega (arith, apart)) kept in
    (
      m',
      rw test (run ∙ ap (λ (t : ℕ). some (t, m')) e),
      record {
        there = (
          done.others dst (inl (omega arith))
              ∙ write8-byte m dst (m src) (omega (arith, s.0, s.2))
              ∙ s.0,
          s.1,
          s.2,
          done.there,
        );
        others = λ x out.
            done.others x (omega (arith, out))
            ∙ read8-write8_apart m dst (m src) x (omega (arith, out));
      },
    )

-- Between places that do not overlap, `strcpy` copies the string, returns its length, and changes no other bytes.
pub strcpy-IsStringCopy :
    (fuel : ℕ) (m : Memory) (dst src : ℕ) (cs : List ℕ)
    → length cs < fuel
    → AreDisjoint dst (length cs + 1) src (length cs + 1)
    → IsString m src cs
    → (m' : Memory) × (strcpy fuel m dst src ≡ some (length cs, m'))
      × IsStringCopy m dst src 0 cs m'
unfolding strcpy
strcpy-IsStringCopy fuel m dst src cs less apart s =
    let (m', run, done) = strcpy_from-IsStringCopy fuel m dst src 0 cs less apart s in
    let e : 0 + length cs ≡ length cs = omega arith in
    (m', run ∙ ap (λ (t : ℕ). some (t, m')) e, done)
