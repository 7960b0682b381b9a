-- ===== src/Stdlib/Compare.antt =====
-- `strcmp` decides whether two strings are equal.
use luck_os.Common.{
  ℕ, zero, suc, ◌+◌, ◌<◌, ◌≡◌, ◌≢◌, refl, some, List, [], ◌∷◌, arith, ◌==◌, length, subst, true,
  false, ℕ_discrete, Bool-cases, inl, inr, ◌⊎◌,
}
use luck_os.Common.Int.{ℤ, pos, negsuc}
use luck_os.Kheap.Bytes.{Memory}
use luck_os.Stdlib.{strcmp, strcmp_from, char_less}
use luck_os.Stdlib.Strings.{IsString}

-- The result of `strcmp` for the strings `cs` and `ds`.
abbrev pub Compares : List ℕ → List ℕ → ℤ → Type 0
Compares cs ds z = ((z ≡ pos 0) × (cs ≡ ds)) ⊎ ((z ≢ pos 0) × (cs ≢ ds))

one_ne : pos 1 ≢ pos 0
one_ne e = cc e

minus_ne : negsuc 0 ≢ pos 0
minus_ne e = cc e

Compares-cons :
    (c d : ℕ) (cs ds : List ℕ) (z : ℤ) → c ≡ d → Compares cs ds z → Compares (c ∷ cs) (d ∷ ds) z
Compares-cons c d cs ds z e (inl (zero_result, same)) = inl (zero_result, cc (e, same))
Compares-cons c d cs ds z e (inr (other_result, other)) =
    inr (other_result, λ both. other (cc both))

strcmp_from-Compares :
    (fuel : ℕ) (m : Memory) (a b i : ℕ) (cs ds : List ℕ)
    → length cs < fuel
    → IsString m (a + i) cs
    → IsString m (b + i) ds
    → (z : ℤ) × (strcmp_from fuel m a b i ≡ some z) × Compares cs ds z
unfolding strcmp_from
strcmp_from-Compares zero m a b i cs ds less s t = absurd (omega arith)
strcmp_from-Compares (suc fuel) m a b i [] [] less s t = (pos 0, rw (s, t) refl, inl (refl, refl))
strcmp_from-Compares (suc fuel) m a b i [] (d ∷ ds) less s t =
    let test : (m (b + i) == 0) ≡ false = ground (arith, t.0, t.1) in
    (pos 1, rw (s, test) refl, inr (one_ne, λ e. cc e))
strcmp_from-Compares (suc fuel) m a b i (c ∷ cs) [] less s t =
    let test : (m (a + i) == 0) ≡ false = ground (arith, s.0, s.1) in
    (pos 1, rw (test, t) refl, inr (one_ne, λ e. cc e))
strcmp_from-Compares (suc fuel) m a b i (c ∷ cs) (d ∷ ds) less s t =
    let test : (m (a + i) == 0) ≡ false = ground (arith, s.0, s.1) in
    let test' : (m (b + i) == 0) ≡ false = ground (arith, t.0, t.1) in
    elim (ℕ_discrete c d) [
      | yes e ↦
          let same : (m (a + i) == m (b + i)) ≡ true = ground (arith, s.0, t.0, e) in
          let place : a + i + 1 ≡ a + (i + 1) = omega arith in
          let place' : b + i + 1 ≡ b + (i + 1) = omega arith in
          let (z, run, done) =
            strcmp_from-Compares fuel m a b (i + 1) cs ds (omega arith)
              (subst (λ (p : ℕ). IsString m p cs) place s.3)
              (subst (λ (p : ℕ). IsString m p ds) place' t.3) in
          (z, rw (test, test', same) run, Compares-cons c d cs ds z e done)
      | no ne ↦
          let other : (m (a + i) == m (b + i)) ≡ false = ground (arith, s.0, t.0, ne) in
          let differ : (c ∷ cs) ≢ (d ∷ ds) = λ both. ne (cc both) in
          elim (Bool-cases (char_less (m (a + i)) (m (b + i)))) [
            | inl lower ↦ (negsuc 0, rw (test, test', other, lower) refl, inr (minus_ne, differ))
            | inr upper ↦ (pos 1, rw (test, test', other, upper) refl, inr (one_ne, differ))
          ]
    ]

-- With fuel for the first string and one more, `strcmp` returns, and it returns 0 exactly for equal strings.
pub strcmp-Compares :
    (fuel : ℕ) (m : Memory) (a b : ℕ) (cs ds : List ℕ)
    → length cs < fuel
    → IsString m a cs
    → IsString m b ds
    → (z : ℤ) × (strcmp fuel m a b ≡ some z) × Compares cs ds z
unfolding strcmp
strcmp-Compares fuel m a b cs ds less s t =
    let place : a ≡ a + 0 = omega arith in
    let place' : b ≡ b + 0 = omega arith in
    strcmp_from-Compares fuel m a b 0 cs ds less (subst (λ (p : ℕ). IsString m p cs) place s)
      (subst (λ (p : ℕ). IsString m p ds) place' t)
