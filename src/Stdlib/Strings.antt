-- ===== src/Stdlib/Strings.antt =====
-- Strings in memory, and `strlen`.
use luck_os.Common.{
  ℕ, zero, suc, ◌+◌, ◌≤◌, ◌<◌, ◌≡◌, refl, ap, ◌∙◌, some, List, [], ◌∷◌, arith, ◌==◌, length, subst,
  false,
}
use luck_os.Kheap.Bytes.{Memory}
use luck_os.Stdlib.{strlen, strlen_from}

-- The bytes `cs` and a zero stand from `a` on.
abbrev pub IsString : Memory → ℕ → List ℕ → Type 0
IsString m a [] = m a ≡ 0
IsString m a (c ∷ cs) = (m a ≡ c) × (0 < c) × (c < 256) × IsString m (a + 1) cs

pub IsString-frame :
    (m m' : Memory) (a : ℕ) (cs : List ℕ)
    → ((x : ℕ) → a ≤ x → x ≤ a + length cs → m' x ≡ m x)
    → IsString m a cs
    → IsString m' a cs
IsString-frame m m' a [] same s = same a (omega arith) (omega arith) ∙ s
IsString-frame m m' a (c ∷ cs) same s = (
  same a (omega arith) (omega arith) ∙ s.0,
  s.1,
  s.2,
  IsString-frame m m' (a + 1) cs (λ x lo hi. same x (omega arith) (omega arith)) s.3,
)

strlen_from-length :
    (fuel : ℕ) (m : Memory) (a i : ℕ) (cs : List ℕ)
    → length cs < fuel
    → IsString m (a + i) cs
    → strlen_from fuel m a i ≡ some (i + length cs)
unfolding strlen_from
strlen_from-length zero m a i cs less s = absurd (omega arith)
strlen_from-length (suc fuel) m a i [] less s = let e : i + 0 ≡ i = omega arith in rw (s, e) refl
strlen_from-length (suc fuel) m a i (c ∷ cs) less s =
    let test : (m (a + i) == 0) ≡ false = ground (arith, s.0, s.1) in
    let place : a + i + 1 ≡ a + (i + 1) = omega arith in
    let e : i + 1 + length cs ≡ i + suc (length cs) = omega arith in
    rw test (
      strlen_from-length fuel m a (i + 1) cs (omega arith)
        (subst (λ (t : ℕ). IsString m t cs) place s.3)
      ∙ ap (λ (t : ℕ). some t) e)

-- With fuel for its bytes and one more, `strlen` is the length of the string.
strlen-length :
    (fuel : ℕ) (m : Memory) (a : ℕ) (cs : List ℕ)
    → length cs < fuel
    → IsString m a cs
    → strlen fuel m a ≡ some (length cs)
unfolding strlen
strlen-length fuel m a cs less s =
    let place : a ≡ a + 0 = omega arith in
    let e : 0 + length cs ≡ length cs = omega arith in
    strlen_from-length fuel m a 0 cs less (subst (λ (t : ℕ). IsString m t cs) place s)
    ∙ ap (λ (t : ℕ). some t) e
