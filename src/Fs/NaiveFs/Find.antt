-- ===== src/Fs/NaiveFs/Find.antt =====
-- The search by name finds the first file of this name.
use luck_os.Common.{
  ℕ, zero, suc, ◌+◌, ◌*◌, ◌≤◌, ◌<◌, ◌≡◌, ◌≢◌, refl, sym, Option, some, none, List, [], ◌∷◌, arith,
  inl, inr, length, ◌>>=◌, subst, false,
}
use luck_os.Common.Int.{ℤ, pos, negsuc}
use luck_os.Kheap.Bytes.{Memory}
use luck_os.Stdlib.Strings.{IsString}
use luck_os.Stdlib.Compare.{strcmp-Compares}
use luck_os.Fs.NaiveFs.{find_meta, is_zero, meta_bytes}

-- The names of the entries from `i` on; each is shorter than 64 bytes.
abbrev pub AreNames : Memory → ℕ → ℕ → List (List ℕ) → Type 0
AreNames m file_metas i [] = Unit
AreNames m file_metas i (name ∷ names) =
    (IsString m (file_metas + i * meta_bytes) name)
    × (length name < 64)
    × (AreNames m file_metas (i + 1) names)

-- The first place of `name` in `names`, from `i` on.
pub data IsFirst (name : List ℕ) : ℕ → List (List ℕ) → Option ℕ → Type 0 where
  absent : {i : ℕ} → IsFirst name i [] none
  here : {i : ℕ} {names : List (List ℕ)} → IsFirst name i (name ∷ names) (some i)
  there :
      {i : ℕ} {other : List ℕ} {names : List (List ℕ)} {found : Option ℕ}
      → other ≢ name
      → IsFirst name (i + 1) names found
      → IsFirst name i (other ∷ names) found

pub IsFirst-bound :
    (name : List ℕ) (i : ℕ) (names : List (List ℕ)) (found : Option ℕ)
    → IsFirst name i names found
    → (k : ℕ) → found ≡ some k
    → k < i + length names
IsFirst-bound name i [] found absent k e = absurd (cc e)
IsFirst-bound name i (other ∷ names) found here k e = let same : i ≡ k = cc e in omega (arith, same)
IsFirst-bound name i (other ∷ names) found (there ne rest) k e =
    let less = IsFirst-bound name (i + 1) names found rest k e in omega (arith, less)

unfoldable pub entry : ℕ → Option ℕ → Option ℕ
entry file_metas none = none
entry file_metas (some i) = some (file_metas + i * meta_bytes)

is_zero-other : (z : ℤ) → z ≢ pos 0 → is_zero z ≡ false
is_zero-other (pos zero) ne = absurd (ne refl)
is_zero-other (pos (suc n)) ne = refl
is_zero-other (negsuc n) ne = refl

pub find_meta-IsFirst :
    (fuel : ℕ) (m : Memory) (file_metas filename i : ℕ) (name : List ℕ) (names : List (List ℕ))
    → 64 ≤ fuel
    → IsString m filename name
    → AreNames m file_metas i names
    → (found : Option ℕ) × (find_meta (length names) fuel m file_metas filename i
        ≡ some (entry file_metas found))
      × IsFirst name i names found
unfolding find_meta entry
find_meta-IsFirst fuel m file_metas filename i name [] enough s t = (none, refl, absent)
find_meta-IsFirst fuel m file_metas filename i name (other ∷ names) enough s t =
    let (z, run, done) =
      strcmp-Compares fuel m (file_metas + i * meta_bytes) filename other name (omega (arith, t.1))
        t.0 s in
    elim done [
      | inl (same_result, same) ↦ (
        some i,
        rw (run, ◌>>=◌, same_result) refl,
        subst (λ (t : List ℕ). IsFirst name i (t ∷ names) (some i)) (sym same) here,
      )
      | inr (other_result, differ) ↦
          let (found, run', rest) =
            find_meta-IsFirst fuel m file_metas filename (i + 1) name names enough s t.2 in
          let test = is_zero-other z other_result in
          (found, rw (run, ◌>>=◌, test) run', there differ rest)
    ]
