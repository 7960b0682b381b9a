-- ===== src/Elf/Load.antt =====
-- `load_elf` copies the segments of a program to their places.
use luck_os.Common.{
  ℕ, zero, suc, ◌+◌, ◌%◌, ◌^◌, ◌≤◌, ◌<◌, ◌≡◌, ◌≢◌, refl, sym, ap, ◌∙◌, List, [], ◌∷◌, arith, length,
  ◌⊎◌, true, false, ◌==◌, ltb, some, ◌>>=◌, ℕ_discrete,
}
use luck_os.Common.Int.{pos, negsuc}
use luck_os.Kheap.Bytes.{
  Memory, read32, read32_congr, write32, read32-write32_self, read8-write32_apart,
}
use luck_os.Stdlib.{memcpy}
use luck_os.Stdlib.Copy.{AreBytes, AreDisjoint, IsCopy, memcpy-IsCopy, memcpy-AreBytes}
use luck_os.Elf.{
  read16, e_entry, e_phoff, e_phentsize, e_phnum, p_type, p_offset, p_vaddr, p_filesz,
  load_segments, load_elf,
}

pub record Segment : Type 0 where
  pub offset : ℕ
  pub vaddr : ℕ
  pub filesz : ℕ

-- The bytes of the file, the `size` from `content` on, are those of `m`.
abbrev SameFile : Memory → Memory → ℕ → ℕ → Type 0
SameFile m m' content size = (x : ℕ) → content ≤ x → x < content + size → m' x ≡ m x

-- The program headers from `header` on.
abbrev pub AreSegments : Memory → ℕ → ℕ → ℕ → List Segment → Type 0
AreSegments m content size header [] = Unit
AreSegments m content size header (s ∷ segments) =
    (content ≤ header)
    × (header + 32 ≤ content + size)
    × (read32 m (p_type header) ≢ 0)
    × (read32 m (p_offset header) ≡ s.offset)
    × (read32 m (p_vaddr header) ≡ s.vaddr)
    × (read32 m (p_filesz header) ≡ s.filesz)
    × (AreSegments m content size ((header + read16 m (e_phentsize content)) % 2 ^ 32) segments)

abbrev IsOutside : ℕ → List Segment → Type 0
IsOutside x [] = Unit
IsOutside x (s ∷ segments) = ((x < s.vaddr) ⊎ (s.vaddr + s.filesz ≤ x)) × (IsOutside x segments)

-- The segments are parts of the file; their places are apart from the file and from each other.
abbrev ArePlaced : ℕ → ℕ → List Segment → Type 0
ArePlaced content size [] = Unit
ArePlaced content size (s ∷ segments) =
    (s.offset + s.filesz ≤ size)
    × (AreDisjoint content size s.vaddr s.filesz)
    × ((k : ℕ) → k < s.filesz → IsOutside (s.vaddr + k) segments)
    × (ArePlaced content size segments)

-- Each segment of the file in `m` is at its place in `m'`.
abbrev AreLoaded : Memory → ℕ → List Segment → Memory → Type 0
AreLoaded m content [] m' = Unit
AreLoaded m content (s ∷ segments) m' =
    ((k : ℕ) → k < s.filesz → m' (s.vaddr + k) ≡ m (content + s.offset + k))
    × (AreLoaded m content segments m')

read32-SameFile :
    (m m' : Memory) (content size a : ℕ)
    → SameFile m m' content size
    → content ≤ a
    → a + 4 ≤ content + size
    → read32 m' a ≡ read32 m a
read32-SameFile m m' content size a same low high =
    read32_congr m m' a (same a low (omega arith)) (same (a + 1) (omega arith) (omega arith))
      (same (a + 2) (omega arith) (omega arith)) (same (a + 3) (omega arith) (omega arith))

read16-SameFile :
    (m m' : Memory) (content size a : ℕ)
    → SameFile m m' content size
    → content ≤ a
    → a + 2 ≤ content + size
    → read16 m' a ≡ read16 m a
unfolding read16
read16-SameFile m m' content size a same low high =
    let first = same a low (omega arith) in
    let second = same (a + 1) (omega arith) (omega arith) in omega (arith, first, second)

-- The memory after the segments: the rest of the memory is as before.
record IsLoadedFrom (m₀ m : Memory) (content size : ℕ) (segments : List Segment) (m' : Memory)
    : Type 0 where
  file : SameFile m₀ m' content size
  loaded : AreLoaded m₀ content segments m'
  others : (x : ℕ) → IsOutside x segments → m' x ≡ m x

-- The copy of the segment `s`, and the others behind it.
IsLoadedFrom-cons :
    (m₀ m m₁ m' : Memory) (content size : ℕ) (s : Segment) (segments : List Segment)
    → SameFile m₀ m content size
    → ArePlaced content size (s ∷ segments)
    → IsCopy m s.vaddr (content + s.offset) s.filesz m₁
    → IsLoadedFrom m₀ m₁ content size segments m'
    → IsLoadedFrom m₀ m content size (s ∷ segments) m'
IsLoadedFrom-cons m₀ m m₁ m' content size s segments same placed copy rest = record {
  file = rest.file;
  loaded = (
    λ k less.
        rest.others (s.vaddr + k) (placed.2 k less)
        ∙ copy.copied k less
        ∙ same (content + s.offset + k) (omega arith) (omega (arith, placed.0)),
    rest.loaded,
  );
  others = λ x out. rest.others x out.1 ∙ copy.others x out.0;
}

-- The file is as before behind the copy of the segment `s`.
SameFile-copy :
    (m₀ m m₁ : Memory) (content size src : ℕ) (s : Segment)
    → SameFile m₀ m content size
    → AreDisjoint content size s.vaddr s.filesz
    → IsCopy m s.vaddr src s.filesz m₁
    → SameFile m₀ m₁ content size
SameFile-copy m₀ m m₁ content size src s same apart copy x low high =
    copy.others x (omega (arith, apart)) ∙ same x low high

-- A round of the loop that copies a segment.
load_segments-load :
    (fuel : ℕ) (m m' : Memory) (content header i : ℕ) (s : Segment) (next : ℕ)
    → i < read16 m (e_phnum content)
    → read32 m (p_type header) ≢ 0
    → read32 m (p_offset header) ≡ s.offset
    → read32 m (p_vaddr header) ≡ s.vaddr
    → read32 m (p_filesz header) ≡ s.filesz
    → (header + read16 (memcpy m s.vaddr (content + s.offset) s.filesz) (e_phentsize content))
        % 2 ^ 32
      ≡ next
    → load_segments fuel (memcpy m s.vaddr (content + s.offset) s.filesz) content next (i + 1)
      ≡ some m'
    → load_segments (suc fuel) m content header i ≡ some m'
unfolding load_segments
load_segments-load fuel m m' content header i s next less some_type offset vaddr filesz step run =
    let test : ltb i (read16 m (e_phnum content)) ≡ true = ground (arith, less) in
    let test' : (read32 m (p_type header) == 0) ≡ false = ground (arith, some_type) in
    rw (test, test', offset, vaddr, filesz, step) run

load_segments-IsLoadedFrom :
    (fuel : ℕ) (m₀ m : Memory) (content size header i : ℕ) (segments : List Segment)
    → length segments < fuel
    → 52 ≤ size
    → AreBytes m
    → SameFile m₀ m content size
    → read16 m₀ (e_phnum content) ≡ i + length segments
    → AreSegments m₀ content size header segments
    → ArePlaced content size segments
    → (m' : Memory) × (load_segments fuel m content header i ≡ some m')
      × IsLoadedFrom m₀ m content size segments m'
unfolding load_segments
load_segments-IsLoadedFrom zero m₀ m content size header i segments enough large bytes same number
      headers placed =
    absurd (omega arith)
load_segments-IsLoadedFrom (suc fuel) m₀ m content size header i [] enough large bytes same number
      headers placed =
    let count =
      read16-SameFile m₀ m content size (e_phnum content) same (omega arith) (omega arith) in
    let test : ltb i (read16 m (e_phnum content)) ≡ false = ground (arith, count, number) in
    (m, rw test refl, record { file = same; loaded = tt; others = λ x out. refl })
load_segments-IsLoadedFrom (suc fuel) m₀ m content size header i (s ∷ segments) enough large bytes
      same number headers placed =
    let (low, high, some_type, offset, vaddr, filesz, later) = headers in
    let count =
      read16-SameFile m₀ m content size (e_phnum content) same (omega arith) (omega arith) in
    let at : (d : ℕ) → d + 4 ≤ 32 → read32 m (header + d) ≡ read32 m₀ (header + d) =
      λ d fits. read32-SameFile m₀ m content size (header + d) same (omega arith) (omega arith) in
    let type : read32 m (p_type header) ≡ read32 m₀ (p_type header) =
      read32-SameFile m₀ m content size header same low (omega arith) in
    let offset' = at 4 (omega arith) ∙ offset in
    let vaddr' = at 8 (omega arith) ∙ vaddr in
    let filesz' = at 16 (omega arith) ∙ filesz in
    let m₁ = memcpy m s.vaddr (content + s.offset) s.filesz in
    let copy =
      memcpy-IsCopy m s.vaddr (content + s.offset) s.filesz bytes
        (omega (arith, placed.0, placed.1)) in
    let same' = SameFile-copy m₀ m m₁ content size (content + s.offset) s same placed.1 copy in
    let step =
      read16-SameFile m₀ m₁ content size (e_phentsize content) same' (omega arith) (omega arith) in
    let next = (header + read16 m₀ (e_phentsize content)) % 2 ^ 32 in
    let (m', run, rest) =
      load_segments-IsLoadedFrom fuel m₀ m₁ content size next (i + 1) segments (omega arith) large
        (memcpy-AreBytes m s.vaddr (content + s.offset) s.filesz bytes) same'
        (omega (arith, number)) later placed.3 in
    (
      m',
      load_segments-load fuel m m' content header i s next (omega (arith, count, number))
          (λ e. some_type (sym type ∙ e)) offset' vaddr' filesz'
          (ap (λ (t : ℕ). (header + t) % 2 ^ 32) step) run,
      IsLoadedFrom-cons m₀ m m₁ m' content size s segments same placed copy rest,
    )

-- The first four bytes of the file.
abbrev IsMagic : Memory → ℕ → Type 0
IsMagic m content =
    (m content ≡ 0x7f)
    × (m (content + 1) ≡ 0x45)
    × (m (content + 2) ≡ 0x4c)
    × (m (content + 3) ≡ 0x46)

-- What `load_elf` leaves for a program with `segments`: its return value 0, the entry point of the file at `entry_addr`, and
-- each byte of the segments at its place.
pub record IsProgram (m : Memory) (content entry_addr : ℕ) (segments : List Segment) (m' : Memory)
    : Type 0 where
  pub entry : read32 m' entry_addr ≡ read32 m (e_entry content)
  pub loaded : AreLoaded m content segments m'

-- The 4 bytes at `a` are in none of the segments.
abbrev IsApart : ℕ → List Segment → Type 0
IsApart a [] = Unit
IsApart a (s ∷ segments) = (AreDisjoint a 4 s.vaddr s.filesz) × (IsApart a segments)

AreLoaded-write32 :
    (m m₁ : Memory) (content a v : ℕ) (segments : List Segment)
    → IsApart a segments
    → AreLoaded m content segments m₁
    → AreLoaded m content segments (write32 m₁ a v)
AreLoaded-write32 m m₁ content a v [] apart loaded = tt
AreLoaded-write32 m m₁ content a v (s ∷ segments) apart loaded = (
  λ k less. read8-write32_apart m₁ a v (s.vaddr + k) (omega (arith, apart.0)) ∙ loaded.0 k less,
  AreLoaded-write32 m m₁ content a v segments apart.1 loaded.1,
)

read32-small : (m : Memory) (a : ℕ) → AreBytes m → read32 m a < 2 ^ 32
unfolding read32
read32-small m a bytes = omega (arith, bytes a, bytes (a + 1), bytes (a + 2), bytes (a + 3))

load_elf-magic :
    (fuel : ℕ) (m m' : Memory) (content entry_addr : ℕ)
    → IsMagic m content
    → load_segments fuel m content (content + read32 m (e_phoff content)) 0 ≡ some m'
    → load_elf fuel m content entry_addr
      ≡ some (pos 0, write32 m' entry_addr (read32 m' (e_entry content)))
unfolding load_elf
load_elf-magic fuel m m' content entry_addr magic run =
    rw (magic.0, magic.1, magic.2, magic.3, run, ◌>>=◌) refl

-- With fuel for its segments and one more, `load_elf` of a file with the magic number, whose program headers all have a type
-- other than 0, and whose segments are parts of it and go to places apart from it, from each other and from `entry_addr`,
-- returns 0 with each segment at its place and the entry point stored at `entry_addr`.
pub load_elf-IsProgram :
    (fuel : ℕ) (m : Memory) (content size entry_addr : ℕ) (segments : List Segment)
    → length segments < fuel
    → 52 ≤ size
    → AreBytes m
    → IsMagic m content
    → read16 m (e_phnum content) ≡ length segments
    → AreSegments m content size (content + read32 m (e_phoff content)) segments
    → ArePlaced content size segments
    → IsApart entry_addr segments
    → (m' : Memory) × (load_elf fuel m content entry_addr ≡ some (pos 0, m'))
      × IsProgram m content entry_addr segments m'
load_elf-IsProgram fuel m content size entry_addr segments enough large bytes magic number headers
      placed apart =
    let (m₁, run, done) =
      load_segments-IsLoadedFrom fuel m m content size (content + read32 m (e_phoff content)) 0
        segments enough large bytes (λ x low high. refl) (omega (arith, number)) headers placed in
    let entry = read32 m₁ (e_entry content) in
    let same : entry ≡ read32 m (e_entry content) =
      read32-SameFile m m₁ content size (e_entry content) done.file (omega arith) (omega arith) in
    let small = read32-small m (e_entry content) bytes in
    (
      write32 m₁ entry_addr entry,
      load_elf-magic fuel m m₁ content entry_addr magic run,
      record {
        entry = read32-write32_self m₁ entry_addr entry (omega (arith, same, small)) ∙ same;
        loaded = AreLoaded-write32 m m₁ content entry_addr entry segments apart done.loaded;
      },
    )

-- A file without the magic number is refused with -1, and no byte of the memory changes.
pub load_elf-refuses :
    (fuel : ℕ) (m : Memory) (content entry_addr : ℕ)
    → ¬ IsMagic m content
    → load_elf fuel m content entry_addr ≡ some (negsuc 0, m)
unfolding load_elf
load_elf-refuses fuel m content entry_addr refused = elim (ℕ_discrete (m content) 0x7f) [
  | no ne ↦ let test : (m content == 0x7f) ≡ false = ground (arith, ne) in rw test refl
  | yes e ↦ elim (ℕ_discrete (m (content + 1)) 0x45) [
    | no ne ↦ let test : (m (content + 1) == 0x45) ≡ false = ground (arith, ne) in rw (e, test) refl
    | yes e₁ ↦ elim (ℕ_discrete (m (content + 2)) 0x4c) [
      | no ne ↦
          let test : (m (content + 2) == 0x4c) ≡ false = ground (arith, ne) in rw (e, e₁, test) refl
      | yes e₂ ↦
          let last : m (content + 3) ≢ 0x46 = λ e₃. refused (e, e₁, e₂, e₃) in
          let test : (m (content + 3) == 0x46) ≡ false = ground (arith, last) in
          rw (e, e₁, e₂, test) refl
    ]
  ]
]
