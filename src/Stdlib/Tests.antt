-- ===== src/Stdlib/Tests.antt =====
-- The functions of stdlib.c on small memories.
use luck_os.Common.{ℕ, ◌≡◌, some, ◌==◌, if◌then◌else◌, arith, refl, List, [], ◌∷◌}
use luck_os.Common.Int.{ℤ, negsuc}
use luck_os.Kheap.Bytes.{Memory}
use luck_os.Stdlib.{strcmp, int2str}
use luck_os.Stdlib.Strings.{IsString}
use luck_os.Stdlib.Compare.{Compares, strcmp-Compares}
use luck_os.Stdlib.Numbers.{IsNumeral, int2str-IsNumeral}

-- "ls" at 100 and "l" at 200.
abbrev names_memory : Memory
names_memory x = if x == 100 then 0x6c else if x == 101 then 0x73 else if x == 200 then 0x6c else 0

abbrev ls_name : List ℕ
ls_name = 0x6c ∷ 0x73 ∷ []

ls_name-IsString : IsString names_memory 100 ls_name
ls_name-IsString = (refl, omega arith, omega arith, (refl, omega arith, omega arith, refl))

l_name-IsString : IsString names_memory 200 (0x6c ∷ [])
l_name-IsString = (refl, omega arith, omega arith, refl)

strcmp-Compares_example :
    (z : ℤ) × (strcmp 5 names_memory 100 200 ≡ some z) × Compares ls_name (0x6c ∷ []) z
strcmp-Compares_example =
    strcmp-Compares 5 names_memory 100 200 ls_name (0x6c ∷ []) (omega arith) ls_name-IsString
      l_name-IsString

int2str-IsNumeral_example :
    (length' : ℕ) × (m' : Memory) × (int2str 20 names_memory 1000 2000 (negsuc 41)
      ≡ some (length', m'))
    × IsNumeral 2000 (negsuc 41) length' m'
int2str-IsNumeral_example =
    int2str-IsNumeral 20 names_memory 1000 2000 (negsuc 41) (omega arith) (omega arith)
      (omega arith)
