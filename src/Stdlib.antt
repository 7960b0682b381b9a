-- ===== src/Stdlib.antt =====
-- src/common/stdlib.c: bytes and strings in memory. An address is a number, and pointers do not wrap around. The loops
-- over strings run on fuel, `none` is out of fuel. A local buffer of the C code is the argument `buf`, its address.
pub mod Strings
pub mod Copy
pub mod Compare
pub mod Numbers
mod Tests
use luck_os.Common.{
  ℕ, zero, suc, ◌+◌, ◌-◌, ◌*◌, ◌/◌, ◌%◌, ◌^◌, Bool, Option, none, some, ◌==◌, leb, ltb,
  if◌then◌else◌, ◌>>=◌,
}
use luck_os.Common.Int.{ℤ, pos, negsuc}
use luck_os.Kheap.Bytes.{Memory, read32, write8}

-- `for (int i = 0; i < num; i++)`, from round `i` on with `rounds` left.
memset_from : ℕ → Memory → ℕ → ℕ → ℕ → Memory
memset_from zero m addr value i = m
memset_from (suc rounds) m addr value i =
    memset_from rounds (write8 m (addr + i) value) addr value (i + 1)

memset : Memory → ℕ → ℕ → ℕ → Memory
memset m addr value num = memset_from num m addr value 0

pub memcpy_from : ℕ → Memory → ℕ → ℕ → ℕ → Memory
memcpy_from zero m dst src i = m
memcpy_from (suc rounds) m dst src i =
    memcpy_from rounds (write8 m (dst + i) (m (src + i))) dst src (i + 1)

pub memcpy : Memory → ℕ → ℕ → ℕ → Memory
memcpy m dst src num = memcpy_from num m dst src 0

-- The number of bytes copied, without the last one.
pub strcpy_from : ℕ → Memory → ℕ → ℕ → ℕ → Option (ℕ × Memory)
strcpy_from zero m dst src num = none
strcpy_from (suc fuel) m dst src num =
    let m' = write8 m dst (m src) in
    let later = strcpy_from fuel m' (dst + 1) (src + 1) (num + 1) in
    if m src == 0 then some (num, m') else later

pub strcpy : ℕ → Memory → ℕ → ℕ → Option (ℕ × Memory)
strcpy fuel m dst src = strcpy_from fuel m dst src 0

-- `c < c2` on `char`, which is signed.
abbrev pub char_less : ℕ → ℕ → Bool
char_less c c2 = ltb ((c + 128) % 256) ((c2 + 128) % 256)

pub strcmp_from : ℕ → Memory → ℕ → ℕ → ℕ → Option ℤ
strcmp_from zero m str1 str2 i = none
strcmp_from (suc fuel) m str1 str2 i =
    let c = m (str1 + i) in
    let c2 = m (str2 + i) in
    let later = strcmp_from fuel m str1 str2 (i + 1) in
    if c == 0
    then some (if c2 == 0 then pos 0 else pos 1)
    else if c2 == 0
    then some (pos 1)
    else if c == c2
    then later
    else some (if char_less c c2 then negsuc 0 else pos 1)

pub strcmp : ℕ → Memory → ℕ → ℕ → Option ℤ
strcmp fuel m str1 str2 = strcmp_from fuel m str1 str2 0

pub strlen_from : ℕ → Memory → ℕ → ℕ → Option ℕ
strlen_from zero m str i = none
strlen_from (suc fuel) m str i =
    let later = strlen_from fuel m str (i + 1) in if m (str + i) == 0 then some i else later

pub strlen : ℕ → Memory → ℕ → Option ℕ
strlen fuel m str = strlen_from fuel m str 0

abbrev pub minus_sign : ℕ
minus_sign = 0x2d

-- The sign of `num` at `dst`: `start`, and what `num` is after `num = -num`. The least number stays negative, and
-- the loops over digits end at once, as they do at 0.
pub write_sign : Memory → ℕ → ℤ → ℕ × ℕ × Memory
write_sign m dst (pos n) = (0, n, m)
write_sign m dst (negsuc n) = (1, (if n + 1 == 2 ^ 31 then 0 else n + 1), write8 m dst minus_sign)

abbrev pub decimal_digit : ℕ → ℕ
decimal_digit remain = 0x30 + remain

abbrev hex_digit : ℕ → ℕ
hex_digit remain = if leb remain 9 then 0x30 + remain else 0x61 + (remain - 10)

-- The loop of `int2str` and of `int2hex` over the digits in base `base`: the last `i`.
pub digits_from : (ℕ → ℕ) → ℕ → ℕ → Memory → ℕ → ℕ → ℕ → Option (ℕ × Memory)
digits_from digit base zero m buf i num = none
digits_from digit base (suc fuel) m buf i num =
    let later =
      digits_from digit base fuel (write8 m (buf + i) (digit (num % base))) buf (i - 1)
        (num / base) in
    if num == 0 then some (i, m) else later

-- `buf[15] = '\0'`, the loop, and the copy behind `start`.
pub write_digits : (ℕ → ℕ) → ℕ → ℕ → Memory → ℕ → ℕ → ℕ → ℕ → Option (ℕ × Memory)
write_digits digit base fuel m buf dst start num = do
  (i, m₁) ← digits_from digit base fuel (write8 m (buf + 15) 0) buf 14 num
  (copied, m₂) ← strcpy fuel m₁ (dst + start) (buf + i + 1)
  some (start + 14 - i, m₂)

pub int2str : ℕ → Memory → ℕ → ℕ → ℤ → Option (ℕ × Memory)
int2str fuel m buf dst num =
    let (start, magnitude, m') = write_sign m dst num in
    write_digits decimal_digit 10 fuel m' buf dst start magnitude

int2hex : ℕ → Memory → ℕ → ℕ → ℤ → Option (ℕ × Memory)
int2hex fuel m buf dst num =
    let (start, magnitude, m') = write_sign m dst num in
    write_digits hex_digit 16 fuel (write8 (write8 m' (dst + start) 0x30) (dst + start + 1) 0x78)
      buf dst (start + 2) magnitude

-- An `int32` by its word.
abbrev pub signed32 : ℕ → ℤ
signed32 w = if ltb w (2 ^ 31) then pos w else negsuc (2 ^ 32 - w - 1)

-- What `sprintf` writes for one conversion, and whether it takes an argument: `%d`, `%u`, `%x` and `%s`; the
-- address `buf` is that of `buf`, and `digits` that of the buffer of `int2str`.
convert : ℕ → Memory → ℕ → ℕ → ℕ → ℕ → ℕ → Option (ℕ × ℕ × Memory)
convert fuel m digits buf dst next arg =
    if next == 0x64
    then (int2str fuel m digits buf (signed32 (read32 m arg)) >>= λ (length, m₁).
        strcpy fuel m₁ dst buf >>= λ (num, m₂). some (num, 4, m₂))
    else if next == 0x75
    then (int2str fuel m digits buf (signed32 (read32 m arg)) >>= λ (length, m₁).
        strcpy fuel m₁ dst buf >>= λ (num, m₂). some (num, 4, m₂))
    else if next == 0x78
    then (int2hex fuel m digits buf (signed32 (read32 m arg)) >>= λ (length, m₁).
        strcpy fuel m₁ dst buf >>= λ (num, m₂). some (num, 4, m₂))
    else if next == 0x73
    then (strcpy fuel m dst (read32 m arg) >>= λ (num, m₁). some (num, 4, m₁))
    else some (0, 0, m)

-- The loop of `sprintf` from `i` on; `c` is not 0 behind a `%`, so the second test never ends it.
sprintf_from : ℕ → Memory → ℕ → ℕ → ℕ → ℕ → ℕ → ℕ → ℕ → Option Memory
sprintf_from zero m digits buf dst str arg_ptr i write_index = none
sprintf_from (suc fuel) m digits buf dst str arg_ptr i write_index =
    let c = m (str + i) in
    let m' = write8 m (dst + write_index) c in
    let plain = sprintf_from fuel m' digits buf dst str arg_ptr (i + 1) (write_index + 1) in
    let converted = convert fuel m digits buf (dst + write_index) (m (str + i + 1)) arg_ptr in
    if c == 0
    then some (write8 m (dst + write_index) 0)
    else if c == 0x25
    then (converted >>= λ (num, taken, m₁).
        sprintf_from fuel m₁ digits buf dst str (arg_ptr + taken) (i + 2) (write_index + num))
    else plain

sprintf : ℕ → Memory → ℕ → ℕ → ℕ → ℕ → ℕ → Option Memory
sprintf fuel m digits buf dst str arg_ptr = sprintf_from fuel m digits buf dst str arg_ptr 0 0
