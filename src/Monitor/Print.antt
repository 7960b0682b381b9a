-- ===== src/Monitor/Print.antt =====
-- The printers of src/monitor/monitor.c. A string in memory is read on fuel, string literals and the local buffers are
-- lists. The entry points hold `monitor_lock`; `seen` is as in `yieldlock_lock`.
use luck_os.Common.{
  ℕ, zero, suc, ◌+◌, ◌-◌, ◌*◌, ◌/◌, ◌%◌, ◌^◌, Option, none, some, List, [], ◌∷◌, ◌++◌, ◌==◌, leb,
  if◌then◌else◌, ◌>>=◌, Bool, true, false, ◌&&◌,
}
use luck_os.Common.Int.{ℤ, pos, negsuc}
use luck_os.Kheap.Bytes.{Memory, read32}
use luck_os.Stdlib.{signed32}
use luck_os.Sync.Yieldlock.{Yieldlock, yieldlock_init, yieldlock_lock, yieldlock_unlock}
use luck_os.Monitor.{Screen, monitor_write_char_with_color, write_chars, moved_cursor, cleared}

abbrev color_white : ℕ
color_white = 7

unfoldable pub monitor_write_string_with_color : ℕ → Memory → Screen → ℕ → ℕ → ℕ → Option Screen
monitor_write_string_with_color zero m s c i color = none
monitor_write_string_with_color (suc fuel) m s c i color =
    let later =
      monitor_write_string_with_color fuel m (monitor_write_char_with_color s (m (c + i)) color) c
        (i + 1) color in
    if m (c + i) == 0 then some s else later

abbrev hex_char : ℕ → ℕ
hex_char tmp = if leb 0xa tmp then tmp - 0xa + 0x61 else tmp + 0x30

-- The loop over `i`, which is four times `rounds`.
hex_from : ℕ → Screen → ℕ → Bool → ℕ → Screen
hex_from zero s n no_zeroes color = s
hex_from (suc rounds) s n no_zeroes color =
    let tmp = n / 2 ^ (4 * suc rounds) % 16 in
    let skipped = (tmp == 0) && no_zeroes in
    hex_from rounds (if skipped then s else monitor_write_char_with_color s (hex_char tmp) color) n
      (if skipped then no_zeroes else false) color

monitor_write_hex_with_color : Screen → ℕ → ℕ → Screen
monitor_write_hex_with_color s n color =
    monitor_write_char_with_color (hex_from 7 (write_chars s (0x30 ∷ 0x78 ∷ []) color) n true color)
      (hex_char (n % 16)) color

-- The first loop: the digits of `acc` behind those in `c`, the lowest first.
unfoldable pub dec_digits : ℕ → ℕ → List ℕ → Option (List ℕ)
dec_digits zero acc c = none
dec_digits (suc fuel) acc c =
    let later = dec_digits fuel (acc / 10) (c ++ ((0x30 + acc % 10) ∷ [])) in
    if acc == 0 then some c else later

-- The second loop: `c` from its start, and `c2` from its end.
unfoldable pub reverse_digits : List ℕ → List ℕ → List ℕ
reverse_digits [] c2 = c2
reverse_digits (digit ∷ c) c2 = reverse_digits c (digit ∷ c2)

-- The digits that are printed of a number that is not 0.
unfoldable pub write_magnitude : ℕ → Screen → ℕ → ℕ → Option Screen
write_magnitude fuel s acc color = do
  c ← dec_digits fuel acc []
  some (write_chars s (reverse_digits c []) color)

unfoldable pub monitor_write_dec_with_color : ℕ → Screen → ℤ → ℕ → Option Screen
monitor_write_dec_with_color fuel s (pos zero) color =
    some (monitor_write_char_with_color s 0x30 color)
monitor_write_dec_with_color fuel s (pos (suc n)) color = write_magnitude fuel s (suc n) color
monitor_write_dec_with_color fuel s (negsuc n) color =
    write_magnitude fuel (monitor_write_char_with_color s 0x2d color) (n + 1) color

-- One conversion: the bytes of its argument, and the screen.
print_conversion : ℕ → Memory → Screen → ℕ → ℕ → Option (ℕ × Screen)
print_conversion fuel m s next arg_ptr =
    if next == 0x64
    then (monitor_write_dec_with_color fuel s (signed32 (read32 m arg_ptr)) color_white >>= λ s'.
        some (4, s'))
    else if next == 0x75
    then (monitor_write_dec_with_color fuel s (signed32 (read32 m arg_ptr)) color_white >>= λ s'.
        some (4, s'))
    else if next == 0x78
    then some (4, monitor_write_hex_with_color s (read32 m arg_ptr) color_white)
    else if next == 0x63
    then some (4, monitor_write_char_with_color s (m arg_ptr) color_white)
    else if next == 0x73
    then (monitor_write_string_with_color fuel m s (read32 m arg_ptr) 0 color_white >>= λ s'.
        some (4, s'))
    else some (0, s)

-- The loop of `monitor_printf_args`; `c` is not 0 behind a `%`, so the second test never ends it.
printf_from : ℕ → Memory → Screen → ℕ → ℕ → ℕ → Option Screen
printf_from zero m s str arg_ptr i = none
printf_from (suc fuel) m s str arg_ptr i =
    let c = m (str + i) in
    let plain =
      printf_from fuel m (monitor_write_char_with_color s c color_white) str arg_ptr (i + 1) in
    let converted = print_conversion fuel m s (m (str + i + 1)) arg_ptr >>= λ (taken, s').
    printf_from fuel m s' str (arg_ptr + taken) (i + 2) in
    if c == 0 then some s else if c == 0x25 then converted else plain

monitor_init : Yieldlock
monitor_init = yieldlock_init

-- A call between `yieldlock_lock` and `yieldlock_unlock`.
abbrev locked : List ℕ → Yieldlock → Option Screen → Option (Yieldlock × Screen)
locked seen monitor_lock body = do
  held ← yieldlock_lock seen monitor_lock
  s ← body
  some (yieldlock_unlock held, s)

monitor_move_cursor : List ℕ → Yieldlock → Screen → ℤ → ℤ → Option (Yieldlock × Screen)
monitor_move_cursor seen monitor_lock s delta_x delta_y =
    locked seen monitor_lock (some (moved_cursor s delta_x delta_y))

monitor_clear : List ℕ → Yieldlock → Screen → Option (Yieldlock × Screen)
monitor_clear seen monitor_lock s = locked seen monitor_lock (some (cleared s))

unfoldable pub monitor_print_with_color :
    List ℕ → Yieldlock → ℕ → Memory → Screen → ℕ → ℕ → Option (Yieldlock × Screen)
monitor_print_with_color seen monitor_lock fuel m s str color =
    locked seen monitor_lock (monitor_write_string_with_color fuel m s str 0 color)

monitor_print : List ℕ → Yieldlock → ℕ → Memory → Screen → ℕ → Option (Yieldlock × Screen)
monitor_print seen monitor_lock fuel m s str =
    locked seen monitor_lock (monitor_write_string_with_color fuel m s str 0 color_white)

monitor_println : List ℕ → Yieldlock → ℕ → Memory → Screen → ℕ → Option (Yieldlock × Screen)
monitor_println seen monitor_lock fuel m s str = locked seen monitor_lock (
    monitor_write_string_with_color fuel m s str 0 color_white >>= λ s'.
    some (write_chars s' (0x0a ∷ []) color_white))

monitor_printf_args : List ℕ → Yieldlock → ℕ → Memory → Screen → ℕ → ℕ → Option (Yieldlock × Screen)
monitor_printf_args seen monitor_lock fuel m s str arg_ptr =
    locked seen monitor_lock (printf_from fuel m s str arg_ptr 0)

-- The arguments stand on the stack behind the string.
monitor_printf : List ℕ → Yieldlock → ℕ → Memory → Screen → ℕ → ℕ → Option (Yieldlock × Screen)
monitor_printf seen monitor_lock fuel m s ebp str =
    monitor_printf_args seen monitor_lock fuel m s str (ebp + 12)
