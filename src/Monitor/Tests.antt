-- ===== src/Monitor/Tests.antt =====
-- Small runs of the printers.
use luck_os.Common.{ℕ, ◌≡◌, some, ◌==◌, if◌then◌else◌, arith, refl, List, [], ◌∷◌, length, ◌+◌, ◌<◌}
use luck_os.Common.Int.{pos, negsuc}
use luck_os.Kheap.Bytes.{Memory}
use luck_os.Stdlib.Numbers.{read_int}
use luck_os.Sync.Yieldlock.{Yieldlock, locked_no}
use luck_os.Monitor.{Screen, scroll, moved_cursor, write_chars, monitor_write_char_with_color}
use luck_os.Monitor.Bounds.{IsValid, IsKept, IsScrolled, scroll-IsScrolled, write_char-IsKept}
use luck_os.Monitor.Cursor.{IsAt, moved_cursor-IsAt}
use luck_os.Monitor.Text.{ArePrintable, IsShown, monitor_print_with_color-prints}
use luck_os.Monitor.Decimal.{IsNumberText, write_dec-reads}
use luck_os.Monitor.Print.{monitor_print_with_color, monitor_write_dec_with_color}

-- The last cell of the screen.
abbrev last_place : Screen
last_place = record {
  video_memory = λ k. k;
  cursor_x = pos 79;
  cursor_y = pos 24;
  hardware_cursor = 1999;
}

-- A line below the screen.
abbrev line_below : Screen
line_below = record {
  video_memory = λ k. k;
  cursor_x = pos 0;
  cursor_y = pos 25;
  hardware_cursor = 1999;
}

abbrev first_line : Screen
first_line = record {
  video_memory = λ k. 0;
  cursor_x = pos 3;
  cursor_y = pos 0;
  hardware_cursor = 3;
}

abbrev ls_memory : Memory
ls_memory x = if x == 100 then 0x6c else if x == 101 then 0x73 else 0

abbrev ls_name : List ℕ
ls_name = 0x6c ∷ 0x73 ∷ []

abbrev free_lock : Yieldlock
free_lock = record { hold = locked_no }

abbrev first_line-IsValid : IsValid first_line
first_line-IsValid = record {
  x = 3;
  y = 0;
  at_x = refl;
  at_y = refl;
  column_bound = omega arith;
  line_bound = omega arith;
  hardware = refl;
}

last_place-IsValid : IsValid last_place
last_place-IsValid = record {
  x = 79;
  y = 24;
  at_x = refl;
  at_y = refl;
  column_bound = omega arith;
  line_bound = omega arith;
  hardware = refl;
}

write_char-IsKept_example : IsKept last_place (monitor_write_char_with_color last_place 0x61 7)
write_char-IsKept_example = write_char-IsKept last_place 0x61 7 last_place-IsValid

scroll-IsScrolled_example : IsScrolled line_below (scroll line_below)
scroll-IsScrolled_example = scroll-IsScrolled line_below 25 refl (omega arith)

moved_cursor-IsAt_example :
    IsAt (moved_cursor first_line (negsuc 4) (pos 1)) 78
    × IsKept first_line (moved_cursor first_line (negsuc 4) (pos 1))
moved_cursor-IsAt_example =
    moved_cursor-IsAt first_line (negsuc 4) (pos 1) first_line-IsValid (omega arith) (omega arith)

monitor_print_with_color-prints_example :
    (lock' : Yieldlock) × (s' : Screen) × (monitor_print_with_color [] free_lock 3 ls_memory
        first_line 100 7
      ≡ some (lock', s'))
    × (lock'.hold ≡ locked_no)
    × (IsKept first_line s')
    × (ArePrintable ls_name → 3 + length ls_name < 80 → IsShown first_line 3 0 ls_name 7 s')
monitor_print_with_color-prints_example =
    monitor_print_with_color-prints [] free_lock 3 ls_memory first_line 100 7 ls_name refl
      (omega arith) (refl, omega arith, omega arith, (refl, omega arith, omega arith, refl))
      first_line-IsValid

write_dec-reads_example :
    (text : List ℕ) × (monitor_write_dec_with_color 11 first_line (negsuc 41) 7
      ≡ some (write_chars first_line text 7))
    × (IsNumberText text (negsuc 41))
    × (read_int text ≡ negsuc 41)
write_dec-reads_example = write_dec-reads 11 first_line (negsuc 41) 7 (omega arith) (omega arith)
