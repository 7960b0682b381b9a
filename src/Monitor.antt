-- ===== src/Monitor.antt =====
-- src/monitor/monitor.c: the screen of 25 lines of 80 characters. The cursor has two `int16`. A cell is a `uint16`, and
-- `video_memory` a function of its index: an address has 32 bits, so an index has 31, and the cell in front of the first one
-- is that of index 2 ^ 31 - 1.
pub mod Print
pub mod Bounds
pub mod Cursor
pub mod Text
pub mod Decimal
mod Tests
use luck_os.Common.{
  ℕ, zero, suc, ◌+◌, ◌-◌, ◌*◌, ◌/◌, ◌%◌, ◌^◌, bit_or, List, [], ◌∷◌, ◌==◌, ltb, leb, if◌then◌else◌,
  ◌&&◌, not,
}
use luck_os.Common.Int.{
  ℤ, pos, negsuc, ◌+ℤ◌, int16, low_bits, at_least, scale, is_zero, is_negative,
}
use luck_os.Utils.Math.{div, mod_floor}

pub record Screen : Type 0 where
  pub video_memory : ℕ → ℕ
  pub cursor_x : ℤ
  pub cursor_y : ℤ
  pub hardware_cursor : ℕ

-- `cursor_y * 80 + cursor_x`
abbrev pub cursor_place : Screen → ℤ
cursor_place s = scale s.cursor_y 80 +ℤ s.cursor_x

-- The place that the VGA board has, from the two bytes that it is sent.
pub move_cursor_position : Screen → Screen
move_cursor_position s =
    let location = low_bits 16 (cursor_place s) in
    record s { hardware_cursor = location / 2 ^ 8 % 2 ^ 8 * 2 ^ 8 + location % 2 ^ 8 }

-- The cursor behind the two tests on `cursor_y`.
abbrev pub clamp_cursor : Screen → ℤ → ℤ → Screen
clamp_cursor s x y =
    if is_negative y
    then record s { cursor_x = pos 0; cursor_y = pos 0 }
    else if at_least 25 y
    then record s { cursor_x = pos 79; cursor_y = pos 24 }
    else record s { cursor_x = x; cursor_y = y }

pub moved_cursor : Screen → ℤ → ℤ → Screen
moved_cursor s delta_x delta_y =
    let x = int16 (s.cursor_x +ℤ delta_x) in
    let y_offset = div x 80 in
    let y = int16 (s.cursor_y +ℤ (delta_y +ℤ y_offset)) in
    move_cursor_position (clamp_cursor s (int16 (mod_floor x 80)) y)

abbrev pub write16 : (ℕ → ℕ) → ℕ → ℕ → ℕ → ℕ
write16 video i v k = if k == i then v else video k

-- A space, white on black.
abbrev pub blank : ℕ
blank = 0x20 + 7 * 2 ^ 8

pub copy_up : ℕ → (ℕ → ℕ) → ℕ → ℕ → ℕ
copy_up zero video i = video
copy_up (suc rounds) video i = copy_up rounds (write16 video i (video (i + 80))) (i + 1)

pub fill_blank : ℕ → (ℕ → ℕ) → ℕ → ℕ → ℕ
fill_blank zero video i = video
fill_blank (suc rounds) video i = fill_blank rounds (write16 video i blank) (i + 1)

pub scroll : Screen → Screen
scroll s =
    let scrolled = record s {
      video_memory = fill_blank (25 * 80 - 24 * 80) (copy_up (24 * 80) s.video_memory 0) (24 * 80);
      cursor_y = pos 24;
    } in
    if at_least 25 s.cursor_y then scrolled else s

pub cleared : Screen → Screen
cleared s = move_cursor_position (record s {
  video_memory = fill_blank (80 * 25) s.video_memory 0;
  cursor_x = pos 0;
  cursor_y = pos 0;
})

-- The colour of a character in the high byte, on black.
abbrev pub attribute : ℕ → ℕ
attribute color = color % 16 * 2 ^ 8

-- The character itself: backspace, tab, return, line feed, and what can be printed, which as a `char` is not negative.
pub put_char : Screen → ℕ → ℕ → Screen
put_char s c color =
    if (c == 0x08) && not (is_zero s.cursor_x)
    then record s { cursor_x = int16 (s.cursor_x +ℤ negsuc 0) }
    else if c == 0x09
    then record s { cursor_x = int16 (pos (low_bits 16 (s.cursor_x +ℤ pos 8) / 8 * 8)) }
    else if c == 0x0d
    then record s { cursor_x = pos 0 }
    else if c == 0x0a
    then record s { cursor_x = pos 0; cursor_y = int16 (s.cursor_y +ℤ pos 1) }
    else if leb 0x20 c && ltb c 0x80
    then record s {
      video_memory =
          write16 s.video_memory (low_bits 31 (cursor_place s)) (bit_or c (attribute color));
      cursor_x = int16 (s.cursor_x +ℤ pos 1);
    }
    else s

-- A new line at the end of a line.
pub wrap_line : Screen → Screen
wrap_line s =
    if at_least 80 s.cursor_x
    then record s { cursor_x = pos 0; cursor_y = int16 (s.cursor_y +ℤ pos 1) }
    else s

pub monitor_write_char_with_color : Screen → ℕ → ℕ → Screen
monitor_write_char_with_color s c color =
    move_cursor_position (scroll (wrap_line (put_char s c color)))

-- The characters of a list, one after the other.
pub write_chars : Screen → List ℕ → ℕ → Screen
write_chars s [] color = s
write_chars s (c ∷ cs) color = write_chars (monitor_write_char_with_color s c color) cs color
