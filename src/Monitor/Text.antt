-- ===== src/Monitor/Text.antt =====
-- What the printers leave on the screen.
use luck_os.Common.{
  ℕ, zero, suc, ◌+◌, ◌-◌, ◌*◌, ◌≤◌, ◌<◌, ◌≡◌, refl, sym, ap, ◌∙◌, arith, List, [], ◌∷◌, ◌==◌, leb,
  ltb, ◌⊎◌, inl, ℕ_discrete, true, false, ◌&&◌, not, bit_or, some, ◌>>=◌, length, get_or, subst,
}
use luck_os.Common.Int.{pos, ◌+ℤ◌, int16, low_bits, is_zero}
use luck_os.Kheap.Bytes.{Memory}
use luck_os.Stdlib.Strings.{IsString}
use luck_os.Sync.Yieldlock.{Yieldlock, yieldlock_lock-free, yieldlock_unlock, locked_no}
use luck_os.Monitor.{
  Screen, move_cursor_position, write16, put_char, wrap_line, monitor_write_char_with_color,
  write_chars, attribute, cursor_place,
}
use luck_os.Monitor.Bounds.{
  IsValid, IsKept, scroll-unneeded, int16-small, write16_self, write16_other, write_chars-IsKept,
}
use luck_os.Monitor.Print.{monitor_write_string_with_color, monitor_print_with_color}

-- Characters that can be printed.
abbrev pub ArePrintable : List ℕ → Type 0
ArePrintable [] = Unit
ArePrintable (c ∷ cs) = (0x20 ≤ c) × (c < 0x7f) × (ArePrintable cs)

-- A character that can be printed, in front of the end of the line.
write_char-shown :
    (s : Screen) (x y c color : ℕ)
    → s.cursor_x ≡ pos x
    → s.cursor_y ≡ pos y
    → x < 79
    → y < 25
    → 0x20 ≤ c
    → c < 0x7f
    → monitor_write_char_with_color s c color
      ≡ move_cursor_position (record s {
        video_memory = write16 s.video_memory (y * 80 + x) (bit_or c (attribute color));
        cursor_x = pos (x + 1);
      })
unfolding monitor_write_char_with_color put_char wrap_line
write_char-shown s x y c color at_x at_y room line low high =
    let t : ((c == 0x08) && not (is_zero s.cursor_x)) ≡ false = ground (arith, low) in
    let t₁ : (c == 0x09) ≡ false = ground (arith, low) in
    let t₂ : (c == 0x0d) ≡ false = ground (arith, low) in
    let t₃ : (c == 0x0a) ≡ false = ground (arith, low) in
    let t₄ : (leb 0x20 c && ltb c 0x80) ≡ true = ground (arith, low, high) in
    let place : low_bits 31 (cursor_place s) ≡ y * 80 + x =
      rw (at_x, at_y) (omega (arith, room, line)) in
    let next : int16 (s.cursor_x +ℤ pos 1) ≡ pos (x + 1) =
      rw at_x (int16-small (x + 1) (omega (arith, room))) in
    let t₅ : leb 80 (x + 1) ≡ false = ground (arith, room) in
    let shown : Screen = record s {
      video_memory = write16 s.video_memory (y * 80 + x) (bit_or c (attribute color));
      cursor_x = pos (x + 1);
    } in
    rw (t, t₁, t₂, t₃, t₄, place, next, t₅)
      (ap move_cursor_position (scroll-unneeded shown y at_y line))

-- The text `cs` stands from column `x` of line `y` on, the cursor behind it, and the other cells are as in `s`.
pub record IsShown (s : Screen) (x y : ℕ) (cs : List ℕ) (color : ℕ) (s' : Screen) : Type 0 where
  pub text :
      (k : ℕ)
      → k < length cs
      → s'.video_memory (y * 80 + x + k) ≡ bit_or (get_or cs k 0) (attribute color)
  pub others :
      (k : ℕ)
      → (k < y * 80 + x) ⊎ (y * 80 + x + length cs ≤ k)
      → s'.video_memory k ≡ s.video_memory k
  pub behind : s'.cursor_x ≡ pos (x + length cs)
  pub line : s'.cursor_y ≡ pos y

IsShown-cons :
    (s s₁ s' : Screen) (x y c : ℕ) (cs : List ℕ) (color : ℕ)
    → s₁
      ≡ move_cursor_position (record s {
        video_memory = write16 s.video_memory (y * 80 + x) (bit_or c (attribute color));
        cursor_x = pos (x + 1);
      })
    → IsShown s₁ (x + 1) y cs color s'
    → IsShown s x y (c ∷ cs) color s'
unfolding move_cursor_position
IsShown-cons s s₁ s' x y c cs color first rest =
    let v = bit_or c (attribute color) in
    let video : (k : ℕ) → s₁.video_memory k ≡ write16 s.video_memory (y * 80 + x) v k =
      λ k. rw first refl in
    record {
      text = λ k less. elim (ℕ_discrete k 0) [
        | yes e ↦
            let place : y * 80 + x + k ≡ y * 80 + x = omega arith in
            let head : get_or (c ∷ cs) k 0 ≡ c = ap (λ (t : ℕ). get_or (c ∷ cs) t 0) e in
            ap s'.video_memory place
            ∙ rest.others (y * 80 + x) (inl (omega arith))
            ∙ video (y * 80 + x)
            ∙ write16_self s.video_memory (y * 80 + x) v
            ∙ ap (λ (t : ℕ). bit_or t (attribute color)) (sym head)
        | no ne ↦
            let place : y * 80 + x + k ≡ y * 80 + (x + 1) + (k - 1) = omega arith in
            let step : suc (k - 1) ≡ k = omega arith in
            let tail : get_or cs (k - 1) 0 ≡ get_or (c ∷ cs) k 0 =
              ap (λ (t : ℕ). get_or (c ∷ cs) t 0) step in
            ap s'.video_memory place
            ∙ rest.text (k - 1) (omega arith)
            ∙ ap (λ (t : ℕ). bit_or t (attribute color)) tail
      ];
      others = λ k out.
          rest.others k (omega (arith, out))
          ∙ video k
          ∙ write16_other s.video_memory (y * 80 + x) v k (λ e. omega (arith, out));
      behind =
          rest.behind
          ∙ (let size : x + 1 + length cs ≡ x + suc (length cs) = omega arith in ap pos size);
      line = rest.line;
    }

-- On a line with room for them, characters that can be printed stand behind the cursor, the cursor behind them, and the
-- other cells are as before.
write_chars-IsShown :
    (s : Screen) (x y : ℕ) (cs : List ℕ) (color : ℕ)
    → s.cursor_x ≡ pos x
    → s.cursor_y ≡ pos y
    → x + length cs < 80
    → y < 25
    → ArePrintable cs
    → IsShown s x y cs color (write_chars s cs color)
unfolding write_chars move_cursor_position
write_chars-IsShown s x y [] color at_x at_y room line shown = record {
  text = λ k less. absurd (omega arith);
  others = λ k out. refl;
  behind = at_x ∙ (let same : x ≡ x + 0 = omega arith in ap pos same);
  line = at_y;
}
write_chars-IsShown s x y (c ∷ cs) color at_x at_y room line shown =
    let s₁ = monitor_write_char_with_color s c color in
    let first = write_char-shown s x y c color at_x at_y (omega arith) line shown.0 shown.1 in
    let at_x' : s₁.cursor_x ≡ pos (x + 1) = rw first refl in
    let at_y' : s₁.cursor_y ≡ pos y = rw first at_y in
    IsShown-cons s s₁ (write_chars s₁ cs color) x y c cs color first
      (write_chars-IsShown s₁ (x + 1) y cs color at_x' at_y' (omega arith) line shown.2)

-- With fuel for its bytes and one more, a string in memory is printed as its list of characters.
write_string-write_chars :
    (fuel : ℕ) (m : Memory) (s : Screen) (c i color : ℕ) (cs : List ℕ)
    → length cs < fuel
    → IsString m (c + i) cs
    → monitor_write_string_with_color fuel m s c i color ≡ some (write_chars s cs color)
unfolding monitor_write_string_with_color write_chars
write_string-write_chars zero m s c i color cs less string = absurd (omega arith)
write_string-write_chars (suc fuel) m s c i color [] less string = rw string refl
write_string-write_chars (suc fuel) m s c i color (d ∷ cs) less string =
    let test : (m (c + i) == 0) ≡ false = ground (arith, string.0, string.1) in
    let place : c + i + 1 ≡ c + (i + 1) = omega arith in
    let rest =
      write_string-write_chars fuel m (monitor_write_char_with_color s d color) c (i + 1) color cs
        (omega arith) (subst (λ (t : ℕ). IsString m t cs) place string.3) in
    rw (test, string.0) rest

-- With the lock free, and fuel for the bytes of a string and one more, `monitor_print_with_color` returns with the lock
-- free again; the screen is valid, no cell outside of it is written, and a text that fits on the line stands on it.
pub monitor_print_with_color-prints :
    (seen : List ℕ) (monitor_lock : Yieldlock) (fuel : ℕ) (m : Memory) (s : Screen) (str color : ℕ)
    (cs : List ℕ)
    → monitor_lock.hold ≡ locked_no
    → length cs < fuel
    → IsString m str cs
    → (valid : IsValid s)
    → (lock' : Yieldlock) × (s' : Screen) × (monitor_print_with_color seen monitor_lock fuel m s str
          color
        ≡ some (lock', s'))
      × (lock'.hold ≡ locked_no)
      × (IsKept s s')
      × (ArePrintable cs → valid.x + length cs < 80 → IsShown s valid.x valid.y cs color s')
unfolding monitor_print_with_color yieldlock_unlock
monitor_print_with_color-prints seen monitor_lock fuel m s str color cs free less string valid =
    let place : str ≡ str + 0 = omega arith in
    let run =
      write_string-write_chars fuel m s str 0 color cs less
        (subst (λ (t : ℕ). IsString m t cs) place string) in
    (
      record { hold = locked_no },
      write_chars s cs color,
      rw (yieldlock_lock-free seen monitor_lock free, ◌>>=◌, run) refl,
      refl,
      write_chars-IsKept s cs color valid,
      λ shown room.
          write_chars-IsShown s valid.x valid.y cs color valid.at_x valid.at_y room valid.line_bound
            shown,
    )
