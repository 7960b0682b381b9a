-- ===== src/Monitor/Bounds.antt =====
-- The cursor stays on the screen, and no cell behind the screen is written.
use luck_os.Common.{
  ℕ, zero, suc, ◌+◌, ◌-◌, ◌*◌, ◌/◌, ◌%◌, ◌^◌, ◌≤◌, ◌<◌, ◌≡◌, ◌≢◌, refl, sym, ap, ◌∙◌, arith, List,
  [], ◌∷◌, ◌==◌, leb, ltb, ◌⊎◌, inl, inr, ℕ_discrete, dec_lt, true, false, ◌&&◌, not, bit_or,
  Bool-cases,
}
use luck_os.Common.Int.{ℤ, pos, negsuc, ◌+ℤ◌, neg, rem, int16, low_bits, at_least, is_zero}
use luck_os.Utils.Math.{div, mod_floor}
use luck_os.Monitor.{
  Screen, move_cursor_position, clamp_cursor, moved_cursor, write16, blank, copy_up, fill_blank,
  scroll, cleared, put_char, wrap_line, monitor_write_char_with_color, write_chars, attribute,
  cursor_place,
}

-- `after` is `before` outside of the 2000 cells of the screen; the cells in front of it have the highest indices.
abbrev SameBeyond : (ℕ → ℕ) → (ℕ → ℕ) → Type 0
SameBeyond before after = (k : ℕ) → 2000 ≤ k → after k ≡ before k

-- The cursor is on the screen, in column `x` of line `y`, and the board has its place.
pub record IsValid (s : Screen) : Type 0 where
  pub x : ℕ
  pub y : ℕ
  pub at_x : s.cursor_x ≡ pos x
  pub at_y : s.cursor_y ≡ pos y
  pub column_bound : x < 80
  pub line_bound : y < 25
  pub hardware : s.hardware_cursor ≡ y * 80 + x

pub int16-small : (a : ℕ) → a < 2 ^ 15 → int16 (pos a) ≡ pos a
int16-small a small = ground arith

pub write16_self : (video : ℕ → ℕ) (i v : ℕ) → write16 video i v i ≡ v
write16_self video i v = ground arith

pub write16_other : (video : ℕ → ℕ) (i v k : ℕ) → k ≢ i → write16 video i v k ≡ video k
write16_other video i v k ne = ground (arith, ne)

-- The cells from `i` on are those a line below.
record IsCopiedUp (video : ℕ → ℕ) (i rounds : ℕ) (after : ℕ → ℕ) : Type 0 where
  copied : (k : ℕ) → i ≤ k → k < i + rounds → after k ≡ video (k + 80)
  others : (k : ℕ) → (k < i) ⊎ (i + rounds ≤ k) → after k ≡ video k

copy_up-IsCopiedUp :
    (rounds : ℕ) (video : ℕ → ℕ) (i : ℕ) → IsCopiedUp video i rounds (copy_up rounds video i)
unfolding copy_up
copy_up-IsCopiedUp zero video i = record {
  copied = λ k low high. absurd (omega arith);
  others = λ k out. refl;
}
copy_up-IsCopiedUp (suc rounds) video i =
    let video₁ = write16 video i (video (i + 80)) in
    let rest = copy_up-IsCopiedUp rounds video₁ (i + 1) in
    record {
      copied = λ k low high. elim (ℕ_discrete k i) [
        | yes e ↦
            rest.others k (inl (omega arith))
            ∙ ap video₁ e
            ∙ write16_self video i (video (i + 80))
            ∙ ap (λ (t : ℕ). video (t + 80)) (sym e)
        | no ne ↦
            rest.copied k (omega (arith, ne)) (omega arith)
            ∙ write16_other video i (video (i + 80)) (k + 80) (λ e. omega arith)
      ];
      others = λ k out.
          rest.others k (omega (arith, out))
          ∙ write16_other video i (video (i + 80)) k (λ e. omega (arith, out));
    }

record IsFilled (video : ℕ → ℕ) (i rounds : ℕ) (after : ℕ → ℕ) : Type 0 where
  filled : (k : ℕ) → i ≤ k → k < i + rounds → after k ≡ blank
  others : (k : ℕ) → (k < i) ⊎ (i + rounds ≤ k) → after k ≡ video k

fill_blank-IsFilled :
    (rounds : ℕ) (video : ℕ → ℕ) (i : ℕ) → IsFilled video i rounds (fill_blank rounds video i)
unfolding fill_blank
fill_blank-IsFilled zero video i = record {
  filled = λ k low high. absurd (omega arith);
  others = λ k out. refl;
}
fill_blank-IsFilled (suc rounds) video i =
    let video₁ = write16 video i blank in
    let rest = fill_blank-IsFilled rounds video₁ (i + 1) in
    record {
      filled = λ k low high. elim (ℕ_discrete k i) [
        | yes e ↦ rest.others k (inl (omega arith)) ∙ ap video₁ e ∙ write16_self video i blank
        | no ne ↦ rest.filled k (omega (arith, ne)) (omega arith)
      ];
      others = λ k out.
          rest.others k (omega (arith, out))
          ∙ write16_other video i blank k (λ e. omega (arith, out));
    }

-- The lines go up by one, and the last one is blank.
pub record IsScrolled (s s' : Screen) : Type 0 where
  pub lines : (k : ℕ) → k < 24 * 80 → s'.video_memory k ≡ s.video_memory (k + 80)
  pub last_line : (k : ℕ) → 24 * 80 ≤ k → k < 25 * 80 → s'.video_memory k ≡ blank
  pub beyond : SameBeyond s.video_memory s'.video_memory
  pub same_x : s'.cursor_x ≡ s.cursor_x
  pub last_y : s'.cursor_y ≡ pos 24

-- With the cursor below the last line, `scroll` moves each line up, blanks the last one and puts the cursor on it.
pub scroll-IsScrolled : (s : Screen) (y : ℕ) → s.cursor_y ≡ pos y → 25 ≤ y → IsScrolled s (scroll s)
unfolding scroll
scroll-IsScrolled s y at_y low =
    let test : at_least 25 s.cursor_y ≡ true =
      let test' : leb 25 y ≡ true = ground (arith, low) in rw at_y test' in
    let moved = copy_up (24 * 80) s.video_memory 0 in
    let up = copy_up-IsCopiedUp (24 * 80) s.video_memory 0 in
    let last = fill_blank-IsFilled 80 moved 1920 in
    rw test (record {
      lines = λ k less. last.others k (inl (omega arith)) ∙ up.copied k (omega arith) (omega arith);
      last_line = λ k lo hi. last.filled k lo (omega arith);
      beyond = λ k far. last.others k (inr (omega arith)) ∙ up.others k (inr (omega arith));
      same_x = refl;
      last_y = refl;
    })

pub scroll-unneeded : (s : Screen) (y : ℕ) → s.cursor_y ≡ pos y → y < 25 → scroll s ≡ s
unfolding scroll
scroll-unneeded s y at_y less =
    let test : at_least 25 s.cursor_y ≡ false =
      let test' : leb 25 y ≡ false = ground (arith, less) in rw at_y test' in
    rw test refl

-- Before the end of a line is looked for: at most one column or one line too far.
record IsNear (s s' : Screen) : Type 0 where
  x : ℕ
  y : ℕ
  at_x : s'.cursor_x ≡ pos x
  at_y : s'.cursor_y ≡ pos y
  near_x : x ≤ 80
  near_y : (y < 25) ⊎ ((x < 80) × (y < 26))
  beyond : SameBeyond s.video_memory s'.video_memory

-- A backspace behind the first column.
back_column :
    (c x : ℕ)
    → ((c == 0x08) && not (is_zero (pos x))) ≡ true
    → x < 80
    → int16 (pos x +ℤ negsuc 0) ≡ pos (x - 1)
back_column c zero back small = absurd (ground (arith, back))
back_column c (suc x) back small = ground (arith, small)

-- The cursor alone moves, to column `x` of line `y`.
moves-IsNear :
    (s : Screen) (cursor_x cursor_y : ℤ) (x y : ℕ)
    → cursor_x ≡ pos x
    → cursor_y ≡ pos y
    → x ≤ 80
    → (y < 25) ⊎ ((x < 80) × (y < 26))
    → IsNear s (record s { cursor_x = cursor_x; cursor_y = cursor_y })
moves-IsNear s cursor_x cursor_y x y at_x at_y near_x near_y = record {
  x = x;
  y = y;
  at_x = at_x;
  at_y = at_y;
  near_x = near_x;
  near_y = near_y;
  beyond = λ k far. refl;
}

-- A character that is shown, in column `x` of line `y`.
shown-IsNear :
    (s : Screen) (c color : ℕ)
    → IsValid s
    → IsNear s (record s {
      video_memory =
          write16 s.video_memory (low_bits 31 (cursor_place s)) (bit_or c (attribute color));
      cursor_x = int16 (s.cursor_x +ℤ pos 1);
    })
shown-IsNear s c color valid =
    let x_bound = valid.column_bound in
    let y_bound = valid.line_bound in
    let place : low_bits 31 (cursor_place s) ≡ valid.y * 80 + valid.x =
      rw (valid.at_x, valid.at_y) (omega (arith, x_bound, y_bound)) in
    record {
      x = valid.x + 1;
      y = valid.y;
      at_x = rw valid.at_x (int16-small (valid.x + 1) (omega (arith, x_bound)));
      at_y = valid.at_y;
      near_x = omega (arith, x_bound);
      near_y = inl y_bound;
      beyond = λ k far.
          write16_other s.video_memory (low_bits 31 (cursor_place s)) (bit_or c (attribute color)) k
            (λ e. omega (arith, place, x_bound, y_bound));
    }

put_char-IsNear : (s : Screen) (c color : ℕ) → IsValid s → IsNear s (put_char s c color)
unfolding put_char
put_char-IsNear s c color valid =
    let x = valid.x in
    let y = valid.y in
    let x_bound = valid.column_bound in
    let y_bound = valid.line_bound in
    elim (Bool-cases ((c == 0x08) && not (is_zero s.cursor_x))) [
      | inl back ↦
          let at_x : int16 (s.cursor_x +ℤ negsuc 0) ≡ pos (x - 1) =
            let back' = rw valid.at_x at back in rw valid.at_x (back_column c x back' x_bound) in
          rw back (
            moves-IsNear s (int16 (s.cursor_x +ℤ negsuc 0)) s.cursor_y (x - 1) y at_x valid.at_y
              (omega (arith, x_bound)) (inl y_bound))
      | inr other ↦ elim (Bool-cases (c == 0x09)) [
        | inl tab ↦
            let z = int16 (pos (low_bits 16 (s.cursor_x +ℤ pos 8) / 8 * 8)) in
            let at_x : z ≡ pos ((x + 8) % 2 ^ 16 / 8 * 8) =
              rw valid.at_x (int16-small ((x + 8) % 2 ^ 16 / 8 * 8) (omega (arith, x_bound))) in
            rw (other, tab)
              (moves-IsNear s z s.cursor_y ((x + 8) % 2 ^ 16 / 8 * 8) y at_x valid.at_y
                (omega (arith, x_bound)) (inl y_bound))
        | inr other' ↦ elim (Bool-cases (c == 0x0d)) [
          | inl start ↦
              rw (other, other', start)
                (moves-IsNear s (pos 0) s.cursor_y 0 y refl valid.at_y (omega arith) (inl y_bound))
          | inr other₂ ↦ elim (Bool-cases (c == 0x0a)) [
            | inl feed ↦
                let at_y : int16 (s.cursor_y +ℤ pos 1) ≡ pos (y + 1) =
                  rw valid.at_y (int16-small (y + 1) (omega (arith, y_bound))) in
                rw (other, other', other₂, feed)
                  (moves-IsNear s (pos 0) (int16 (s.cursor_y +ℤ pos 1)) 0 (y + 1) refl at_y
                    (omega arith) (inr (omega arith, omega (arith, y_bound))))
            | inr other₃ ↦ elim (Bool-cases (leb 0x20 c && ltb c 0x80)) [
              | inl shown ↦ rw (other, other', other₂, other₃, shown) (shown-IsNear s c color valid)
              | inr hidden ↦
                  rw (other, other', other₂, other₃, hidden)
                    (moves-IsNear s s.cursor_x s.cursor_y x y valid.at_x valid.at_y
                      (omega (arith, x_bound)) (inl y_bound))
            ]
          ]
        ]
      ]
    ]

-- Before the screen is scrolled: at most one line too far.
record IsWrapped (s s' : Screen) : Type 0 where
  x : ℕ
  y : ℕ
  at_x : s'.cursor_x ≡ pos x
  at_y : s'.cursor_y ≡ pos y
  wrapped_x : x < 80
  wrapped_y : y < 26
  beyond : SameBeyond s.video_memory s'.video_memory

wrap_line-IsWrapped : (s s₁ : Screen) → IsNear s s₁ → IsWrapped s (wrap_line s₁)
unfolding wrap_line
wrap_line-IsWrapped s s₁ near = elim (dec_lt near.x 80) [
  | no full ↦
      let test : at_least 80 s₁.cursor_x ≡ true =
        let test' : leb 80 near.x ≡ true = ground (arith, full) in rw near.at_x test' in
      let line : near.y < 25 = omega (arith, near.near_y, full) in
      rw test (record {
        x = 0;
        y = near.y + 1;
        at_x = refl;
        at_y = rw near.at_y (int16-small (near.y + 1) (omega (arith, line)));
        wrapped_x = omega arith;
        wrapped_y = omega (arith, line);
        beyond = near.beyond;
      })
  | yes room ↦
      let test : at_least 80 s₁.cursor_x ≡ false =
        let test' : leb 80 near.x ≡ false = ground (arith, room) in rw near.at_x test' in
      rw test (record {
        x = near.x;
        y = near.y;
        at_x = near.at_x;
        at_y = near.at_y;
        wrapped_x = room;
        wrapped_y = omega (arith, near.near_y);
        beyond = near.beyond;
      })
]

move_cursor_position-IsValid :
    (s : Screen) (x y : ℕ)
    → s.cursor_x ≡ pos x
    → s.cursor_y ≡ pos y
    → x < 80
    → y < 25
    → IsValid (move_cursor_position s)
unfolding move_cursor_position
move_cursor_position-IsValid s x y at_x at_y small small' = record {
  x = x;
  y = y;
  at_x = at_x;
  at_y = at_y;
  column_bound = small;
  line_bound = small';
  hardware = rw (at_x, at_y) (omega (arith, small, small'));
}

-- `s'` is a valid screen, and no cell behind the screen has changed from `s`.
pub record IsKept (s s' : Screen) : Type 0 where
  pub valid : IsValid s'
  pub beyond : SameBeyond s.video_memory s'.video_memory

scroll-IsKept : (s s₁ : Screen) → IsWrapped s s₁ → IsKept s (move_cursor_position (scroll s₁))
unfolding move_cursor_position
scroll-IsKept s s₁ wrapped = elim (dec_lt wrapped.y 25) [
  | yes less ↦ rw (scroll-unneeded s₁ wrapped.y wrapped.at_y less) (record {
    valid =
        move_cursor_position-IsValid s₁ wrapped.x wrapped.y wrapped.at_x wrapped.at_y
          wrapped.wrapped_x less;
    beyond = wrapped.beyond;
  })
  | no more ↦
      let done = scroll-IsScrolled s₁ wrapped.y wrapped.at_y (omega (arith, more)) in
      record {
        valid =
            move_cursor_position-IsValid (scroll s₁) wrapped.x 24 (done.same_x ∙ wrapped.at_x)
              done.last_y wrapped.wrapped_x (omega arith);
        beyond = λ k far. done.beyond k far ∙ wrapped.beyond k far;
      }
]

-- Whatever the character, a valid screen is valid after it, and no cell outside of the screen is written.
pub write_char-IsKept :
    (s : Screen) (c color : ℕ) → IsValid s → IsKept s (monitor_write_char_with_color s c color)
unfolding monitor_write_char_with_color
write_char-IsKept s c color valid =
    scroll-IsKept s (wrap_line (put_char s c color))
      (wrap_line-IsWrapped s (put_char s c color) (put_char-IsNear s c color valid))

pub write_chars-IsKept :
    (s : Screen) (cs : List ℕ) (color : ℕ) → IsValid s → IsKept s (write_chars s cs color)
unfolding write_chars
write_chars-IsKept s [] color valid = record { valid = valid; beyond = λ k far. refl }
write_chars-IsKept s (c ∷ cs) color valid =
    let first = write_char-IsKept s c color valid in
    let rest = write_chars-IsKept (monitor_write_char_with_color s c color) cs color first.valid in
    record { valid = rest.valid; beyond = λ k far. rest.beyond k far ∙ first.beyond k far }

-- The remainder of a negative number, made positive.
rem-neg : (k : ℕ) → k < 80 → (r : ℕ) × (rem (neg (pos k) +ℤ pos 80) 80 ≡ pos r) × (r < 80)
rem-neg zero small = (0, refl, omega arith)
rem-neg (suc k) small =
    let test : leb (k + 1) 80 ≡ true = ground (arith, small) in
    ((80 - (k + 1)) % 80, rw test refl, omega arith)

-- `mod` by 80 is a column.
mod_floor-column : (x : ℤ) → (r : ℕ) × (mod_floor x 80 ≡ pos r) × (r < 80)
unfolding mod_floor
mod_floor-column (pos n) = ((n % 80 + 80) % 80, refl, omega arith)
mod_floor-column (negsuc n) = rem-neg ((n + 1) % 80) (omega arith)

placed-IsKept :
    (s : Screen) (cursor_x cursor_y : ℤ) (x y : ℕ)
    → cursor_x ≡ pos x
    → cursor_y ≡ pos y
    → x < 80
    → y < 25
    → IsKept s (move_cursor_position (record s { cursor_x = cursor_x; cursor_y = cursor_y }))
unfolding move_cursor_position
placed-IsKept s cursor_x cursor_y x y at_x at_y small small' = record {
  valid =
      move_cursor_position-IsValid (record s { cursor_x = cursor_x; cursor_y = cursor_y }) x y at_x
        at_y small small';
  beyond = λ k far. refl;
}

clamp_cursor-IsKept :
    (s : Screen) (x y : ℤ) (r : ℕ)
    → x ≡ pos r
    → r < 80
    → IsKept s (move_cursor_position (clamp_cursor s x y))
clamp_cursor-IsKept s x (negsuc y) r at_x small =
    placed-IsKept s (pos 0) (pos 0) 0 0 refl refl (omega arith) (omega arith)
clamp_cursor-IsKept s x (pos y) r at_x small = elim (Bool-cases (leb 25 y)) [
  | inl low ↦ rw low (placed-IsKept s (pos 79) (pos 24) 79 24 refl refl (omega arith) (omega arith))
  | inr high ↦ rw high (placed-IsKept s x (pos y) r y at_x refl small (ground (arith, high)))
]

-- However far the cursor is to move, and wherever it was before, it is on the screen after the move, and no cell outside of
-- the screen is written.
pub moved_cursor-IsKept :
    (s : Screen) (delta_x delta_y : ℤ) → IsKept s (moved_cursor s delta_x delta_y)
unfolding moved_cursor
moved_cursor-IsKept s delta_x delta_y =
    let x = int16 (s.cursor_x +ℤ delta_x) in
    let (r, at_x, small) = mod_floor-column x in
    clamp_cursor-IsKept s (int16 (mod_floor x 80)) (int16 (s.cursor_y +ℤ (delta_y +ℤ div x 80))) r
      (ap int16 at_x ∙ int16-small r (omega (arith, small))) small

cleared-IsKept : (s : Screen) → IsKept s (cleared s)
unfolding cleared move_cursor_position
cleared-IsKept s =
    let filled = fill_blank-IsFilled 2000 s.video_memory 0 in
    let s' = record s {
      video_memory = fill_blank 2000 s.video_memory 0;
      cursor_x = pos 0;
      cursor_y = pos 0;
    } in
    record {
      valid = move_cursor_position-IsValid s' 0 0 refl refl (omega arith) (omega arith);
      beyond = λ k far. filled.others k (inr (omega arith));
    }
