-- ===== src/Monitor/Cursor.antt =====
-- Where `monitor_move_cursor` puts the cursor.
use luck_os.Common.{
  ℕ, ◌+◌, ◌*◌, ◌/◌, ◌%◌, ◌^◌, ◌<◌, ◌≡◌, refl, sym, ap, ◌∙◌, arith, true, false, leb, if◌then◌else◌,
  Bool-cases, inl, inr,
}
use luck_os.Common.Int.{ℤ, pos, negsuc, ◌+ℤ◌, int16, scale, is_negative}
use luck_os.Utils.Math.{div, mod_floor}
use luck_os.Monitor.{Screen, move_cursor_position, clamp_cursor, moved_cursor}
use luck_os.Monitor.Bounds.{IsValid, IsKept, int16-small, moved_cursor-IsKept}

-- A number of less than `bound` in size.
abbrev IsWithin : ℕ → ℤ → Type 0
IsWithin bound (pos n) = n < bound
IsWithin bound (negsuc n) = n < bound

-- The place on the screen that is nearest to `place`.
abbrev on_screen : ℤ → ℕ
on_screen (pos p) = if leb 2000 p then 1999 else p
on_screen (negsuc p) = 0

int16_small : (z : ℤ) → IsWithin (2 ^ 15) z → int16 z ≡ z
int16_small (pos n) small = ground (arith, small)
int16_small (negsuc n) small = ground (arith, small)

widen : (z : ℤ) → IsWithin (2 ^ 14 + 80) z → IsWithin (2 ^ 15) z
widen (pos n) small = omega (arith, small)
widen (negsuc n) small = omega (arith, small)

column-IsWithin :
    (x : ℕ) (dx : ℤ) → x < 80 → IsWithin (2 ^ 14) dx → IsWithin (2 ^ 14 + 80) (pos x +ℤ dx)
column-IsWithin x (pos n) small narrow = omega (arith, small, narrow)
column-IsWithin x (negsuc n) small narrow = elim (Bool-cases (leb (n + 1) x)) [
  | inl test ↦ rw test (omega (arith, small, narrow))
  | inr test ↦ rw test (omega (arith, small, narrow))
]

line-IsWithin :
    (y : ℕ) (z dy : ℤ)
    → y < 25
    → IsWithin (2 ^ 14 + 80) z
    → IsWithin (2 ^ 14) dy
    → IsWithin (2 ^ 15) (pos y +ℤ (dy +ℤ div z 80))
unfolding div
line-IsWithin y (pos a) (pos b) small h h' = ground (arith, small, h, h')
line-IsWithin y (pos a) (negsuc b) small h h' = ground (arith, small, h, h')
line-IsWithin y (negsuc a) (pos b) small h h' = ground (arith, small, h, h')
line-IsWithin y (negsuc a) (negsuc b) small h h' = ground (arith, small, h, h')

-- The place in line `y` that is `z` columns and `dy` lines further.
abbrev place : ℕ → ℤ → ℤ → ℤ
place y z dy = pos (y * 80) +ℤ (z +ℤ scale dy 80)

place-pos :
    (y : ℕ) (z dy : ℤ) (p : ℕ)
    → place y z dy ≡ pos p
    → (mod_floor z 80 ≡ pos (p % 80)) × (pos y +ℤ (dy +ℤ div z 80) ≡ pos (p / 80))
unfolding mod_floor div
place-pos y (pos a) (pos b) p e = (ground (arith, e), ground (arith, e))
place-pos y (pos a) (negsuc b) p e = (ground (arith, e), ground (arith, e))
place-pos y (negsuc a) (pos b) p e = (ground (arith, e), ground (arith, e))
place-pos y (negsuc a) (negsuc b) p e = (ground (arith, e), ground (arith, e))

place-neg :
    (y : ℕ) (z dy : ℤ) (p : ℕ)
    → place y z dy ≡ negsuc p
    → is_negative (pos y +ℤ (dy +ℤ div z 80)) ≡ true
unfolding div
place-neg y (pos a) (pos b) p e = ground (arith, e)
place-neg y (pos a) (negsuc b) p e = ground (arith, e)
place-neg y (negsuc a) (pos b) p e = ground (arith, e)
place-neg y (negsuc a) (negsuc b) p e = ground (arith, e)

place-column :
    (x y : ℕ) (dx dy : ℤ) → pos (y * 80 + x) +ℤ (dx +ℤ scale dy 80) ≡ place y (pos x +ℤ dx) dy
place-column x y (pos a) (pos b) = ground arith
place-column x y (pos a) (negsuc b) = ground arith
place-column x y (negsuc a) (pos b) = ground arith
place-column x y (negsuc a) (negsuc b) = ground arith

-- The cursor is at the place `p` of the screen.
pub record IsAt (s : Screen) (p : ℕ) : Type 0 where
  pub at_x : s.cursor_x ≡ pos (p % 80)
  pub at_y : s.cursor_y ≡ pos (p / 80)

clamp_cursor-IsAt :
    (s : Screen) (y : ℕ) (z dy t : ℤ)
    → place y z dy ≡ t
    → IsAt
        (move_cursor_position (clamp_cursor s (int16 (mod_floor z 80)) (pos y +ℤ (dy +ℤ div z 80))))
        (on_screen t)
unfolding move_cursor_position
clamp_cursor-IsAt s y z dy (negsuc p) e =
    rw (place-neg y z dy p e) (record { at_x = refl; at_y = refl })
clamp_cursor-IsAt s y z dy (pos p) e =
    let (column, line) = place-pos y z dy p e in
    let column' : int16 (mod_floor z 80) ≡ pos (p % 80) =
      ap int16 column ∙ int16-small (p % 80) (omega arith) in
    elim (Bool-cases (leb 2000 p)) [
      | inl far ↦
          let low : leb 25 (p / 80) ≡ true = ground (arith, far) in
          rw (column', line, far, low) (record { at_x = refl; at_y = refl })
      | inr near ↦
          let high : leb 25 (p / 80) ≡ false = ground (arith, near) in
          rw (column', line, near, high) (record { at_x = refl; at_y = refl })
    ]

moved_cursor-clamp_cursor :
    (s : Screen) (dx dy : ℤ) (valid : IsValid s)
    → IsWithin (2 ^ 14) dx
    → IsWithin (2 ^ 14) dy
    → moved_cursor s dx dy
      ≡ move_cursor_position (
          clamp_cursor s
            (int16 (mod_floor (pos valid.x +ℤ dx) 80))
            (pos valid.y +ℤ (dy +ℤ div (pos valid.x +ℤ dx) 80)))
unfolding moved_cursor
moved_cursor-clamp_cursor s dx dy valid narrow narrow' =
    let z = pos valid.x +ℤ dx in
    let w = div z 80 in
    let small = column-IsWithin valid.x dx valid.column_bound narrow in
    let wide = line-IsWithin valid.y z dy valid.line_bound small narrow' in
    let at_x : int16 (s.cursor_x +ℤ dx) ≡ z =
      ap (λ (t : ℤ). int16 (t +ℤ dx)) valid.at_x ∙ int16_small z (widen z small) in
    let at_y : int16 (s.cursor_y +ℤ (dy +ℤ w)) ≡ pos valid.y +ℤ (dy +ℤ w) =
      ap (λ (t : ℤ). int16 (t +ℤ (dy +ℤ w))) valid.at_y
      ∙ int16_small (pos valid.y +ℤ (dy +ℤ w)) wide in
    ap
      (λ (t : ℤ).
        move_cursor_position
          (clamp_cursor s (int16 (mod_floor t 80)) (int16 (s.cursor_y +ℤ (dy +ℤ div t 80)))))
      at_x
    ∙ ap (λ (t : ℤ). move_cursor_position (clamp_cursor s (int16 (mod_floor z 80)) t)) at_y

-- On a valid screen, for distances of less than 2 ^ 14, the cursor goes `delta_x` columns and `delta_y` lines further in the
-- order of the cells, or as far as the screen reaches; the screen is valid, and no cell outside of it is written.
pub moved_cursor-IsAt :
    (s : Screen) (delta_x delta_y : ℤ) (valid : IsValid s)
    → IsWithin (2 ^ 14) delta_x
    → IsWithin (2 ^ 14) delta_y
    → IsAt
        (moved_cursor s delta_x delta_y)
        (on_screen (pos (valid.y * 80 + valid.x) +ℤ (delta_x +ℤ scale delta_y 80)))
      × IsKept s (moved_cursor s delta_x delta_y)
moved_cursor-IsAt s delta_x delta_y valid narrow narrow' =
    let z = pos valid.x +ℤ delta_x in
    let t = pos (valid.y * 80 + valid.x) +ℤ (delta_x +ℤ scale delta_y 80) in
    (
      rw (moved_cursor-clamp_cursor s delta_x delta_y valid narrow narrow') (
          clamp_cursor-IsAt s valid.y z delta_y t
            (sym (place-column valid.x valid.y delta_x delta_y))),
      moved_cursor-IsKept s delta_x delta_y,
    )
