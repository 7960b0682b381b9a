-- ===== src/Monitor/Decimal.antt =====
-- `monitor_write_dec_with_color` prints the digits of its number.
use luck_os.Common.{
  ℕ, zero, suc, ◌+◌, ◌-◌, ◌*◌, ◌/◌, ◌%◌, ◌^◌, ◌<◌, ◌≡◌, ◌≢◌, refl, sym, ap, ◌∙◌, arith, List, [],
  ◌∷◌, ◌++◌, ◌==◌, false, some, ◌>>=◌,
}
use mathlib.Core.List.{append_assoc, append-nil}
use native.Mathlib.Nat.{pow-suc}
use luck_os.Common.Int.{ℤ, pos, negsuc}
use luck_os.Stdlib.Numbers.{
  read_digits, read_int, AreDigits, NoLeadingZero, IsDecimal, IsSigned, read_int-digits,
  read_int-minus,
}
use luck_os.Monitor.{Screen, monitor_write_char_with_color, write_chars}
use luck_os.Monitor.Print.{
  dec_digits, reverse_digits, write_magnitude, monitor_write_dec_with_color,
}

-- The number whose digits are in the list, the lowest first.
low_first : List ℕ → ℕ
low_first [] = 0
low_first (d ∷ ds) = low_first ds * 10 + (d - 0x30)

reverse_digits-reads :
    (ds c2 : List ℕ) → read_digits 0 (reverse_digits ds c2) ≡ read_digits (low_first ds) c2
unfolding reverse_digits read_digits low_first
reverse_digits-reads [] c2 = refl
reverse_digits-reads (d ∷ ds) c2 = reverse_digits-reads ds (d ∷ c2)

reverse_digits-AreDigits :
    (ds c2 : List ℕ) → AreDigits ds → AreDigits c2 → AreDigits (reverse_digits ds c2)
unfolding reverse_digits
reverse_digits-AreDigits [] c2 h h' = h'
reverse_digits-AreDigits (d ∷ ds) c2 h h' = reverse_digits-AreDigits ds (d ∷ c2) h.2 (h.0, h.1, h')

-- The last character is not a 0.
NoTrailingZero : List ℕ → Type 0
NoTrailingZero [] = Unit
NoTrailingZero (d ∷ ds) = (ds ≡ [] → d ≢ 0x30) × NoTrailingZero ds

reverse_digits-NoLeadingZero :
    (ds c2 : List ℕ)
    → NoTrailingZero ds
    → (ds ≡ [] → NoLeadingZero c2)
    → NoLeadingZero (reverse_digits ds c2)
unfolding reverse_digits NoTrailingZero
reverse_digits-NoLeadingZero [] c2 h h' = h' refl
reverse_digits-NoLeadingZero (d ∷ ds) c2 h h' = reverse_digits-NoLeadingZero ds (d ∷ c2) h.1 h.0

low_first-nil : (ds : List ℕ) → ds ≡ [] → low_first ds ≡ 0
unfolding low_first
low_first-nil ds e = ap low_first e

dec_digits-low_first :
    (fuel k acc : ℕ) (c : List ℕ)
    → acc < 10 ^ k
    → k < fuel
    → (ds : List ℕ) × (dec_digits fuel acc c ≡ some (c ++ ds))
      × (AreDigits ds)
      × (NoTrailingZero ds)
      × (low_first ds ≡ acc)
unfolding dec_digits low_first NoTrailingZero
dec_digits-low_first zero k acc c small less = absurd (omega arith)
dec_digits-low_first (suc fuel) k zero c small less =
    ([], ap some (sym (append-nil c)), tt, tt, refl)
dec_digits-low_first (suc fuel) zero (suc acc) c small less = absurd (omega arith)
dec_digits-low_first (suc fuel) (suc k) (suc acc) c small less =
    let d = 0x30 + suc acc % 10 in
    let test : (suc acc == 0) ≡ false = ground arith in
    let (ds, run, digits, last, value) =
      dec_digits-low_first fuel k (suc acc / 10) (c ++ (d ∷ [])) (omega (arith, pow-suc 10 k))
        (omega arith) in
    (
      d ∷ ds,
      rw test (run ∙ ap some (append_assoc c (d ∷ []) ds)),
      (omega arith, omega arith, digits),
      (
        λ none.
            let only = low_first-nil ds none in
            λ zero_digit. omega (arith, only, value, zero_digit),
        last,
      ),
      omega (arith, value),
    )

-- The digits of a number are printed in their order.
write_magnitude-reads :
    (fuel : ℕ) (s : Screen) (acc color : ℕ)
    → acc < 10 ^ 10
    → 10 < fuel
    → (text : List ℕ) × (write_magnitude fuel s acc color ≡ some (write_chars s text color))
      × IsDecimal text acc
unfolding write_magnitude read_digits
write_magnitude-reads fuel s acc color small enough =
    let (ds, run, digits, last, value) = dec_digits-low_first fuel 10 acc [] small enough in
    (
      reverse_digits ds [],
      rw (run, ◌>>=◌) refl,
      record {
        are_digits = reverse_digits-AreDigits ds [] digits tt;
        no_zero = reverse_digits-NoLeadingZero ds [] last (λ none. tt);
        reads = reverse_digits-reads ds [] ∙ value;
      },
    )

-- An `int32`.
abbrev IsInt32 : ℤ → Type 0
IsInt32 (pos n) = n < 2 ^ 31
IsInt32 (negsuc n) = n < 2 ^ 31

-- What is printed of a number: a single 0, or its digits without a leading zero, behind a minus sign if it is negative.
abbrev pub IsNumberText : List ℕ → ℤ → Type 0
IsNumberText text (pos zero) = text ≡ 0x30 ∷ []
IsNumberText text (pos (suc n)) = IsSigned text (pos (suc n))
IsNumberText text (negsuc n) = IsSigned text (negsuc n)

-- With fuel for 10 digits and one more, `monitor_write_dec_with_color` prints every `int32` as its decimal digits without a
-- leading zero, behind a minus sign if it is negative, and 0 as a single 0. The text reads back as the number.
pub write_dec-reads :
    (fuel : ℕ) (s : Screen) (n : ℤ) (color : ℕ)
    → 10 < fuel
    → IsInt32 n
    → (text : List ℕ) × (monitor_write_dec_with_color fuel s n color
        ≡ some (write_chars s text color))
      × (IsNumberText text n)
      × (read_int text ≡ n)
unfolding monitor_write_dec_with_color write_chars read_int read_digits
write_dec-reads fuel s (pos zero) color enough small = (0x30 ∷ [], refl, refl, refl)
write_dec-reads fuel s (pos (suc n)) color enough small =
    let (text, run, decimal) = write_magnitude-reads fuel s (suc n) color (omega arith) enough in
    (text, run, decimal, read_int-digits text decimal.are_digits ∙ ap pos decimal.reads)
write_dec-reads fuel s (negsuc n) color enough small =
    let (text, run, decimal) =
      write_magnitude-reads fuel (monitor_write_char_with_color s 0x2d color) (n + 1) color
        (omega arith) enough in
    (0x2d ∷ text, run, (text, refl, decimal), read_int-minus text n decimal.reads)
