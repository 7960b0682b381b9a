-- ===== src/Stdlib/Numbers.antt =====
-- `int2str` writes the digits of its number: they read back as the number.
use luck_os.Common.{
  ℕ, zero, suc, ◌+◌, ◌-◌, ◌*◌, ◌/◌, ◌%◌, ◌^◌, ◌≤◌, ◌<◌, ◌≡◌, ◌≢◌, refl, sym, ap, ◌∙◌, some, List,
  [], ◌∷◌, ◌++◌, arith, ◌==◌, if◌then◌else◌, length, length-append, ◌⊎◌, inl, subst, false, ◌>>=◌,
}
use mathlib.Core.List.{append_assoc, append-nil}
use native.Mathlib.Nat.{pow-suc}
use luck_os.Common.Int.{ℤ, pos, negsuc}
use luck_os.Kheap.Bytes.{Memory, write8, read8-write8_self, read8-write8_apart}
use luck_os.Stdlib.{int2str, write_digits, write_sign, digits_from, decimal_digit, minus_sign}
use luck_os.Stdlib.Strings.{IsString, IsString-frame}
use luck_os.Stdlib.Copy.{SameApart, AreDisjoint, strcpy-IsStringCopy}

-- Reading decimal digits behind the number `acc`.
unfoldable pub read_digits : ℕ → List ℕ → ℕ
read_digits acc [] = acc
read_digits acc (c ∷ cs) = read_digits (acc * 10 + (c - 0x30)) cs

-- Reading a number with a minus sign or without.
unfoldable pub read_int : List ℕ → ℤ
read_int [] = pos 0
read_int (c ∷ cs) =
    if c == minus_sign
    then (if read_digits 0 cs == 0 then pos 0 else negsuc (read_digits 0 cs - 1))
    else pos (read_digits 0 (c ∷ cs))

abbrev pub AreDigits : List ℕ → Type 0
AreDigits [] = Unit
AreDigits (c ∷ cs) = (0x30 ≤ c) × (c < 0x3a) × AreDigits cs

-- The first character is not a 0.
abbrev pub NoLeadingZero : List ℕ → Type 0
NoLeadingZero [] = Unit
NoLeadingZero (c ∷ cs) = c ≢ 0x30

-- The decimal digits of a number, without a leading zero: those of 0 are none.
pub record IsDecimal (text : List ℕ) (num : ℕ) : Type 0 where
  pub are_digits : AreDigits text
  pub no_zero : NoLeadingZero text
  pub reads : read_digits 0 text ≡ num

-- The decimal digits of a number, with a minus sign in front of them if it is negative.
abbrev pub IsSigned : List ℕ → ℤ → Type 0
IsSigned text (pos n) = IsDecimal text n
IsSigned text (negsuc n) =
    (digits : List ℕ) × (text ≡ minus_sign ∷ digits) × IsDecimal digits (n + 1)

NoLeadingZero-append :
    (cs : List ℕ) (d : ℕ) → NoLeadingZero cs → (cs ≡ [] → d ≢ 0x30) → NoLeadingZero (cs ++ (d ∷ []))
NoLeadingZero-append [] d h last = last refl
NoLeadingZero-append (c ∷ cs) d h last = h

read_digits-nil : (cs : List ℕ) → cs ≡ [] → read_digits 0 cs ≡ 0
unfolding read_digits
read_digits-nil cs e = ap (λ (t : List ℕ). read_digits 0 t) e

read_digits-append :
    (acc : ℕ) (cs : List ℕ) (d : ℕ)
    → read_digits acc (cs ++ (d ∷ [])) ≡ read_digits acc cs * 10 + (d - 0x30)
unfolding read_digits
read_digits-append acc [] d = refl
read_digits-append acc (c ∷ cs) d = read_digits-append (acc * 10 + (c - 0x30)) cs d

AreDigits-append :
    (cs : List ℕ) (d : ℕ) → AreDigits cs → 0x30 ≤ d → d < 0x3a → AreDigits (cs ++ (d ∷ []))
AreDigits-append [] d h lo hi = (lo, hi, tt)
AreDigits-append (c ∷ cs) d h lo hi = (h.0, h.1, AreDigits-append cs d h.2 lo hi)

-- The digits that the loop writes in front of what stands behind `i`.
pub record IsWritten (m : Memory) (buf i num : ℕ) (behind : List ℕ) (i' : ℕ) (m' : Memory)
    : Type 0 where
  pub digits : List ℕ
  pub there : IsString m' (buf + i' + 1) (digits ++ behind)
  pub decimal : IsDecimal digits num
  pub count : i' + length digits ≡ i
  pub others : SameApart m m' buf 15

write_one :
    (fuel : ℕ) (m : Memory) (buf j num : ℕ) (behind : List ℕ) (i' : ℕ) (m' : Memory)
    → num ≢ 0
    → j < 14
    → digits_from decimal_digit 10 fuel
        (write8 m (buf + suc j) (decimal_digit (num % 10)))
        buf
        j
        (num / 10)
      ≡ some (i', m')
    → IsWritten
        (write8 m (buf + suc j) (decimal_digit (num % 10)))
        buf
        j
        (num / 10)
        (decimal_digit (num % 10) ∷ behind)
        i'
        m'
    → (digits_from decimal_digit 10 (suc fuel) m buf (suc j) num ≡ some (i', m'))
      × IsWritten m buf (suc j) num behind i' m'
unfolding digits_from
write_one fuel m buf j num behind i' m' ne small run done =
    let d = decimal_digit (num % 10) in
    let test : (num == 0) ≡ false = ground arith in
    let e : suc j - 1 ≡ j = omega arith in
    (
      rw (test, e) run,
      record {
        digits = done.digits ++ (d ∷ []);
        there =
            subst (λ (t : List ℕ). IsString m' (buf + i' + 1) t)
              (sym (append_assoc done.digits (d ∷ []) behind)) done.there;
        decimal = record {
          are_digits =
              AreDigits-append done.digits d done.decimal.are_digits (omega arith) (omega arith);
          no_zero = NoLeadingZero-append done.digits d done.decimal.no_zero (λ none.
              let only = read_digits-nil done.digits none in
              λ zero_digit. omega (arith, only, done.decimal.reads, ne, zero_digit));
          reads = omega (arith, read_digits-append 0 done.digits d, done.decimal.reads);
        };
        count = omega (arith, done.count, length-append done.digits (d ∷ []));
        others = λ x out.
            done.others x out ∙ read8-write8_apart m (buf + suc j) d x (omega (arith, out));
      },
    )

digits_from-IsWritten :
    (fuel : ℕ) (m : Memory) (buf i num : ℕ) (behind : List ℕ)
    → i < fuel
    → i < 15
    → num < 10 ^ i
    → IsString m (buf + i + 1) behind
    → (i' : ℕ) × (m' : Memory) × (digits_from decimal_digit 10 fuel m buf i num ≡ some (i', m'))
      × IsWritten m buf i num behind i' m'
unfolding digits_from read_digits
digits_from-IsWritten zero m buf i num behind less room small s = absurd (omega arith)
digits_from-IsWritten (suc fuel) m buf i zero behind less room small s = (
  i,
  m,
  refl,
  record {
    digits = [];
    there = s;
    decimal = record { are_digits = tt; no_zero = tt; reads = refl };
    count = omega arith;
    others = λ x out. refl;
  },
)
digits_from-IsWritten (suc fuel) m buf zero (suc num) behind less room small s =
    absurd (omega arith)
digits_from-IsWritten (suc fuel) m buf (suc j) (suc num) behind less room small s =
    let d = decimal_digit (suc num % 10) in
    let m₁ = write8 m (buf + suc j) d in
    let place : buf + suc j ≡ buf + j + 1 = omega arith in
    let here : m₁ (buf + j + 1) ≡ d =
      ap m₁ (sym place) ∙ read8-write8_self m (buf + suc j) d (omega arith) in
    let next : buf + suc j + 1 ≡ buf + j + 1 + 1 = omega arith in
    let rest : IsString m₁ (buf + j + 1 + 1) behind =
      subst (λ (t : ℕ). IsString m₁ t behind) next
        (IsString-frame m m₁ (buf + suc j + 1) behind
          (λ x lo hi. read8-write8_apart m (buf + suc j) d x (omega arith)) s) in
    let fits : suc num / 10 < 10 ^ j = omega (arith, pow-suc 10 j) in
    let (i', m', run, done) =
      digits_from-IsWritten fuel m₁ buf j (suc num / 10) (d ∷ behind) (omega arith) (omega arith)
        fits (here, omega arith, omega arith, rest) in
    let (run', done') =
      write_one fuel m buf j (suc num) behind i' m' (λ e. omega arith) (omega arith) run done in
    (i', m', run', done')

-- The digits at `dst + start`.
record IsPrinted (m : Memory) (buf dst start num : ℕ) (length' : ℕ) (m' : Memory) : Type 0 where
  digits : List ℕ
  there : IsString m' (dst + start) digits
  decimal : IsDecimal digits num
  size : length' ≡ start + length digits
  others : (x : ℕ) → x < dst + start → (x < buf) ⊎ (buf + 16 ≤ x) → m' x ≡ m x

write_digits-IsPrinted :
    (fuel : ℕ) (m : Memory) (buf dst start num : ℕ)
    → 15 < fuel
    → num < 10 ^ 10
    → AreDisjoint buf 16 (dst + start) 16
    → (length' : ℕ) × (m' : Memory) × (write_digits decimal_digit 10 fuel m buf dst start num
        ≡ some (length', m'))
      × IsPrinted m buf dst start num length' m'
unfolding write_digits
write_digits-IsPrinted fuel m buf dst start num enough small apart =
    let m₀ = write8 m (buf + 15) 0 in
    let place : buf + 14 + 1 ≡ buf + 15 = omega arith in
    let (i, m₁, run, done) =
      digits_from-IsWritten fuel m₀ buf 14 num [] (omega arith) (omega arith) (omega arith)
        (ap m₀ place ∙ read8-write8_self m (buf + 15) 0 (omega arith)) in
    let digits = done.digits in
    let nil : digits ++ [] ≡ digits = append-nil digits in
    let there = subst (λ (t : List ℕ). IsString m₁ (buf + i + 1) t) nil done.there in
    let (m₂, run', copy) =
      strcpy-IsStringCopy fuel m₁ (dst + start) (buf + i + 1) digits (omega (arith, done.count))
        (omega (arith, done.count, apart)) there in
    (
      start + 14 - i,
      m₂,
      rw (run, ◌>>=◌, run') refl,
      record {
        digits = digits;
        there = copy.there;
        decimal = done.decimal;
        size = omega (arith, done.count);
        others = λ x before out.
            copy.others x (inl before)
            ∙ done.others x (omega (arith, out))
            ∙ read8-write8_apart m (buf + 15) 0 x (omega (arith, out));
      },
    )

-- An `int32` but the least one.
abbrev IsInRange : ℤ → Type 0
IsInRange (pos n) = n < 2 ^ 31
IsInRange (negsuc n) = n + 1 < 2 ^ 31

-- The string that `int2str` leaves at `dst`.
pub record IsNumeral (dst : ℕ) (num : ℤ) (length' : ℕ) (m' : Memory) : Type 0 where
  pub text : List ℕ
  pub there : IsString m' dst text
  pub size : length' ≡ length text
  pub signed : IsSigned text num
  pub reads : read_int text ≡ num

pub read_int-digits : (cs : List ℕ) → AreDigits cs → read_int cs ≡ pos (read_digits 0 cs)
unfolding read_int read_digits
read_int-digits [] h = refl
read_int-digits (c ∷ cs) h =
    let test : (c == minus_sign) ≡ false = ground (arith, h.0) in rw test refl

pub read_int-minus :
    (cs : List ℕ) (n : ℕ) → read_digits 0 cs ≡ n + 1 → read_int (minus_sign ∷ cs) ≡ negsuc n
unfolding read_int
read_int-minus cs n e =
    let test : (read_digits 0 cs == 0) ≡ false = ground (arith, e) in
    let less : read_digits 0 cs - 1 ≡ n = omega (arith, e) in rw (test, less) refl

-- For a number that is not the least `int32`, with fuel for its digits and a buffer apart from the target,
-- `int2str` returns the length of the string that it writes: the decimal digits of the number, without a leading zero and
-- so the empty string for 0, behind a minus sign if it is negative. The string reads back as the number.
pub int2str-IsNumeral :
    (fuel : ℕ) (m : Memory) (buf dst : ℕ) (num : ℤ)
    → 15 < fuel
    → IsInRange num
    → AreDisjoint buf 16 dst 17
    → (length' : ℕ) × (m' : Memory) × (int2str fuel m buf dst num ≡ some (length', m'))
      × IsNumeral dst num length' m'
unfolding int2str write_sign
int2str-IsNumeral fuel m buf dst (pos n) enough small apart =
    let (length', m', run, done) =
      write_digits-IsPrinted fuel m buf dst 0 n enough (omega arith) (omega (arith, apart)) in
    let place : dst + 0 ≡ dst = omega arith in
    (
      length',
      m',
      run,
      record {
        text = done.digits;
        there = subst (λ (t : ℕ). IsString m' t done.digits) place done.there;
        size = omega (arith, done.size);
        signed = done.decimal;
        reads = read_int-digits done.digits done.decimal.are_digits ∙ ap pos done.decimal.reads;
      },
    )
int2str-IsNumeral fuel m buf dst (negsuc n) enough small apart =
    let m₁ = write8 m dst minus_sign in
    let test : (n + 1 == 2 ^ 31) ≡ false = ground arith in
    let (length', m', run, done) =
      write_digits-IsPrinted fuel m₁ buf dst 1 (n + 1) enough (omega arith)
        (omega (arith, apart)) in
    (
      length',
      m',
      rw test run,
      record {
        text = minus_sign ∷ done.digits;
        there = (
          done.others dst (omega arith) (omega (arith, apart))
              ∙ read8-write8_self m dst minus_sign (omega arith),
          omega arith,
          omega arith,
          done.there,
        );
        size = omega (arith, done.size);
        signed = (done.digits, refl, done.decimal);
        reads = read_int-minus done.digits n done.decimal.reads;
      },
    )
