-- ===== src/Mem/Gdt/Fields.antt =====
-- What the processor reads in the descriptors.
use luck_os.Common.{ℕ, ◌+◌, ◌*◌, ◌/◌, ◌%◌, ◌^◌, ◌<◌, ◌≡◌, ◌≢◌, refl, ◌==◌, arith, true, false}
use luck_os.Mem.Gdt.{Gdt, GdtEntry, gdt_entry, gdt_set_gate}

-- The base and the limit that the processor puts together from the fields; bit 3 of the flags gives the limit in pages.
abbrev pub base_of : GdtEntry → ℕ
base_of e = e.base_low + e.base_middle * 2 ^ 16 + e.base_high * 2 ^ 24

abbrev pub limit_of : GdtEntry → ℕ
limit_of e = e.limit_low + e.attributes % 2 ^ 4 * 2 ^ 16

abbrev pub flags_of : GdtEntry → ℕ
flags_of e = e.attributes / 2 ^ 4

-- The privilege level of a segment.
abbrev pub level_of : GdtEntry → ℕ
level_of e = e.access / 2 ^ 5 % 4

-- The last byte of a segment with a limit in pages.
abbrev pub last_byte : GdtEntry → ℕ
last_byte e = base_of e + limit_of e * 4096 + 4095

gdt_entry-fields :
    (base limit access flags : ℕ)
    → base < 2 ^ 32
    → limit < 2 ^ 20
    → flags < 2 ^ 4
    → (base_of (gdt_entry base limit access flags) ≡ base)
      × (limit_of (gdt_entry base limit access flags) ≡ limit)
      × (flags_of (gdt_entry base limit access flags) ≡ flags)
unfolding gdt_entry
gdt_entry-fields base limit access flags b l f = (omega arith, omega arith, omega arith)

-- The processor reads back from an entry of `gdt_set_gate` the base, the limit of 20 bits and the flags that it was given; the other
-- entries stay as they are.
pub gdt_set_gate-fields :
    (gdt : Gdt) (num base limit access flags : ℕ)
    → base < 2 ^ 32
    → limit < 2 ^ 20
    → flags < 2 ^ 4
    → (base_of ((gdt_set_gate gdt num base limit access flags).gdt_entries num) ≡ base)
      × (limit_of ((gdt_set_gate gdt num base limit access flags).gdt_entries num) ≡ limit)
      × (flags_of ((gdt_set_gate gdt num base limit access flags).gdt_entries num) ≡ flags)
      × ((n : ℕ)
          → n ≢ num
          → (gdt_set_gate gdt num base limit access flags).gdt_entries n ≡ gdt.gdt_entries n)
unfolding gdt_set_gate
gdt_set_gate-fields gdt num base limit access flags b l f =
    let here : (num == num) ≡ true = ground arith in
    let (base', limit', flags') = gdt_entry-fields base limit access flags b l f in
    (
      rw here base',
      rw here limit',
      rw here flags',
      λ n ne. let other : (n == num) ≡ false = ground (arith, ne) in rw other refl,
    )
