-- ===== src/Mem/Gdt/Tests.antt =====
-- The segment of the user code, and the bounds of the user segments behind `init_gdt`.
use luck_os.Common.{ℕ, ◌≡◌, ◌≢◌, refl, arith}
use luck_os.Mem.Gdt.{Gdt, GdtEntry, gdt_set_gate, init_gdt, write_tss, gdt_entry}
use luck_os.Mem.Gdt.Fields.{base_of, limit_of, flags_of, level_of, last_byte, gdt_set_gate-fields}

abbrev no_entry : GdtEntry
no_entry = record {
  limit_low = 0;
  base_low = 0;
  base_middle = 0;
  access = 0;
  attributes = 0;
  base_high = 0;
}

abbrev empty : Gdt
empty = record {
  gdt_entries = λ n. no_entry;
  tss_entry = record { esp0 = 0; ss0 = 0; cs = 0; data_segments = 0; iomap_base = 0 };
  gdt_ptr_limit = 0;
  gdt_ptr_base = 0;
}

gdt_set_gate-fields_example :
    (base_of ((gdt_set_gate empty 4 0 0xbffff 250 12).gdt_entries 4) ≡ 0)
    × (limit_of ((gdt_set_gate empty 4 0 0xbffff 250 12).gdt_entries 4) ≡ 0xbffff)
    × (flags_of ((gdt_set_gate empty 4 0 0xbffff 250 12).gdt_entries 4) ≡ 12)
    × ((n : ℕ)
        → n ≢ 4
        → (gdt_set_gate empty 4 0 0xbffff 250 12).gdt_entries n ≡ empty.gdt_entries n)
gdt_set_gate-fields_example =
    gdt_set_gate-fields empty 4 0 0xbffff 250 12 (omega arith) (omega arith) (omega arith)

-- User code ends below the kernel, at level 3.
user_code : last_byte ((init_gdt empty 0xc0000000 0xc0001000).gdt_entries 4) ≡ 0xbfffffff
unfolding init_gdt write_tss gdt_set_gate gdt_entry
user_code = refl

user_level : level_of ((init_gdt empty 0xc0000000 0xc0001000).gdt_entries 4) ≡ 3
unfolding init_gdt write_tss gdt_set_gate gdt_entry
user_level = refl
