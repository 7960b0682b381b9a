-- ===== src/Mem/Gdt.antt =====
-- src/mem/gdt.c: the segment descriptors. The loading of the table and of the task register is assembly.
pub mod Fields
mod Tests
use luck_os.Common.{ℕ, ◌+◌, ◌-◌, ◌*◌, ◌/◌, ◌%◌, ◌^◌, ◌==◌, if◌then◌else◌}

pub record GdtEntry : Type 0 where
  pub limit_low : ℕ
  pub base_low : ℕ
  pub base_middle : ℕ
  pub access : ℕ
  pub attributes : ℕ
  pub base_high : ℕ

-- The fields of `tss_entry_t` that are set; the others are 0.
pub record TssEntry : Type 0 where
  pub esp0 : ℕ
  pub ss0 : ℕ
  pub cs : ℕ
  pub data_segments : ℕ
  pub iomap_base : ℕ

-- The table, the structure of the task, and what is loaded.
pub record Gdt : Type 0 where
  pub gdt_entries : ℕ → GdtEntry
  pub tss_entry : TssEntry
  pub gdt_ptr_limit : ℕ
  pub gdt_ptr_base : ℕ

-- The entry; the halves of `attributes` have no bit in common, so `|=` is a sum.
pub gdt_entry : ℕ → ℕ → ℕ → ℕ → GdtEntry
gdt_entry base limit access flags = record {
  limit_low = limit % 2 ^ 16;
  base_low = base % 2 ^ 16;
  base_middle = base / 2 ^ 16 % 2 ^ 8;
  access = access;
  attributes = limit / 2 ^ 16 % 2 ^ 4 + flags % 2 ^ 4 * 2 ^ 4;
  base_high = base / 2 ^ 24 % 2 ^ 8;
}

pub gdt_set_gate : Gdt → ℕ → ℕ → ℕ → ℕ → ℕ → Gdt
gdt_set_gate gdt num base limit access flags = record gdt {
  gdt_entries = λ n. if n == num then gdt_entry base limit access flags else gdt.gdt_entries n;
}

-- The bits of an access byte.
abbrev desc_p : ℕ
desc_p = 2 ^ 7

abbrev desc_dpl_3 : ℕ
desc_dpl_3 = 3 * 2 ^ 5

abbrev desc_s_code : ℕ
desc_s_code = 2 ^ 4

abbrev desc_type_code : ℕ
desc_type_code = 0x8

abbrev desc_type_data : ℕ
desc_type_data = 0x2

abbrev desc_type_tss : ℕ
desc_type_tss = 0x9

-- `FLAG_G_4K | FLAG_D_32`
abbrev flags_4k_32 : ℕ
flags_4k_32 = 2 ^ 3 + 2 ^ 2

abbrev sizeof_tss_entry : ℕ
sizeof_tss_entry = 104

-- `tss` is the address of `tss_entry`.
pub write_tss : Gdt → ℕ → ℕ → ℕ → ℕ → Gdt
write_tss gdt tss num ss0 esp0 =
    gdt_set_gate
      (record gdt {
        tss_entry = record {
          esp0 = esp0;
          ss0 = ss0;
          cs = 8 + 3;
          data_segments = 16 + 3;
          iomap_base = sizeof_tss_entry;
        };
      })
      num tss ((tss + sizeof_tss_entry) % 2 ^ 32) (desc_p + desc_type_tss) 0

-- `entries` is the address of `gdt_entries`.
pub init_gdt : Gdt → ℕ → ℕ → Gdt
init_gdt gdt entries tss =
    let gdt₀ = record gdt { gdt_ptr_limit = 8 * 7 - 1; gdt_ptr_base = entries } in
    let gdt₁ = gdt_set_gate gdt₀ 0 0 0 0 0 in
    let gdt₂ = gdt_set_gate gdt₁ 1 0 0xfffff (desc_p + desc_s_code + desc_type_code) flags_4k_32 in
    let gdt₃ = gdt_set_gate gdt₂ 2 0 0xfffff (desc_p + desc_s_code + desc_type_data) flags_4k_32 in
    let gdt₄ = gdt_set_gate gdt₃ 3 0 7 (desc_p + desc_s_code + desc_type_data) flags_4k_32 in
    let gdt₅ =
      gdt_set_gate gdt₄ 4 0 0xbffff (desc_p + desc_dpl_3 + desc_s_code + desc_type_code)
        flags_4k_32 in
    let gdt₆ =
      gdt_set_gate gdt₅ 5 0 0xbffff (desc_p + desc_dpl_3 + desc_s_code + desc_type_data)
        flags_4k_32 in
    write_tss gdt₆ tss 6 0x10 0

update_tss_esp : Gdt → ℕ → Gdt
update_tss_esp gdt esp = record gdt { tss_entry = record (gdt.tss_entry) { esp0 = esp } }
