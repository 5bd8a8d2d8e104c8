-- ===== src/Boot/Check.antt =====
-- lib/boot.c: `fatbootcheck`, which counts what is wrong in a boot sector.
use libllfat.Prelude.{
  ℕ, zero, suc, ◌+◌, ◌*◌, ◌/◌, ◌%◌, Bool, true, false, not, ◌&&◌, ltb, leb, ◌==◌, Option, none,
  some, List, [], ◌∷◌,
}
use libllfat.Prelude.Int.{ℤ, pos, negsuc, ltb_ℤ, eqb_ℤ, wrap, u32}
use libllfat.Bytes.{get8}
use libllfat.Units.{FatUnit}
use libllfat.Boot.Fields.{
  onebit, get_bytes_per_sector, get_sectors_per_cluster, get_reserved_sectors, get_num_fats,
  get_media, get_info_pos, get_backup_sector,
}
use libllfat.Boot.Size.{
  B, pure, ◌>>=◌, known_bits, get_fatsize, get_root_entries, last_cluster, is_valid_cluster,
}
use libllfat.Boot.Root.{get_root_begin}

-- `a && b`, where `b` is not evaluated after a false `a`.
abbrev pub and_then : Bool → B Bool → B Bool
and_then true m = m
and_then false m = pure false

-- `bits`, read with no attempt to find it.
abbrev pub current_bits : B ℤ
current_bits none = some (pos 0, none)
current_bits (some b) = some (b, some b)

-- The number of failed tests, negated.
unfoldable pub failures : List Bool → ℕ
failures [] = 0
failures (true ∷ ts) = suc (failures ts)
failures (false ∷ ts) = failures ts

abbrev pub negated : ℕ → ℤ
negated zero = pos 0
negated (suc n) = negsuc n

abbrev pub has_sizes : FatUnit → Bool
has_sizes boot = not (get_bytes_per_sector boot == 0) && not (get_sectors_per_cluster boot == 0)

-- The table is too short for the last cluster; the product and the division are in 64 bits.
unfoldable pub table_too_short : FatUnit → B Bool
table_too_short boot = do
  b ← known_bits boot
  fatsize ← get_fatsize (some boot)
  last ← last_cluster boot
  let room =
      wrap 0x1_0000_0000_0000_0000 fatsize * get_bytes_per_sector boot * 8 % 0x1_0000_0000_0000_0000
  pure (
      not (eqb_ℤ b (pos 0))
      && ltb (room / wrap 0x1_0000_0000_0000_0000 b) ((u32 last + 1) % 0x1_0000_0000))

unfoldable pub info_misplaced : FatUnit → ℤ → Bool
info_misplaced boot b =
    let position = get_info_pos boot in
    leb (get_reserved_sectors boot) position
    && (not (position == 0) && (not (position == 0xffff) && eqb_ℤ b (pos 32)))

-- The bytes of "EXFAT   ".
unfoldable pub is_exfat : FatUnit → Bool
is_exfat boot =
    let at = λ (i : ℕ). get8 boot.data_bytes (3 + i) in
    at 0 == b'E'
    && (at 1 == b'X'
        && (at 2 == b'F'
            && (at 3 == b'A'
                && (at 4 == b'T' && (at 5 == b' ' && (at 6 == b' ' && at 7 == b' '))))))

-- The tests that depend on the bits, in the order of the code; the `bits` that they find stay.
unfoldable pub sized_tests : FatUnit → B (List Bool)
sized_tests boot = do
  t₅ ← and_then (has_sizes boot) (do last ← last_cluster boot; pure (ltb_ℤ last (pos 2)))
  t₆ ← and_then (has_sizes boot) (table_too_short boot)
  b ← current_bits
  b' ← known_bits boot
  let late_backup = not (ltb_ℤ (get_backup_sector boot) (pos (get_reserved_sectors boot)))
  t₁₀ ← and_then (not (get_bytes_per_sector boot == 0)) (do
    entries ← get_root_entries boot
    pure (not (entries * 32 % get_bytes_per_sector boot == 0)))
  t₁₂ ←
      and_then (has_sizes boot && eqb_ℤ b' (pos 32))
        (do first ← get_root_begin boot; valid ← is_valid_cluster boot first; pure (not valid))
  pure (
      t₅
      ∷ t₆
      ∷ ltb (get_reserved_sectors boot) 1
      ∷ info_misplaced boot b
      ∷ (eqb_ℤ b' (pos 32) && late_backup)
      ∷ t₁₀
      ∷ is_exfat boot
      ∷ t₁₂
      ∷ [])

unfoldable pub fixed_tests : FatUnit → List Bool
fixed_tests boot =
    not (onebit (get_sectors_per_cluster boot))
    ∷ (get_reserved_sectors boot == 0)
    ∷ eqb_ℤ (get_num_fats boot) (pos 0)
    ∷ ltb (get_media boot) 0xe5
    ∷ []

-- `bits` begins at 0, and is local.
unfoldable pub check : FatUnit → Option ℤ
check boot = elim (sized_tests boot (some (pos 0))) [
  | none ↦ none
  | some (ts, bits) ↦ some (negated (failures (fixed_tests boot) + failures ts))
]
