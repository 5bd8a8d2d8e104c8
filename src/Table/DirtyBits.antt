-- ===== src/Table/DirtyBits.antt =====
-- lib/table.c: the two dirty bits in entry 1 of a table. The code works on the bits of an int; here
-- the two bits from `shift` on are a digit of base 4.
use libllfat.Prelude.{ℕ, ◌+◌, ◌-◌, ◌*◌, ◌/◌, ◌%◌, ◌^◌, if◌then◌else◌, Option, none, some, List}
use libllfat.Prelude.Int.{ℤ, pos, negsuc, minus_one, u32, eqb_ℤ}
use libllfat.Units.Host.{Host}
use libllfat.Units.Io.{SimulatedError}
use libllfat.Fs.State.{M, pure, ◌>>=◌}
use libllfat.Fs.Geometry.{fat_bits}
use libllfat.Table.Raw.{get_fat_entry, set_fat_entry}

-- `_fatdirtybitsshift`; `none` is its -1.
unfoldable pub dirty_bits_shift : ℤ → Option ℕ
dirty_bits_shift bits =
    if eqb_ℤ bits (pos 12)
    then none
    else if eqb_ℤ bits (pos 16)
    then some 14
    else if eqb_ℤ bits (pos 32)
    then some 26
    else none

unfoldable pub swap_dirty_bits : ℕ → ℕ
swap_dirty_bits x = x / 2 % 2 + x % 2 * 2

-- `~ (entry >> shift)`, its lowest two bits: of a negative number, as `FAT_ERR`, `~` is not negative,
-- and has the same bits as `n`.
unfoldable pub field_of : ℤ → ℕ → ℕ
field_of (pos entry) shift = 3 - entry / 2 ^ shift % 4
field_of (negsuc n) shift = n / 2 ^ shift % 4

-- `~ ((~ entry & ~ mask) | dirty)`: what stands below the two bits and above them stays.
unfoldable pub with_field : ℕ → ℕ → ℕ → ℕ
with_field entry shift dirty =
    entry % 2 ^ shift + 2 ^ shift * (3 - dirty + 4 * (entry / 2 ^ shift / 4))

module _ {h : Host} (errors : List SimulatedError) where
  unfoldable pub get_fat_dirty_bits : ℤ → M h ℤ
  get_fat_dirty_bits nfat = do
    bits ← fat_bits
    elim (dirty_bits_shift bits) [
      | none ↦ pure minus_one
      | some shift ↦ (do
        entry ← get_fat_entry errors nfat 1
        pure (pos (swap_dirty_bits (field_of entry shift))))
    ]

  unfoldable pub set_fat_dirty_bits : ℤ → ℕ → M h ℤ
  set_fat_dirty_bits nfat dirty = do
    bits ← fat_bits
    elim (dirty_bits_shift bits) [
      | none ↦ pure minus_one
      | some shift ↦ (do
        entry ← get_fat_entry errors nfat 1
        set_fat_entry errors nfat 1 (with_field (u32 entry) shift (swap_dirty_bits dirty)))
    ]
