-- ===== src/Boot/LabelTrip.antt =====
-- Round trips of the dirty bits and of the extended boot record.
use libllfat.Prelude.{
  ℕ, ◌+◌, ◌/◌, ◌%◌, ◌<◌, ◌≤◌, ◌≡◌, ◌≢◌, arith, ◌==◌, if◌then◌else◌, some, length, ◌∙◌,
}
use libllfat.Prelude.Int.{pos}
use libllfat.Bytes.{get8}
use libllfat.Bytes.Laws.{get8-put8, get8-lt}
use libllfat.Units.{FatUnit, mark_dirty, store8}
use libllfat.Boot.Label.{at_place, get_dirty_bits, set_dirty_bits, replace_dirty}
use libllfat.Boot.RoundTrip.{IsSector}
use libllfat.Boot.MinSize.{IsWidth}
use libllfat.Boot.Resize.{known}

-- The offset of a field on a FAT of `b` bits.
abbrev pub offset : ℕ → ℕ → ℕ → ℕ
offset b small large = if b == 32 then large else small

-- With the bits known, a function of the extended boot record works at its field's offset.
at_place_lem :
    {A : Type 0} (boot : FatUnit) (b : ℕ) (small large : ℕ) (k : ℕ → A) (other : A)
    → IsWidth b
    → at_place boot small large k other (some (pos b))
      ≡ some (k (offset b small large), some (pos b))
unfolding at_place
at_place_lem boot b small large k other w = ground (arith, known boot b w)

offset-le : (b small large : ℕ) → offset b small large ≤ small + large
offset-le b small large = ground arith

replace_dirty-lt : (c d : ℕ) → c < 256 → replace_dirty c d < 256
unfolding replace_dirty
replace_dirty-lt c d h = omega arith

-- `fatbootsetdirtybits` sets the two dirty bits, as `fatbootgetdirtybits` then tells, and leaves the
-- other six bits of the byte and all other bytes as they are.
pub get_dirty_bits-set :
    (boot : FatUnit) (b dirty : ℕ)
    → IsSector boot
    → IsWidth b
    → (boot' : FatUnit) × (set_dirty_bits boot (pos dirty) (some (pos b))
        ≡ some ((boot', pos 0), some (pos b)))
      × (get_dirty_bits boot' (some (pos b)) ≡ some (pos (dirty % 4), some (pos b)))
      × ((i : ℕ) → get8 boot'.data_bytes i / 4 ≡ get8 boot.data_bytes i / 4)
      × ((i : ℕ) → i ≢ offset b 0x25 0x41 → get8 boot'.data_bytes i ≡ get8 boot.data_bytes i)
unfolding set_dirty_bits get_dirty_bits replace_dirty
get_dirty_bits-set boot b dirty s w =
    let at = offset b 0x25 0x41 in
    let v = replace_dirty (get8 boot.data_bytes at) (dirty % 4) in
    let boot' = mark_dirty (store8 boot at v) in
    let byte = get8-lt boot.data_bytes at s.bytes in
    let inside : at < length boot.data_bytes = omega (arith, offset-le b 0x25 0x41, s.wide) in
    (
      boot',
      at_place_lem boot b 0x25 0x41 _ _ w,
      at_place_lem boot' b 0x25 0x41 _ _ w
          ∙ ground (arith, get8-put8 boot.data_bytes at at v, byte),
      (λ i. ground (arith, get8-put8 boot.data_bytes at i v, byte)),
      λ i ne. ground (arith, get8-put8 boot.data_bytes at i v),
    )
