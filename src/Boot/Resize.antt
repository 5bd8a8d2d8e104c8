-- ===== src/Boot/Resize.antt =====
-- Round trips of the sizes whose place depends on the bits of the FAT: the number of sectors, the
-- size of a table, the root directory.
use libllfat.Prelude.{
  ℕ, ◌%◌, ◌<◌, ◌≤◌, ◌≡◌, ◌≢◌, ◌↔◌, inl, inr, refl, arith, ◌==◌, leb, some, Bool-cases,
}
use libllfat.Prelude.Int.{ℤ, pos, minus_one}
use libllfat.Bytes.{get16, get32, put16}
use libllfat.Bytes.Laws.{get16-put16, get32-put32, length-put16, get8-put32-apart, get16-Agree}
use libllfat.Units.{FatUnit, mark_dirty, store16, store32}
use libllfat.Boot.Size.{◌>>=◌, known_bits, num_sectors_any, get_num_sectors, set_num_sectors}
use libllfat.Boot.RoundTrip.{IsSector}
use libllfat.Boot.MinSize.{IsWidth}

-- Known bits stay as they are.
pub known :
    (boot : FatUnit) (b : ℕ)
    → IsWidth b
    → known_bits boot (some (pos b)) ≡ some (pos b, some (pos b))
unfolding known_bits
known boot b w = ground arith

-- The two ways to store a number of sectors, and what is read back from each.
abbrev small : FatUnit → ℕ → FatUnit
small boot sectors = mark_dirty (store16 boot 0x13 (sectors % 0x1_0000))

abbrev large : FatUnit → ℕ → FatUnit
large boot sectors = mark_dirty (store32 (store16 boot 0x13 0) 0x20 sectors)

module _ (boot : FatUnit) (b sectors : ℕ) (s : IsSector boot) (w : IsWidth b)
    (h : 0 < sectors) where
  small_any : sectors < 0x1_0000 → num_sectors_any (small boot sectors) ≡ sectors
  unfolding num_sectors_any
  small_any fits = ground (arith, get16-put16 boot.data_bytes 0x13 (sectors % 0x1_0000), s.wide)

  large_high : sectors < 0x1_0000_0000 → get32 (large boot sectors).data_bytes 0x20 ≡ sectors
  large_high fits = ground (
    arith,
    get32-put32 (put16 boot.data_bytes 0x13 0) 0x20 sectors,
    length-put16 boot.data_bytes 0x13 0,
    s.wide,
  )

  large_low : get16 (large boot sectors).data_bytes 0x13 ≡ 0
  large_low = ground (
    arith,
    get16-Agree (large boot sectors).data_bytes (put16 boot.data_bytes 0x13 0) 0x13 0 0x20 (λ j _ k.
        get8-put32-apart (put16 boot.data_bytes 0x13 0) 0x20 j sectors
          (omega (arith, length-put16 boot.data_bytes 0x13 0, s.wide)) (inl k)),
    get16-put16 boot.data_bytes 0x13 0,
    s.wide,
  )

  read_small :
      sectors < 0x1_0000
      → b ≢ 32
      → get_num_sectors (small boot sectors) (some (pos b)) ≡ some (sectors, some (pos b))
  unfolding get_num_sectors
  read_small fits ne = rw (known (small boot sectors) b w, ◌>>=◌) (ground (arith, small_any fits))

  read_large :
      sectors < 0x1_0000_0000
      → get_num_sectors (large boot sectors) (some (pos b)) ≡ some (sectors, some (pos b))
  unfolding get_num_sectors num_sectors_any
  read_large fits = ground (arith, known (large boot sectors) b w, large_high fits, large_low)

-- `fatbootsetnumsectors`, with the bits known, refuses a number of sectors only on FAT12 and from
-- 0x10000 on; otherwise `fatbootgetnumsectors` returns the number, unless it is 0.
pub get_num_sectors-set :
    (boot : FatUnit) (b sectors : ℕ)
    → IsSector boot
    → IsWidth b
    → 0 < sectors
    → sectors < 0x1_0000_0000
    → (boot' : FatUnit) × (r : ℤ) × (set_num_sectors (some boot) sectors (some (pos b))
        ≡ some ((some boot', r), some (pos b)))
      × ((r ≡ minus_one) ↔ (b ≡ 12) × (0x1_0000 ≤ sectors))
      × (r ≡ minus_one → boot' ≡ boot)
      × (r ≢ minus_one → get_num_sectors boot' (some (pos b)) ≡ some (sectors, some (pos b)))
unfolding set_num_sectors
get_num_sectors-set boot b sectors s w h k = elim (Bool-cases (leb sectors 0xffff)) [
  | inl fits ↦ elim (Bool-cases (b == 32)) [
    | inl is32 ↦ (
      large boot sectors,
      pos 0,
      ground (arith, known boot b w),
      ground arith,
      ground arith,
      λ _. read_large boot b sectors s w h k,
    )
    | inr ne ↦ (
      small boot sectors,
      pos 0,
      ground (arith, known boot b w),
      ground arith,
      ground arith,
      λ _. read_small boot b sectors s w h (ground arith) (ground arith),
    )
  ]
  | inr big ↦ elim (Bool-cases (b == 12)) [
    | inl is12 ↦ (
      boot,
      minus_one,
      ground (arith, known boot b w),
      ground arith,
      (λ _. refl),
      λ ne. absurd (ne refl),
    )
    | inr ne ↦ (
      large boot sectors,
      pos 0,
      ground (arith, known boot b w),
      ground arith,
      ground arith,
      λ _. read_large boot b sectors s w h k,
    )
  ]
]
