-- ===== src/Entry/FieldTrip.antt =====
-- Round trips of the first cluster of an entry, and of its size.
use libllfat.Prelude.{
  ℕ, ◌+◌, ◌*◌, ◌/◌, ◌%◌, ◌<◌, ◌≤◌, ◌≡◌, ◌≢◌, ◌∙◌, inl, inr, refl, arith, true, ◌==◌, if◌then◌else◌,
  length, Bool-cases,
}
use libllfat.Prelude.Int.{pos}
use libllfat.Bytes.{get8, get16}
use libllfat.Bytes.Laws.{get16-put16, get8-put16, length-put16}
use libllfat.Units.{FatUnit, store16, mark_dirty}
use libllfat.Boot.MinSize.{IsWidth}
use libllfat.Table.Entries.{value_limit}
use libllfat.Entry.Fields.{get_first_cluster, set_first_cluster, stored_cluster}

-- The entry `index` lies in the unit.
pub record Holds (directory : FatUnit) (index : ℕ) : Type 0 where
  pub inside : index * 32 + 32 ≤ length directory.data_bytes
  pub sized : index * 32 + 32 ≤ directory.size

-- What `fatentrygetfirstcluster` returns of a cluster: 0 of the root directory's number, which is 1.
abbrev pub kept : ℕ → ℕ
kept n = if n == 1 then 0 else n

module _ (directory : FatUnit) (index b n : ℕ) (holds : Holds directory index) (w : IsWidth b)
    (h : n < value_limit b) where
  stored_lem : stored_cluster (pos b) (pos n) ≡ kept n
  unfolding stored_cluster
  stored_lem = ground arith

  low_half : FatUnit
  low_half = store16 directory (index * 32 + 26) (kept n)

  both : FatUnit
  both = store16 low_half (index * 32 + 20) (kept n / 0x1_0000)

  result : FatUnit
  result = mark_dirty (if b == 32 then both else low_half)

  run : set_first_cluster directory (pos index) (pos b) (pos n) ≡ (result, pos 0)
  unfolding set_first_cluster result both low_half
  run = rw stored_lem (ground (arith, holds.sized))

  low_alone : get16 low_half.data_bytes (index * 32 + 26) ≡ kept n % 0x1_0000
  unfolding low_half
  low_alone =
      get16-put16 directory.data_bytes (index * 32 + 26) (kept n) (omega (arith, holds.inside))

  wide : index * 32 + 32 ≤ length low_half.data_bytes
  unfolding low_half
  wide = omega (arith, holds.inside, length-put16 directory.data_bytes (index * 32 + 26) (kept n))

  high_both : get16 both.data_bytes (index * 32 + 20) ≡ kept n / 0x1_0000 % 0x1_0000
  unfolding both
  high_both = get16-put16 low_half.data_bytes (index * 32 + 20) _ (omega (arith, wide))

  apart_both :
      (i : ℕ)
      → i ≢ index * 32 + 20
      → i ≢ index * 32 + 21
      → get8 both.data_bytes i ≡ get8 low_half.data_bytes i
  unfolding both
  apart_both i ne ne' =
      ground (arith, get8-put16 low_half.data_bytes (index * 32 + 20) i (kept n / 0x1_0000), wide)

  apart_low :
      (i : ℕ)
      → i ≢ index * 32 + 26
      → i ≢ index * 32 + 27
      → get8 low_half.data_bytes i ≡ get8 directory.data_bytes i
  unfolding low_half
  apart_low i ne ne' =
      ground (arith, get8-put16 directory.data_bytes (index * 32 + 26) i (kept n), holds.inside)

  low_both : get16 both.data_bytes (index * 32 + 26) ≡ kept n % 0x1_0000
  unfolding get16
  low_both =
      let at = index * 32 + 26 in
      rw
        (apart_both at (omega arith) (omega arith), apart_both (at + 1) (omega arith) (omega arith))
        low_alone

  got : get_first_cluster result index (pos b) ≡ pos (kept n)
  unfolding get_first_cluster result
  got = elim (Bool-cases (b == 32)) [
    | inl e ↦ ground (arith, low_both, high_both)
    | inr e ↦ ground (arith, low_alone)
  ]

  others :
      (i : ℕ)
      → i ≢ index * 32 + 26
      → i ≢ index * 32 + 27
      → (b ≡ 32 → (i ≢ index * 32 + 20) × (i ≢ index * 32 + 21))
      → get8 result.data_bytes i ≡ get8 directory.data_bytes i
  unfolding result
  others i ne ne' far = elim (Bool-cases (b == 32)) [
    | inl e ↦ let (a, a') = far (ground arith) in rw e (apart_both i a a' ∙ apart_low i ne ne')
    | inr e ↦ rw e (apart_low i ne ne')
  ]

  marked : result.dirty ≡ true
  unfolding result
  marked = refl

-- For a cluster that a FAT entry can hold, below 2 ^ 28 on FAT32, `fatentrysetfirstcluster` succeeds, and
-- `fatentrygetfirstcluster` then returns the cluster, but 0 for the root directory; no byte changes
-- outside the two halves of the field, and on FAT12 and FAT16 none outside the low half.
pub get_first_cluster-set :
    (directory : FatUnit) (index b n : ℕ)
    → Holds directory index
    → IsWidth b
    → n < value_limit b
    → (directory' : FatUnit) × (set_first_cluster directory (pos index) (pos b) (pos n)
        ≡ (directory', pos 0))
      × (get_first_cluster directory' index (pos b) ≡ pos (kept n))
      × (directory'.dirty ≡ true)
      × ((i : ℕ)
          → i ≢ index * 32 + 26
          → i ≢ index * 32 + 27
          → (b ≡ 32 → (i ≢ index * 32 + 20) × (i ≢ index * 32 + 21))
          → get8 directory'.data_bytes i ≡ get8 directory.data_bytes i)
get_first_cluster-set directory index b n holds w h = (
  result directory index b n holds w h,
  run directory index b n holds w h,
  got directory index b n holds w h,
  marked directory index b n holds w h,
  others directory index b n holds w h,
)
