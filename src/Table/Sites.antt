-- ===== src/Table/Sites.antt =====
-- `fatclusterposition` and `fatsectorposition` are inverse to each other.
use libllfat.Prelude.{ℕ, ◌+◌, ◌-◌, ◌*◌, ◌/◌, ◌%◌, ◌<◌, ◌≤◌, ◌≡◌, ◌∙◌, arith, some, ◌==◌, ltb, false}
use native.Mathlib.Nat.{div-add-mod}
use libllfat.Prelude.Int.{pos, u32, ◌+ℤ◌, ◌-ℤ◌, ◌*ℤ◌, pos-*ℤ}
use libllfat.Prelude.Division.{quotient_iff}
use libllfat.Units.Host.{Host}
use libllfat.Fs.State.{Fat, pure, ◌>>=◌}
use libllfat.Fs.Geometry.{
  get_bytes_per_sector, get_sectors_per_cluster, get_reserved_sectors, get_num_fats, get_fatsize,
  get_root_entries,
}
use libllfat.Table.Position.{u64, cluster_position, sector_position, quotient}

-- The parameters of the filesystem; the root directory fills its sectors.
pub record IsSized {h : Host} (bps reserved count size entries per : ℕ) (f : Fat h) : Type 0 where
  pub bytes : get_bytes_per_sector f ≡ bps
  pub sectors : get_sectors_per_cluster f ≡ per
  pub reserved_is : get_reserved_sectors f ≡ reserved
  pub fats : get_num_fats f ≡ pos count
  pub size_is : get_fatsize f ≡ some (pos size, f)
  pub entries_is : get_root_entries f ≡ some (entries, f)
  pub pos_bps : 0 < bps
  pub pos_per : 0 < per
  pub whole : entries * 32 % bps ≡ 0

-- The first sector of the clusters, and that of a cluster.
abbrev pub first_sector : (bps reserved count size entries : ℕ) → ℕ
first_sector bps reserved count size entries = reserved + size * count + entries * 32 / bps

-- The origin may lie before the device: the sum wraps round.
from_origin :
    (a size c : ℕ)
    → a + c * size < 0x1_0000_0000_0000_0000
    → (u64 (pos a -ℤ pos (2 * size)) + (c + 2) * size) % 0x1_0000_0000_0000_0000 ≡ a + c * size
unfolding ◌-ℤ◌
from_origin a size c fits =
    let e : (c + 2) * size ≡ c * size + 2 * size = grind arith in rw e (ground arith)

mul_mono : (a b k : ℕ) → a ≤ b → a * k ≤ b * k
mul_mono a b k h = grind arith

pos-+ℤ : (a b : ℕ) → pos a +ℤ pos b ≡ pos (a + b)
unfolding ◌+ℤ◌
pos-+ℤ a b = ground arith

module _ {h : Host} (bps reserved count size entries per : ℕ) (f : Fat h)
    (sized : IsSized bps reserved count size entries per f) where
  first : ℕ
  first = first_sector bps reserved count size entries

  -- The bytes before the clusters.
  bytes_before : bps * (reserved + count * size) + entries * 32 ≡ first * bps
  unfolding first
  bytes_before =
      let q : entries * 32 ≡ entries * 32 / bps * bps =
        grind (arith, div-add-mod (entries * 32) bps, sized.whole) in
      grind (arith, q)

  position_lem :
      (c : ℕ)
      → cluster_position (pos (c + 2)) f
        ≡ some ((u64 (pos (first * bps) -ℤ pos (2 * (bps * per))), bps * per), f)
  unfolding cluster_position
  position_lem c =
      rw
        (
          sized.entries_is,
          ◌>>=◌,
          sized.size_is,
          ◌>>=◌,
          sized.fats,
          sized.bytes,
          sized.sectors,
          sized.reserved_is,
          pos-*ℤ count size,
          pos-+ℤ reserved (count * size),
          pos-*ℤ bps (reserved + count * size),
          pos-+ℤ (bps * (reserved + count * size)) (entries * 32),
          bytes_before,
        )
        (ground arith)

  sector_lem :
      (c k : ℕ)
      → k < per
      → first + c * per + k < 0x7fff_fff0
      → sector_position (first + c * per + k) f ≡ some (pos (c + 2), f)
  unfolding sector_position quotient first
  sector_lem c k below fits =
      let tables : u32 (pos size *ℤ pos count) ≡ size * count =
        rw (pos-*ℤ size count) (omega arith) in
      let q : (c * per + k) / per ≡ c =
        (quotient_iff (c * per + k) per c sized.pos_per).1 (omega arith, omega arith) in
      let rest : first + c * per + k - reserved - size * count - entries * 32 / bps ≡ c * per + k =
        omega arith in
      let s = first + c * per + k in
      let t₁ : ltb s reserved ≡ false = ground arith in
      let t₂ : ltb (s - reserved) (size * count) ≡ false = ground arith in
      let t₃ : ltb (s - reserved - size * count) (entries * 32 / bps) ≡ false = ground arith in
      let t₄ : (bps == 0) ≡ false = ground (arith, sized.pos_bps) in
      let t₅ : (per == 0) ≡ false = ground (arith, sized.pos_per) in
      rw
        (
          sized.size_is, ◌>>=◌, sized.fats, sized.reserved_is, tables, t₁, t₂, sized.entries_is,
          ◌>>=◌, sized.bytes, t₄, pure, sized.fats, sized.reserved_is, tables, t₃, sized.sectors,
          t₅, pure, rest, q,
        )
        (ground arith)

-- On a filesystem whose root directory fills its sectors, with sectors of less than 2 ^ 16 bytes: for
-- the cluster `c + 2`, if it ends before sector 2 ^ 31 - 16, `fatclusterposition` gives the size of a cluster and an origin from which
-- the cluster lies at its sector; `fatsectorposition` of every one of its sectors is the cluster.
pub sector_position-cluster_position :
    {h : Host} (bps reserved count size entries per : ℕ) (f : Fat h) (c : ℕ)
    → IsSized bps reserved count size entries per f
    → first_sector bps reserved count size entries + (c + 1) * per < 0x7fff_fff0
    → bps < 0x1_0000
    → (origin : ℕ) × (cluster_position (pos (c + 2)) f ≡ some ((origin, bps * per), f))
      × ((origin + (c + 2) * (bps * per)) % 0x1_0000_0000_0000_0000
          ≡ (first_sector bps reserved count size entries + c * per) * bps)
      × ((k : ℕ)
          → k < per
          → sector_position (first_sector bps reserved count size entries + c * per + k) f
            ≡ some (pos (c + 2), f))
unfolding first
sector_position-cluster_position bps reserved count size entries per f c sized fits narrow =
    let first = first_sector bps reserved count size entries in
    let together : first * bps + c * (bps * per) ≡ (first + c * per) * bps = grind arith in
    let step : (c + 1) * per ≡ c * per + per = grind arith in
    let sum : first + c * per < 0x7fff_fff0 = omega (arith, step, fits) in
    let below : (first + c * per) * bps < 0x1_0000_0000_0000_0000 =
      omega (arith, mul_mono (first + c * per) 0x7fff_fff0 bps (omega (arith, sum))) in
    (
      u64 (pos (first * bps) -ℤ pos (2 * (bps * per))),
      position_lem bps reserved count size entries per f sized c,
      from_origin (first * bps) (bps * per) c (rw together below) ∙ together,
      λ k lt.
          sector_lem bps reserved count size entries per f sized c k lt (omega (arith, step, fits)),
    )
