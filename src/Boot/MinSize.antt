-- ===== src/Boot/MinSize.antt =====
-- `fatbootminfatsize`: the smallest table that has an entry for every cluster.
use libllfat.Prelude.{
  ℕ, ◌+◌, ◌-◌, ◌*◌, ◌/◌, ◌%◌, ◌<◌, ◌≤◌, ◌≡◌, ◌⊎◌, inl, inr, arith, ◌==◌, some, if◌then◌else◌, not,
}
use libllfat.Prelude.Int.{i32, u32, i32-u32, pos, ◌+ℤ◌, div_ℤ, pos-*ℤ}
use libllfat.Prelude.Division.{div_bounds, div-lt_of}
use libllfat.Units.{FatUnit}
use libllfat.Boot.Fields.{get_bytes_per_sector}
use libllfat.Boot.Size.{boot_bits}
use libllfat.Boot.Root.{min_fatsize, table_bytes}

-- The bits of an entry of a table.
abbrev pub IsWidth : ℕ → Type 0
IsWidth b = (b ≡ 12) ⊎ (b ≡ 16) ⊎ (b ≡ 32)

-- `size` is the least number of units of `unit_size` that hold `need`.
abbrev pub IsLeast : ℕ → ℕ → ℕ → Type 0
IsLeast size unit_size need = (need ≤ size * unit_size) × (size * unit_size < need + unit_size)

table_bytes-IsLeast :
    (b n : ℕ)
    → IsWidth b
    → n < 0x1_0000_0000
    → (k : ℕ) × (table_bytes (pos b) (pos n) ≡ pos k) × IsLeast k 8 (n * b)
unfolding table_bytes ◌+ℤ◌ div_ℤ
table_bytes-IsLeast b n (inl e) lt =
    (n * 12 / 8 + (if not (n % 2 == 0) then 1 else 0), ground (arith, pos-*ℤ n b), ground arith)
table_bytes-IsLeast b n (inr (inl e)) lt = (n * 16 / 8, ground (arith, pos-*ℤ n b), ground arith)
table_bytes-IsLeast b n (inr (inr e)) lt = (n * 32 / 8, ground (arith, pos-*ℤ n b), ground arith)

round_up : (need k : ℕ) → 0 < k → IsLeast ((need + (k - 1)) / k) k need
round_up need k h = ground (arith, div_bounds (need + (k - 1)) k h)

-- Rounding up to bytes and then to sectors is rounding up to sectors.
IsLeast-compose :
    (need bytes sectors bps : ℕ)
    → IsLeast bytes 8 need
    → IsLeast sectors bps bytes
    → IsLeast sectors (bps * 8) need
IsLeast-compose need bytes sectors bps p q = omega arith

rounded : (k bps : ℕ) → div_ℤ (pos k +ℤ pos (bps - 1)) bps ≡ pos ((k + (bps - 1)) / bps)
unfolding div_ℤ ◌+ℤ◌
rounded k bps = ground arith

-- A size in sectors of eight bytes or more fits an `int`.
small_size :
    (k bps need : ℕ)
    → 8 ≤ bps
    → IsLeast k 8 need
    → need ≤ 0x8000_0001 * 32
    → (k + (bps - 1)) / bps < 0x8000_0000
small_size k bps need h (a, b) le =
    div-lt_of (k + (bps - 1)) 0x8000_0000 bps (omega arith) (omega arith)

bits_bound : (b n : ℕ) → IsWidth b → n < 0x8000_0000 → (2 + n) * b ≤ 0x8000_0001 * 32
bits_bound b n (inl e) lt = rw e (omega arith)
bits_bound b n (inr (inl e)) lt = rw e (omega arith)
bits_bound b n (inr (inr e)) lt = rw e (omega arith)

cut_lem : (s : ℕ) → s < 0x8000_0000 → i32 (u32 (pos s)) ≡ pos s
cut_lem s h = i32-u32 (pos s) (h, omega arith)

-- For a FAT of 12, 16 or 32 bits, sectors of at least eight bytes and a number of clusters that is
-- an int32_t and not negative, fatbootminfatsize returns the least number of sectors whose bits
-- hold an entry for each cluster and the two entries before them.
pub min_fatsize-IsLeast :
    (boot : FatUnit) (b nclusters : ℕ)
    → boot_bits boot ≡ some (pos b)
    → IsWidth b
    → 8 ≤ get_bytes_per_sector boot
    → nclusters < 0x8000_0000
    → (s : ℕ) × (min_fatsize boot (pos nclusters) ≡ some (pos s))
      × IsLeast s (get_bytes_per_sector boot * 8) ((2 + nclusters) * b)
unfolding min_fatsize ◌+ℤ◌
min_fatsize-IsLeast boot b n run width h small =
    let bps = get_bytes_per_sector boot in
    let (k, e, least) = table_bytes-IsLeast b (2 + n) width (omega arith) in
    let size = (k + (bps - 1)) / bps in
    let fits : size < 0x8000_0000 =
      small_size k bps ((2 + n) * b) h least (bits_bound b n width small) in
    (
      size,
      ground (arith, rounded k bps, cut_lem size fits),
      IsLeast-compose ((2 + n) * b) k _ bps least (round_up k bps (omega arith)),
    )
