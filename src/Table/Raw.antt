-- ===== src/Table/Raw.antt =====
-- lib/table.c: the entries of a table as they are stored, `fatgetfat` and `fatsetfat`.
-- The place of an entry is computed in natural numbers: cluster numbers are not negative.
use Prim.Native.Nat.{bit_or}
use libllfat.Prelude.{
  ℕ, ◌+◌, ◌-◌, ◌*◌, ◌/◌, ◌%◌, not, Bool, ltb, ◌||◌, ◌==◌, if◌then◌else◌, Option, none, some, List,
}
use libllfat.Prelude.Int.{ℤ, pos, minus_one, pos_part, eqb_ℤ, ltb_ℤ}
use libllfat.Bytes.{get8, get16, get32}
use libllfat.Units.{FatUnit, store8, store16, store32, mark_dirty}
use libllfat.Units.Host.{Host}
use libllfat.Units.Io.{SimulatedError}
use libllfat.Units.Cache
use libllfat.Boot.Root.{fat_err}
use libllfat.Fs.State.{M, pure, exit, ◌>>=◌, ◌>>◌, get_fat}
use libllfat.Fs.Geometry.{
  fat_bits, get_bytes_per_sector, get_reserved_sectors, get_num_fats, get_fatsize,
}

module _ {h : Host} (errors : List SimulatedError) where
  -- `fatunitget` on the cache of sectors.
  unfoldable pub get_sector : ℕ → M h (Option FatUnit)
  get_sector n f =
      let (u, sectors) =
        Cache.get h errors f.disk f.sectors f.offset (get_bytes_per_sector f) n f.fd in
      some (u, record f { sectors = sectors })

module _ {h : Host} where
  -- A store through the pointer to the cached sector `n`.
  unfoldable pub change_sector : ℕ → (FatUnit → FatUnit) → M h (Unit {0})
  change_sector n g f = elim (h.tfind n f.sectors) [
    | none ↦ none
    | some u ↦ some (tt, record f { sectors = h.put (g u) f.sectors })
  ]

  -- The guards of both functions: unknown bits, and a table that does not exist.
  abbrev pub guarded : {A : Type 0} → ℤ → A → (ℤ → M h A) → M h A
  guarded nfat failed k = do
    bits ← fat_bits
    f ← get_fat
    if eqb_ℤ bits minus_one
        then pure failed
        else if ltb_ℤ nfat (pos 0) || ltb_ℤ (get_num_fats f) nfat
        then exit
        else k bits

-- The offset of the entry of cluster `n` in its table.
abbrev pub entry_offset : ℕ → ℕ → ℕ
entry_offset bits n = n * (bits / 4) / 2

-- Where `n * (bits / 4)` overflows, or there are no bytes in a sector.
abbrev pub no_offset : (bits n bps : ℕ) → Bool
no_offset bits n bps = not (ltb (n * (bits / 4)) 0x8000_0000) || bps == 0

-- The two halves of a 12-bit entry: `content >> ((n & 1) << 2)` and `& 0x0FFF`. The bytes are disjoint
-- fields, so `|` is their sum.
unfoldable pub extract12 : ℕ → ℕ → ℕ → ℕ
extract12 n low high =
    let content = high * 256 + low in (if n % 2 == 1 then content / 16 else content) % 0x1000

-- What `fatsetfat` stores in the two bytes of a 12-bit entry, given what they hold: for an odd cluster
-- the value is moved up by four bits above the low four of `low`, for an even one the high four of
-- `high` stay.
unfoldable pub insert12_low : ℕ → ℕ → ℕ → ℕ
insert12_low n next low = if n % 2 == 1 then next % 16 * 16 + low % 16 else next % 256

unfoldable pub insert12_high : ℕ → ℕ → ℕ → ℕ
insert12_high n next high =
    if n % 2 == 1
    then next / 16 % 256
    else next / 256 % 16 + 16 * bit_or (next / 4096 % 16) (high / 16)

module _ {h : Host} (errors : List SimulatedError) where
  -- `_fatclusterpos`: the sector of an entry, and the place in it. A product that is no `int`, and a
  -- division by zero, are faults.
  unfoldable pub cluster_pos : ℕ → ℕ → M h (Option FatUnit × ℕ)
  cluster_pos nfat n = do
    f ← get_fat
    size ← get_fatsize
    bits ← fat_bits
    let pcluster = entry_offset (pos_part bits) n
    let nsector = pcluster / get_bytes_per_sector f
    if no_offset (pos_part bits) n (get_bytes_per_sector f) then exit else (do
      u ← get_sector errors (get_reserved_sectors f + nfat * pos_part size + nsector)
      pure (u, pcluster - nsector * get_bytes_per_sector f))

  -- `_fatclusterposnext`
  unfoldable pub cluster_pos_next : FatUnit → ℕ → M h (Option FatUnit × ℕ)
  cluster_pos_next fs low = do
    f ← get_fat
    if not (low == get_bytes_per_sector f - 1)
        then pure (some fs, low + 1)
        else (do u ← get_sector errors (fs.n + 1); pure (u, 0))

  -- The content of an entry, once its sector is there.
  unfoldable pub read_entry : ℤ → ℕ → FatUnit → ℕ → M h ℤ
  read_entry bits n fs pcluster =
      if eqb_ℤ bits (pos 12)
      then (do
        (high, phigh) ← cluster_pos_next fs pcluster
        elim high [
          | none ↦ pure fat_err
          | some u ↦
              pure (pos (extract12 n (get8 fs.data_bytes pcluster) (get8 u.data_bytes phigh)))
        ])
      else if eqb_ℤ bits (pos 16)
      then pure (pos (get16 fs.data_bytes pcluster))
      else if eqb_ℤ bits (pos 32)
      then pure (pos (get32 fs.data_bytes pcluster % 0x1000_0000))
      else pure fat_err

  unfoldable pub get_fat_entry : ℤ → ℕ → M h ℤ
  get_fat_entry nfat n = guarded nfat fat_err λ bits. do
    (found, pcluster) ← cluster_pos (pos_part nfat) n
    elim found [ none ↦ pure fat_err | some fs ↦ read_entry bits n fs pcluster ]

  -- Both bytes of a 12-bit entry are read before the first is stored. The code stores through the
  -- pointer that `_fatclusterposnext` returned even if it is NULL.
  unfoldable pub write_entry : ℤ → ℕ → ℕ → FatUnit → ℕ → M h (Unit {0})
  write_entry bits n next fs pcluster =
      if eqb_ℤ bits (pos 12)
      then (do
        (high, phigh) ← cluster_pos_next fs pcluster
        elim high [
          | none ↦ exit
          | some u ↦ (do
            let low_byte = insert12_low n next (get8 fs.data_bytes pcluster)
            let high_byte = insert12_high n next (get8 u.data_bytes phigh)
            change_sector fs.n (λ w. store8 w pcluster low_byte)
            change_sector u.n (λ w. store8 w phigh high_byte))
        ])
      else if eqb_ℤ bits (pos 16)
      then change_sector fs.n (λ w. store16 w pcluster next)
      else if eqb_ℤ bits (pos 32)
      then change_sector fs.n (λ w. store32 w pcluster next)
      else pure tt

  -- `next` is the bit pattern of the `int32_t`. Only the first of the two sectors is marked dirty.
  unfoldable pub set_fat_entry : ℤ → ℕ → ℕ → M h ℤ
  set_fat_entry nfat n next = guarded nfat minus_one λ bits. do
    (found, pcluster) ← cluster_pos (pos_part nfat) n
    elim found [
      | none ↦ pure minus_one
      | some fs ↦ (do
        write_entry bits n next fs pcluster
        change_sector fs.n mark_dirty
        pure (pos 0))
    ]
