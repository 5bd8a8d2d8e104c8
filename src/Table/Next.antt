-- ===== src/Table/Next.antt =====
-- lib/table.c: the successor of a cluster, in one table or in all of them.
use libllfat.Prelude.{
  ℕ, zero, suc, ◌+◌, ◌/◌, ◌%◌, Bool, false, not, ◌&&◌, ◌==◌, if◌then◌else◌, none, List,
}
use libllfat.Prelude.Int.{ℤ, pos, negsuc, minus_one, pos_part, eqb_ℤ, ltb_ℤ, u32, ◌+ℤ◌, ◌-ℤ◌}
use libllfat.Units.Host.{Host}
use libllfat.Units.Io.{SimulatedError}
use libllfat.Boot.Root.{fat_err, fat_root}
use libllfat.Fs.State.{exit, M, pure, ◌>>=◌, ◌>>◌, get_fat, modify}
use libllfat.Fs.Geometry.{fat_bits, get_num_fats, last_cluster}
use libllfat.Table.Raw.{get_fat_entry, set_fat_entry}

-- `FAT_ALL`, `FAT_UNUSED`, `FAT_EOF`, `FAT_BAD`, `FAT_FIRST`
abbrev pub fat_all : ℤ
fat_all = negsuc 0

abbrev pub fat_unused : ℤ
fat_unused = pos 0

abbrev pub fat_eof : ℤ
fat_eof = negsuc 0

abbrev pub fat_bad : ℤ
fat_bad = negsuc 1

abbrev pub fat_first : ℕ
fat_first = 2

-- The masks 0x0FF8, 0xFFF8, 0x0FFFFFF8: all bits of an entry but the lowest three are ones.
unfoldable pub is_fat_eof : ℤ → ℕ → Bool
is_fat_eof bits n =
    if eqb_ℤ bits (pos 12)
    then n / 8 % 0x200 == 0x1ff
    else if eqb_ℤ bits (pos 16)
    then n / 8 % 0x2000 == 0x1fff
    else if eqb_ℤ bits (pos 32)
    then n / 8 % 0x200_0000 == 0x1ff_ffff
    else false

-- The masks 0x0FF7, 0xFFF7, 0x0FFFFFF7: all bits but the fourth.
unfoldable pub is_fat_bad : ℤ → ℕ → Bool
is_fat_bad bits n =
    not (is_fat_eof bits n)
    && (n % 8 == 7
        && (if eqb_ℤ bits (pos 12)
            then n / 16 % 0x100 == 0xff
            else if eqb_ℤ bits (pos 16)
            then n / 16 % 0x1000 == 0xfff
            else if eqb_ℤ bits (pos 32)
            then n / 16 % 0x100_0000 == 0xff_ffff
            else false))

-- An entry as a successor.
unfoldable pub classify : ℤ → ℤ → ℤ → ℤ
classify bits last (negsuc k) = fat_err
classify bits last (pos next) =
    if is_fat_bad bits next
    then fat_bad
    else if is_fat_eof bits next
    then fat_eof
    else if ltb_ℤ last (pos next)
    then fat_err
    else pos next

module _ {h : Host} (errors : List SimulatedError) where
  -- The first of the tables from `ifat` on that can be read; `left` tables are left.
  unfoldable pub first_readable : (left ifat n : ℕ) → M h ℤ
  first_readable zero ifat n = pure fat_err
  first_readable (suc left) ifat n =
      let rest = first_readable left (ifat + 1) n in
      (do next ← get_fat_entry errors (pos ifat) n; if eqb_ℤ next fat_err then rest else pure next)

  -- With no table to look at the code uses a variable that it has not set.
  unfoldable pub raw_next : ℕ → M h ℤ
  raw_next n f =
      if not (eqb_ℤ f.nfat fat_all)
      then get_fat_entry errors f.nfat n f
      else if pos_part (get_num_fats f) == 0
      then none
      else first_readable (pos_part (get_num_fats f)) 0 n f

  unfoldable pub get_next_cluster : ℤ → M h ℤ
  get_next_cluster n =
      if eqb_ℤ n fat_root then pure fat_eof else if ltb_ℤ n fat_root then pure fat_err else (do
        last ← last_cluster
        if ltb_ℤ last n
            then pure fat_err
            else (do next ← raw_next (pos_part n); bits ← fat_bits; pure (classify bits last next)))

-- The entry for a successor, before it is cut to the width of the table.
unfoldable pub encode : ℤ → ℕ
encode next =
    if eqb_ℤ next fat_eof then 0x0fff_fff8 else if eqb_ℤ next fat_bad then 0x0fff_fff7 else u32 next

module _ {h : Host} (errors : List SimulatedError) where
  -- `fatsetnextcluster` with `f->nfat` one table. A negative cluster has its place before the table.
  unfoldable pub set_in_table : ℤ → ℤ → ℤ → M h ℤ
  set_in_table nfat n next = do
    last ← last_cluster
    bits ← fat_bits
    if ltb_ℤ last n
        then pure fat_err
        else if eqb_ℤ n fat_root
        then pure minus_one
        else if ltb_ℤ n (pos 0)
        then exit
        else if eqb_ℤ bits (pos 12)
        then set_fat_entry errors nfat (pos_part n) (encode next % 0x1000)
        else if eqb_ℤ bits (pos 16)
        then set_fat_entry errors nfat (pos_part n) (encode next % 0x1_0000)
        else if eqb_ℤ bits (pos 32)
        then set_fat_entry errors nfat (pos_part n) (encode next % 0x1000_0000)
        else pure minus_one

  -- The loop over the tables from `ifat` on, which counts the failures downwards.
  unfoldable pub set_in_tables : (left ifat : ℕ) → ℤ → ℤ → ℤ → M h ℤ
  set_in_tables zero ifat n next res = pure res
  set_in_tables (suc left) ifat n next res = do
    r ← set_in_table (pos ifat) n next
    set_in_tables left (ifat + 1) n next (if eqb_ℤ r (pos 0) then res else res -ℤ pos 1)

  -- The number of free clusters, if it is known, follows the change.
  unfoldable pub account : ℤ → ℤ → M h (Unit {0})
  account n next = do
    before ← get_next_cluster errors n
    modify (λ f.
        if not (eqb_ℤ before fat_unused) && eqb_ℤ next fat_unused
        then record f { free = f.free +ℤ pos 1 }
        else f)
    again ← get_next_cluster errors n
    modify (λ f.
        if eqb_ℤ again fat_unused && not (eqb_ℤ next fat_unused)
        then record f { free = f.free -ℤ pos 1 }
        else f)

  -- The field `nfat` counts the tables in the loop, and is `FAT_ALL` again behind it.
  unfoldable pub set_next_cluster : ℤ → ℤ → M h ℤ
  set_next_cluster n next = do
    last ← last_cluster
    f ← get_fat
    if ltb_ℤ last n
        then pure fat_err
        else if eqb_ℤ n fat_root
        then pure minus_one
        else if not (eqb_ℤ f.nfat fat_all)
        then set_in_table f.nfat n next
        else (do
          if eqb_ℤ f.free minus_one then pure tt else account n next
          set_in_tables (pos_part (get_num_fats f)) 0 n next (pos 0))

  -- `fatfixtableheader`; bits 0x0F00 and the like are above those of the media byte.
  unfoldable pub fix_table_header : ℤ → ℕ → M h ℤ
  fix_table_header nfat media = do
    bits ← fat_bits
    if eqb_ℤ bits (pos 12)
        then (do
          r ← set_fat_entry errors nfat 0 (0x0f00 + media)
          if eqb_ℤ r (pos 0) then set_fat_entry errors nfat 1 0x0ff8 else pure minus_one)
        else if eqb_ℤ bits (pos 16)
        then (do
          r ← set_fat_entry errors nfat 0 (0xff00 + media)
          if eqb_ℤ r (pos 0) then set_fat_entry errors nfat 1 0xfff8 else pure minus_one)
        else if eqb_ℤ bits (pos 32)
        then (do
          r ← set_fat_entry errors nfat 0 (0x0fff_ff00 + media)
          if eqb_ℤ r (pos 0) then set_fat_entry errors nfat 1 0x0fff_fff8 else pure minus_one)
        else pure minus_one
