-- ===== src/Boot/Size.antt =====
-- lib/boot.c: the bits of the FAT, and the sizes that depend on them.
-- The argument `int *bits` is a state: NULL, or the `int` it points to, 0 if not known yet.
-- A call that divides by zero, which ends the program, gives `none`.
use mathlib.Core.Option
use libllfat.Prelude.{
  ℕ, ◌+◌, ◌-◌, ◌*◌, ◌/◌, ◌%◌, Bool, not, ◌&&◌, ◌||◌, ltb, leb, ◌==◌, if◌then◌else◌, Option, none,
  some,
}
use libllfat.Prelude.Int.{ℤ, pos, minus_one, u32, i32, ltb_ℤ, eqb_ℤ, ◌+ℤ◌, ◌*ℤ◌}
use libllfat.Bytes.{get16, get32}
use libllfat.Units.{FatUnit, store16, store32, mark_dirty}
use libllfat.Boot.Fields.{
  bits_from_clusters, get_bytes_per_sector, get_sectors_per_cluster, get_reserved_sectors,
  get_num_fats, get_fatsize16, get_fatsize32, set_fatsize16, set_fatsize32,
}

abbrev pub Bits : Type 0
Bits = Option ℤ

abbrev pub B : Type 0 → Type 0
B A = Bits → Option (A × Bits)

abbrev pub pure : {A : Type 0} → A → B A
pure a bits = some (a, bits)

abbrev pub lift : {A : Type 0} → Option A → B A
lift none bits = none
lift (some a) bits = some (a, bits)

infixl 5 ◌>>=◌
abbrev pub ◌>>=◌ : {A C : Type 0} → B A → (A → B C) → B C
◌>>=◌ m f bits = elim (m bits) [ none ↦ none | some (a, bits') ↦ f a bits' ]

-- `CONDITIONALMINUS` on unsigned numbers; `none` is its early return.
unfoldable pub conditional_minus : ℕ → ℕ → Option ℕ
conditional_minus a b = if ltb a b then none else some (a - b)

unfoldable pub division : ℕ → ℕ → Option ℕ
division a b = if b == 0 then none else some (a / b)

-- The values that are read when the bits are neither known nor required.
unfoldable pub num_sectors_any : FatUnit → ℕ
num_sectors_any boot =
    let s = get16 boot.data_bytes 0x13 in if s == 0 then get32 boot.data_bytes 0x20 else s

unfoldable pub fatsize_any : FatUnit → ℤ
fatsize_any boot =
    let s = get_fatsize16 (some boot) in if eqb_ℤ s (pos 0) then get_fatsize32 (some boot) else s

unfoldable pub root_entries_any : FatUnit → ℕ
root_entries_any boot = get16 boot.data_bytes 0x11

unfoldable pub root_sectors_of : FatUnit → ℕ → Option ℕ
root_sectors_of boot entries =
    let b = get_bytes_per_sector boot in division (entries * 32 + (b - 1)) b

-- The body of `fatbootnumdataclusters` on the three values that depend on the bits.
unfoldable pub data_clusters_of : FatUnit → ℕ → ℤ → ℕ → Option ℤ
data_clusters_of boot sectors fatsize entries =
    elim (conditional_minus sectors (get_reserved_sectors boot)) [
      | none ↦ some minus_one
      | some n ↦ elim (conditional_minus n (u32 (get_num_fats boot *ℤ fatsize))) [
        | none ↦ some minus_one
        | some n' ↦ elim (root_sectors_of boot entries) [
          | none ↦ none
          | some r ↦ elim (conditional_minus n' r) [
            | none ↦ some minus_one
            | some rest ↦ elim (division rest (get_sectors_per_cluster boot)) [
              | none ↦ none
              | some q ↦ some (i32 q)
            ]
          ]
        ]
      ]
    ]

unfoldable pub boot_bits : FatUnit → Option ℤ
boot_bits boot =
    if get_bytes_per_sector boot == 0 || get_sectors_per_cluster boot == 0
    then some minus_one
    else elim (data_clusters_of boot (num_sectors_any boot) (fatsize_any boot)
        (root_entries_any boot)) [ none ↦ none | some c ↦ some (bits_from_clusters c) ]

-- `_fatbootbits`
unfoldable pub known_bits : FatUnit → B ℤ
known_bits boot none = lift (boot_bits boot) none
known_bits boot (some b) =
    if eqb_ℤ b (pos 0)
    then elim (boot_bits boot) [ none ↦ none | some b' ↦ some (b', some b') ]
    else some (b, some b)

unfoldable pub get_num_sectors : FatUnit → B ℕ
get_num_sectors boot none = some (num_sectors_any boot, none)
get_num_sectors boot (some p) =
    (do
      b ← known_bits boot
      pure (if eqb_ℤ b (pos 32) then get32 boot.data_bytes 0x20 else num_sectors_any boot))
      (some p)

unfoldable pub set_num_sectors : Option FatUnit → ℕ → B (Option FatUnit × ℤ)
set_num_sectors none sectors = pure (none, minus_one)
set_num_sectors (some boot) sectors = do
  b ← known_bits boot
  let small = mark_dirty (store16 boot 0x13 (sectors % 0x1_0000))
  let large = mark_dirty (store32 (store16 boot 0x13 0) 0x20 sectors)
  pure (
      if eqb_ℤ b (pos 12)
      then if leb sectors 0xffff then (some small, pos 0) else (some boot, minus_one)
      else if eqb_ℤ b (pos 16) && leb sectors 0xffff
      then (some small, pos 0)
      else (some large, pos 0))

unfoldable pub get_fatsize : Option FatUnit → B ℤ
get_fatsize none bits = some (minus_one, bits)
get_fatsize (some boot) none = some (fatsize_any boot, none)
get_fatsize (some boot) (some p) =
    (do
      b ← known_bits boot
      pure (if eqb_ℤ b (pos 32) then get_fatsize32 (some boot) else get_fatsize16 (some boot)))
      (some p)

unfoldable pub set_fatsize : Option FatUnit → ℤ → B (Option FatUnit × ℤ)
set_fatsize none size = pure (none, minus_one)
set_fatsize (some boot) size = do
  b ← known_bits boot
  let large = (set_fatsize32 (set_fatsize16 (some boot) (pos 0)).0 size).0
  let small = (set_fatsize32 (set_fatsize16 (some boot) size).0 (pos 0)).0
  pure (Option.map mark_dirty (if eqb_ℤ b (pos 32) then large else small), pos 0)

unfoldable pub get_root_entries : FatUnit → B ℕ
get_root_entries boot none = some (root_entries_any boot, none)
get_root_entries boot (some p) =
    (do b ← known_bits boot; pure (if eqb_ℤ b (pos 32) then 0 else root_entries_any boot)) (some p)

unfoldable pub num_root_sectors : FatUnit → B ℕ
num_root_sectors boot = do entries ← get_root_entries boot; lift (root_sectors_of boot entries)

unfoldable pub num_data_clusters : FatUnit → B ℤ
num_data_clusters boot = do
  sectors ← get_num_sectors boot
  fatsize ← get_fatsize (some boot)
  entries ← get_root_entries boot
  lift (data_clusters_of boot sectors fatsize entries)

unfoldable pub last_cluster : FatUnit → B ℤ
last_cluster boot = do c ← num_data_clusters boot; pure (c +ℤ pos 1)

unfoldable pub is_valid_cluster : FatUnit → ℤ → B Bool
is_valid_cluster boot n = do
  last ← last_cluster boot
  pure (not (ltb_ℤ n (pos 2)) && not (ltb_ℤ last n))
