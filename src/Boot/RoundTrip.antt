-- ===== src/Boot/RoundTrip.antt =====
-- What a setter of the boot sector stores is what the getter returns, and which values a setter
-- refuses.
use libllfat.Prelude.{
  ℕ, ◌-◌, ◌<◌, ◌≤◌, ◌≡◌, ◌≢◌, ◌↔◌, inl, inr, refl, arith, ◌==◌, Bool, true, false, not, ltb, leb,
  if◌then◌else◌, ◌||◌, some, length, Bool-cases,
}
use libllfat.Prelude.Int.{ℤ, pos, negsuc, minus_one}
use libllfat.Prelude.Tables.{all_below, all_below_sound}
use libllfat.Bytes.{IsBytes, get16}
use libllfat.Bytes.Laws.{get8-put8, get8-put16, get16-put16}
use libllfat.Units.{FatUnit, mark_dirty, store8, store16}
use libllfat.Boot.Fields.{
  onebit, get_sectors_per_cluster, set_sectors_per_cluster, get_backup_sector, set_backup_sector,
  get_reserved_sectors, get_info_pos, get_num_fats, set_num_fats,
}

-- A loaded boot sector: bytes, at least as many as the fields span.
pub record IsSector (u : FatUnit) : Type 0 where
  pub bytes : IsBytes u.data_bytes
  pub wide : 512 ≤ length u.data_bytes

-- The powers of two that a byte can hold.
abbrev pub is_power : ℕ → Bool
is_power c =
    c == 1 || (c == 2 || (c == 4 || (c == 8 || (c == 16 || (c == 32 || (c == 64 || c == 128))))))

onebit_table : all_below 256 (λ c. if onebit c then is_power c else not (is_power c)) ≡ true
unfolding all_below onebit
onebit_table = refl

-- On bytes `_onebit` tests for the eight powers of two.
pub onebit-is_power : (c : ℕ) → c < 256 → onebit c ≡ is_power c
onebit-is_power c h =
    let t =
      all_below_sound 256 (λ c. if onebit c then is_power c else not (is_power c)) c onebit_table
        h in
    ground arith

is_power-lt : (n : ℕ) → is_power n ≡ true → n < 256
is_power-lt n h = ground arith

-- The numbers that `fatbootsetsectorspercluster` takes.
abbrev pub accepts : ℤ → Bool
accepts (pos n) = is_power n
accepts (negsuc n) = false

refusal : (n : ℕ) → (leb 256 n || not (onebit n)) ≡ not (is_power n)
refusal n = elim (Bool-cases (leb 256 n)) [
  | inl big ↦ ground (arith, is_power-lt n)
  | inr small ↦ ground (arith, onebit-is_power n)
]

-- `fatbootsetsectorspercluster` succeeds on the powers of two up to 128 and on nothing else; then
-- the getter returns the number, and the unit is marked dirty. If it fails the unit is as before.
pub set_sectors_per_cluster_lem :
    (boot : FatUnit) (z : ℤ)
    → IsSector boot
    → (boot' : FatUnit) × (r : ℤ) × (set_sectors_per_cluster (some boot) z ≡ (some boot', r))
      × ((r ≡ pos 0) ↔ (accepts z ≡ true))
      × (r ≡ pos 0 → (pos (get_sectors_per_cluster boot') ≡ z) × (boot'.dirty ≡ true))
      × (r ≢ pos 0 → boot' ≡ boot)
unfolding set_sectors_per_cluster
set_sectors_per_cluster_lem boot (negsuc n) s =
    (boot, minus_one, refl, ground arith, ground arith, λ _. refl)
set_sectors_per_cluster_lem boot (pos n) s = elim (Bool-cases (is_power n)) [
  | inl p ↦ (
    mark_dirty (store8 boot 0x0d n),
    pos 0,
    rw (refusal n, p) refl,
    ground arith,
    λ _. (
      unfold get_sectors_per_cluster in
          ground (arith, get8-put8 boot.data_bytes 0x0d 0x0d n, s.wide, is_power-lt n p),
      refl,
    ),
    λ ne. absurd (ne refl),
  )
  | inr p ↦ (boot, minus_one, rw (refusal n, p) refl, ground arith, ground arith, λ _. refl)
]

-- A backup position that `fatbootsetbackupsector` takes is what `fatbootgetbackupsector` returns:
-- one in the reserved area, or just behind it, that is neither 0 nor that of the information sector.
pub get_backup_sector-set :
    (boot : FatUnit) (n : ℕ)
    → IsSector boot
    → 0 < n
    → n ≤ get_reserved_sectors boot
    → n < 0xffff
    → n ≢ get_info_pos boot
    → (boot' : FatUnit) × (set_backup_sector (some boot) (pos n) ≡ (some boot', pos 0))
      × (get_backup_sector boot' ≡ pos n)
      × (get_reserved_sectors boot' ≡ get_reserved_sectors boot)
unfolding set_backup_sector
get_backup_sector-set boot n s h₁ h₂ h₃ h₄ = (
  mark_dirty (store16 boot 0x32 n),
  ground arith,
  unfold get_backup_sector in ground (arith, get16-put16 boot.data_bytes 0x32 n, s.wide),
  unfold get_reserved_sectors get16 in
      ground (
        arith,
        get8-put16 boot.data_bytes 0x32 0x0e n,
        get8-put16 boot.data_bytes 0x32 0x0f n,
        s.wide,
      ),
)

-- A number of tables from 128 to 255 is stored, and read back as a negative number.
pub get_num_fats-set :
    (boot : FatUnit) (n : ℕ)
    → IsSector boot
    → n < 256
    → (boot' : FatUnit) × (set_num_fats (some boot) (pos n) ≡ (some boot', pos 0))
      × (get_num_fats boot' ≡ (if ltb n 128 then pos n else negsuc (255 - n)))
unfolding set_num_fats get_num_fats
get_num_fats-set boot n s h =
    (_, refl, ground (arith, get8-put8 boot.data_bytes 0x10 0x10 n, s.wide))
