-- ===== src/Boot/Bits.antt =====
-- The bits of the FAT (`fatbootbits`, `_fatbootbits`): which values there are, and the caching.
use libllfat.Prelude.{
  ℕ, ◌/◌, ◌≡◌, ◌≢◌, refl, ◌⊎◌, inl, inr, arith, ◌==◌, Bool-cases, some_of_ne_none, false, none,
  some,
}
use libllfat.Prelude.Int.{ℤ, pos, minus_one}
use libllfat.Units.{FatUnit}
use libllfat.Boot.Fields.{bits_from_clusters, get_bytes_per_sector, get_sectors_per_cluster}
use libllfat.Boot.Size.{
  boot_bits, data_clusters_of, num_sectors_any, fatsize_any, root_entries_any, root_sectors_of,
  conditional_minus, division,
}

-- The results of `fatbootbits`.
abbrev pub IsBits : ℤ → Type 0
IsBits b = (b ≡ minus_one) ⊎ (b ≡ pos 12) ⊎ (b ≡ pos 16) ⊎ (b ≡ pos 32)

pub division_total : (a b : ℕ) → (b == 0) ≡ false → division a b ≡ some (a / b)
unfolding division
division_total a b h = ground arith

pub root_sectors_of-total :
    (boot : FatUnit) (entries : ℕ)
    → (get_bytes_per_sector boot == 0) ≡ false
    → (r : ℕ) × (root_sectors_of boot entries ≡ some r)
unfolding root_sectors_of
root_sectors_of-total boot entries h = (_, division_total _ _ h)

-- With no zero size in the boot sector nothing divides by zero.
data_clusters_of-ne-none :
    (boot : FatUnit) (sectors : ℕ) (fatsize : ℤ) (entries : ℕ)
    → (get_bytes_per_sector boot == 0) ≡ false
    → (get_sectors_per_cluster boot == 0) ≡ false
    → data_clusters_of boot sectors fatsize entries ≢ none
unfolding data_clusters_of conditional_minus root_sectors_of division
data_clusters_of-ne-none boot sectors fatsize entries h k = ground arith

pub bits_from_clusters-IsBits : (n : ℤ) → IsBits (bits_from_clusters n)
unfolding bits_from_clusters
bits_from_clusters-IsBits n = ground arith

-- `fatbootbits` never divides by zero, and gives -1, 12, 16 or 32.
pub boot_bits_total : (boot : FatUnit) → (b : ℤ) × (boot_bits boot ≡ some b) × IsBits b
unfolding boot_bits
boot_bits_total boot = elim (Bool-cases (get_bytes_per_sector boot == 0)) [
  | inl e ↦ (minus_one, ground arith, inl refl)
  | inr e ↦ elim (Bool-cases (get_sectors_per_cluster boot == 0)) [
    | inl e' ↦ (minus_one, ground arith, inl refl)
    | inr e' ↦
        let (c, run) =
          some_of_ne_none
            (data_clusters_of boot (num_sectors_any boot) (fatsize_any boot)
              (root_entries_any boot))
            (data_clusters_of-ne-none boot (num_sectors_any boot) (fatsize_any boot)
              (root_entries_any boot) e e') in
        (bits_from_clusters c, ground arith, bits_from_clusters-IsBits c)
  ]
]
