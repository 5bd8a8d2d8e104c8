-- ===== src/Boot/BestSize.antt =====
-- lib/boot.c: `fatbootsignaturebits`, and `fatbootbestfatsize`, which looks for the least size of the
-- tables by trying.
use mathlib.Core.Option
use libllfat.Prelude.{
  ℕ, zero, suc, Bool, true, false, ◌&&◌, ltb, ◌==◌, if◌then◌else◌, Option, none, some, [], ◌∷◌,
}
use libllfat.Prelude.Int.{ℤ, pos, minus_one, negsuc, u32, ltb_ℤ, eqb_ℤ}
use libllfat.Bytes.{Bytes, read_bytes}
use libllfat.Units.{FatUnit}
use libllfat.Boot.Size.{set_fatsize, get_fatsize, num_data_clusters}
use libllfat.Boot.Root.{min_fatsize}

unfoldable pub same_bytes : Bytes → Bytes → Bool
same_bytes [] ys = true
same_bytes (x ∷ xs) [] = false
same_bytes (x ∷ xs) (y ∷ ys) = x == y && same_bytes xs ys

-- "FAT12   ", "FAT16   ", "FAT32   "
abbrev fat_name : ℕ → ℕ → Bytes
fat_name tens ones = b'F' ∷ b'A' ∷ b'T' ∷ tens ∷ ones ∷ b' ' ∷ b' ' ∷ b' ' ∷ []

unfoldable pub signature_bits : FatUnit → ℤ
signature_bits boot =
    let at = λ (i : ℕ) (name : Bytes). same_bytes name (read_bytes boot.data_bytes i 8) in
    if at 0x36 (fat_name b'1' b'2')
    then pos 12
    else if at 0x36 (fat_name b'1' b'6')
    then pos 16
    else if at 0x52 (fat_name b'3' b'2')
    then pos 32
    else minus_one

-- `nclusters[k]` and `fatsize[k]`
pub record Round : Type 0 where
  pub nclusters : ℤ
  pub fatsize : ℤ

unfoldable pub same_round : Round → Round → Bool
same_round a b = eqb_ℤ a.nclusters b.nclusters && eqb_ℤ a.fatsize b.fatsize

abbrev least_31 : ℕ → ℕ
least_31 n = if ltb n 0x7fff_ffff then n else 0x7fff_ffff

-- A call of `fatbootsetfatsize` with the bits NULL.
abbrev store_size : FatUnit → ℤ → Option FatUnit
store_size boot size = elim (set_fatsize (some boot) size none) [
  | none ↦ none
  | some ((boot', r), bits) ↦ boot'
]

-- The body of the loop: the clusters that are left by the size that is stored, and the size that
-- these need, which is stored, or 0xffff where it does not fit.
unfoldable pub size_round : FatUnit → Option (FatUnit × Round)
size_round boot = elim (num_data_clusters boot none) [
  | none ↦ none
  | some (clusters, bits) ↦ elim (min_fatsize boot (pos (least_31 (u32 clusters)))) [
    | none ↦ none
    | some size ↦
        let round : Round = record { nclusters = clusters; fatsize = size } in
        elim (store_size boot size) [
          | none ↦ none
          | some stored ↦ elim (get_fatsize (some stored) none) [
            | none ↦ none
            | some (got, bits') ↦
                if ltb_ℤ got size
                then Option.map (λ (b : FatUnit). (b, round)) (store_size stored (pos 0xffff))
                else some (stored, round)
          ]
        ]
  ]
]

-- The loop. `last`, `middle` and `oldest` stand in the slots `(i + 2) % 3`, `(i + 1) % 3` and `i`; it
-- ends when the last round is as the one two rounds before, and stores the greater of the two sizes.
-- Without fuel it gives `none`, as where it divides by zero.
unfoldable pub size_loop : ℕ → FatUnit → Round → Round → Round → Option (FatUnit × ℤ)
size_loop zero boot last middle oldest = none
size_loop (suc fuel) boot last middle oldest = elim (same_round last oldest) [
  | true ↦
      let best = if ltb_ℤ oldest.fatsize last.fatsize then last.fatsize else oldest.fatsize in
      Option.map (λ (b : FatUnit). (b, best)) (store_size boot best)
  | false ↦ elim (size_round boot) [
    | none ↦ none
    | some (boot', round) ↦ size_loop fuel boot' round last middle
  ]
]

abbrev unmeasured : ℤ → Round
unmeasured n = record { nclusters = n; fatsize = n }

-- The bits 12 make the first call store 1 in the 16 bits of the size.
unfoldable pub best_fatsize : ℕ → FatUnit → Option (FatUnit × ℤ)
best_fatsize fuel boot = elim (set_fatsize (some boot) (pos 1) (some (pos 12))) [
  | none ↦ none
  | some ((none, r), bits) ↦ none
  | some ((some boot', r), bits) ↦
      size_loop fuel boot' (unmeasured (negsuc 3)) (unmeasured (negsuc 2)) (unmeasured (negsuc 1))
]
