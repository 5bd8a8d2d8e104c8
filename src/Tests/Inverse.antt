-- ===== src/Tests/Inverse.antt =====
-- The theorems on lib/inverse.c at the FAT of 12 bits of the tests of the table.
use libllfat.Prelude.{
  ℕ, zero, suc, ◌≤◌, ◌≡◌, refl, ap, sym, ◌∙◌, arith, true, some, List, [], ◌∷◌, replicate,
}
use libllfat.Prelude.Int.{pos, pos_part}
use libllfat.Reference.Target.{Reference, entry, chain}
use libllfat.Inverse.Slots.{Slot, slot, void, inverse_chains}
use libllfat.Inverse.Filled.{source, sourced, inverse_chains-source}
use libllfat.Tests.Table.{fs}
use libllfat.Tests.Reference.{v, view}

free_from : (c : ℕ) → v (suc (suc (suc (suc (suc c))))) ≡ pos 0
free_from c = ground arith

v_bound : (c t : ℕ) → 2 ≤ c → c ≤ 7 → v c ≡ pos t → t ≤ 7
v_bound zero t lo hi e = absurd (omega arith)
v_bound (suc zero) t lo hi e = absurd (omega arith)
v_bound (suc (suc zero)) t lo hi e = omega (arith, ap pos_part e)
v_bound (suc (suc (suc zero))) t lo hi e = omega (arith, ap pos_part e)
v_bound (suc (suc (suc (suc zero)))) t lo hi e = absurd (ground (arith, e))
v_bound (suc (suc (suc (suc (suc c))))) t lo hi e =
    omega (arith, ap pos_part (sym (free_from c) ∙ e))

-- What malloc(3) leaves: slots that look like those of directories.
abbrev left : List Slot
left = replicate 9 (record { reference = chain (pos 5); isdir = true })

inverse_chains-source_example :
    (rev : List Slot) × (inverse_chains [] (λ size. some left) fs ≡ some (some rev, fs))
    × ((t : ℕ) → 1 ≤ t → t ≤ 7 → slot rev t ≡ sourced (slot left t) (source v t 2 6))
inverse_chains-source_example =
    inverse_chains-source [] 7 v fs view v_bound (λ size. some left) left (omega arith) refl refl
      (omega arith)

-- Cluster 2 is the first of a file, whose entry is in cluster 9.
abbrev rev : List Slot
rev =
    void
    ∷ void
    ∷ record { reference = entry 9 1; isdir = true }
    ∷ record { reference = chain (pos 2); isdir = true }
    ∷ record { reference = chain (pos 3); isdir = true }
    ∷ void
    ∷ void
    ∷ void
    ∷ void
    ∷ []

abbrev is_chain : Reference → ℕ
is_chain (entry d i) = 0
is_chain (chain w) = 1
