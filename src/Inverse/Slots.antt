-- ===== src/Inverse/Slots.antt =====
-- lib/inverse.c: the inverse table, its making, and its change by one reference.
use libllfat.Prelude.{
  ℕ, zero, suc, ◌+◌, ◌-◌, Bool, true, false, ltb, if◌then◌else◌, Option, none, some, List, length,
  get_or, set,
}
use mathlib.Core.Option
use libllfat.Prelude.Int.{ℤ, pos, negsuc, pos_part, ltb_ℤ, i32, u32, ◌+ℤ◌, ◌*ℤ◌}
use libllfat.Units.Host.{Host}
use libllfat.Units.Io.{SimulatedError}
use libllfat.Boot.Root.{fat_err, fat_root}
use libllfat.Fs.State.{M, pure, exit, ◌>>=◌}
use libllfat.Fs.Geometry.{last_cluster}
use libllfat.Table.Next.{fat_first}
use libllfat.Reference.Target.{Reference, chain, is_void, get_target}

-- `fatinverse`, of one cluster: its reference, and whether its chain is that of a directory.
pub record Slot : Type 0 where
  pub reference : Reference
  pub isdir : Bool

abbrev pub void : Slot
void = record { reference = chain (pos 0); isdir = false }

abbrev pub slot : List Slot → ℕ → Slot
slot rev n = get_or rev n void

-- No caller passes a cluster behind the end of the array.
unfoldable pub clear : List Slot → ℤ → List Slot
clear rev (negsuc c) = rev
clear rev (pos c) = set rev c void

unfoldable pub inverse_is_void : List Slot → ℤ → Bool
inverse_is_void rev (negsuc c) = true
inverse_is_void rev (pos c) = is_void (slot rev c).reference

-- An argument `isdir` of -1 is `none`, and keeps what the slot holds.
abbrev pub fill : List Slot → ℕ → Reference → Option Bool → Slot
fill rev target r none = record { reference = r; isdir = (slot rev target).isdir }
fill rev target r (some isdir) = record { reference = r; isdir = isdir }

module _ {h : Host} (errors : List SimulatedError) where
  -- A store behind the end of the array is a fault.
  unfoldable pub inverse_set : List Slot → Reference → Option Bool → M h (List Slot × ℤ)
  inverse_set rev r isdir = do
    target ← get_target errors r
    let n = pos_part target
    if ltb_ℤ target fat_root
        then pure (rev, fat_err)
        else if ltb n (length rev)
        then pure (set rev n (fill rev n r isdir), target)
        else exit

  -- `allocate` is malloc(3), or, where the array is in a file, what mkstemp(3), lseek(2), write(2) and
  -- mmap(2) make of it: the slots in so many bytes, or none where the code returns NULL. The size is
  -- cut to `int`; `sizeof(fatinverse)` is 24, where a pointer has eight bytes. Of the slot 0, which also
  -- keeps how the array was made, the index and the name of the file are left out.
  unfoldable pub inverse_empty : (allocate : ℤ → Option (List Slot)) → M h (Option (List Slot))
  inverse_empty allocate = do
    last ← last_cluster
    let size = i32 (u32 (pos 24 *ℤ (last +ℤ pos 2)))
    pure (
        Option.map
          (λ (rev : List Slot). set rev 0 (record (slot rev 0) { reference = chain (pos 0) }))
          (allocate size))

  -- The loop of `fatinversechains`, from the cluster `cl` on.
  unfoldable pub chains_from : (fuel : ℕ) → ℕ → List Slot → M h (List Slot)
  chains_from zero cl rev = pure rev
  chains_from (suc fuel) cl rev = do
    step ← inverse_set rev (chain (pos cl)) (some false)
    chains_from fuel (cl + 1) step.0

  unfoldable pub inverse_chains : (allocate : ℤ → Option (List Slot)) → M h (Option (List Slot))
  inverse_chains allocate = do
    made ← inverse_empty allocate
    elim made [
      | none ↦ pure none
      | some rev ↦ (do
        last ← last_cluster
        filled ← chains_from (pos_part last - 1) fat_first rev
        pure (some filled))
    ]
