-- ===== src/Inverse/Moves.antt =====
-- lib/inverse.c: moving and swapping clusters with the inverse table kept in step.
use libllfat.Prelude.{
  ℕ, zero, suc, Bool, true, false, not, ◌&&◌, ◌||◌, ltb, if◌then◌else◌, Option, none, some, List,
  [], ◌∷◌, length,
}
use libllfat.Prelude.Int.{ℤ, pos, pos_part, eqb_ℤ, ltb_ℤ}
use libllfat.Units.Host.{Host}
use libllfat.Units.Io.{SimulatedError}
use libllfat.Fs.State.{M, pure, exit, ◌>>=◌}
use libllfat.Reference.Target.{
  Reference, entry, chain, is_cluster, is_entry, get_target, set_target, refers_directory,
}
use libllfat.Reference.Move.{follow, cluster_move, cluster_swap}
use libllfat.Boot.Root.{fat_root}
use libllfat.Table.Next.{fat_unused}
use libllfat.Inverse.Slots.{Slot, slot, clear, inverse_set}

-- The slots point to units, which keep their places when their numbers change.
unfoldable pub follow_all : (a b : ℕ) → List Slot → List Slot
follow_all a b [] = []
follow_all a b (s ∷ rev) =
    record { reference = follow a b s.reference; isdir = s.isdir } ∷ follow_all a b rev

module _ {h : Host} (errors : List SimulatedError) where
  unfoldable pub move_reference :
      List Slot → Reference → Option Bool → (dst : ℕ) → Bool → M h (List Slot × ℤ)
  move_reference rev r isdir dst writeback = do
    target ← get_target errors r
    let src = pos_part target
    res ← cluster_move errors r dst writeback
    if not (eqb_ℤ res (pos 0)) then pure (rev, res) else (do
      one ← inverse_set errors (follow_all src dst rev) (follow src dst r) isdir
      two ← inverse_set errors one.0 (chain (pos dst)) none
      pure (clear two.0 target, pos 0))

  unfoldable pub inverse_move : List Slot → (src dst : ℕ) → Bool → M h (List Slot × ℤ)
  inverse_move rev src dst writeback =
      let s = slot rev src in
      if ltb src (length rev)
      then move_reference rev s.reference (some s.isdir) dst writeback
      else exit

  unfoldable pub swap_reference :
      List Slot → Reference → Option Bool → Reference → Option Bool → Bool → M h (List Slot × ℤ)
  swap_reference rev r isdir s isdir' writeback = do
    first ← get_target errors r
    second ← get_target errors s
    let a = pos_part first
    let b = pos_part second
    res ← cluster_swap errors r s writeback
    if not (eqb_ℤ res (pos 0)) then pure (rev, res) else (do
      one ← inverse_set errors (follow_all a b rev) (follow a b r) isdir
      two ← inverse_set errors one.0 (chain first) none
      three ← inverse_set errors two.0 (follow a b s) isdir'
      four ← inverse_set errors three.0 (chain second) none
      pure (four.0, pos 0))

  unfoldable pub inverse_swap : List Slot → (src dst : ℕ) → Bool → M h (List Slot × ℤ)
  inverse_swap rev src dst writeback =
      let s = slot rev src in
      let d = slot rev dst in
      if ltb src (length rev) && ltb dst (length rev)
      then swap_reference rev s.reference (some s.isdir) d.reference (some d.isdir) writeback
      else exit

-- Up the chain to a directory entry, if any. A cluster behind the end of the array is a fault.
unfoldable pub reference_to_entry : (fuel : ℕ) → List Slot → Reference → Option (Reference × Bool)
reference_to_entry fuel rev (entry d i) = some (entry d i, true)
reference_to_entry zero rev (chain p) = none
reference_to_entry (suc fuel) rev (chain p) =
    let n = pos_part p in
    let up = reference_to_entry fuel rev (slot rev n).reference in
    if not (is_cluster (chain p))
    then some (chain p, false)
    else if ltb n (length rev)
    then up
    else none

-- The cluster of a reference; with a directory the argument `previous` is 0.
unfoldable pub previous_of : Reference → ℤ
previous_of (entry d i) = pos 0
previous_of (chain p) = p

module _ {h : Host} (errors : List SimulatedError) where
  -- Whether the new target belongs to a directory, where the caller leaves it open.
  unfoldable pub kind_of : List Slot → Reference → Option Bool → M h (Option Bool)
  kind_of rev r (some isdir) = pure (some isdir)
  kind_of rev r none = do
    directory ← refers_directory r
    let p = previous_of r
    let n = pos_part p
    if directory
        then pure (some true)
        else if is_entry r || ltb_ℤ p fat_root
        then pure none
        else if not (ltb n (length rev))
        then exit
        else pure (if (slot rev n).isdir then some true else none)

  -- What is cleared is the slot of the previous cluster.
  unfoldable pub inverse_set_target : List Slot → Reference → ℤ → Option Bool → M h (List Slot)
  inverse_set_target rev r newt isdir = do
    _ ← set_target errors r newt
    kind ← kind_of rev r isdir
    if eqb_ℤ newt fat_unused
        then pure (clear rev (previous_of r))
        else (do step ← inverse_set errors rev r kind; pure step.0)
