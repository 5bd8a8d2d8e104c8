-- ===== src/Reference/Target.antt =====
-- lib/reference.c: the kinds of references, their target, and following them.
use libllfat.Prelude.{ℕ, zero, suc, ◌+◌, Bool, true, false, if◌then◌else◌, none, some, List}
use libllfat.Prelude.Int.{ℤ, pos, minus_one, eqb_ℤ, ltb_ℤ}
use libllfat.Units.{FatUnit}
use libllfat.Units.Host.{Host}
use libllfat.Units.Io.{SimulatedError}
use libllfat.Boot.Root.{fat_err}
use libllfat.Entry.Fields.{get_first_cluster, set_first_cluster, is_directory}
use libllfat.Fs.State.{M, pure, exit, ◌>>=◌, get_fat}
use libllfat.Fs.Geometry.{fat_bits, get_root_begin, set_root_begin}
use libllfat.Table.Next.{fat_unused, fat_eof, get_next_cluster, set_next_cluster}

-- The triple of a directory, an index and a previous cluster: with a directory it is the entry of
-- this index in the cached cluster `directory`; without, it is the cluster `previous`, the boot sector
-- for -1, and nothing for 0.
pub data Reference : Type 0 where
  entry : (directory index : ℕ) → Reference
  chain : (previous : ℤ) → Reference

unfoldable pub is_cluster : Reference → Bool
is_cluster (entry d i) = false
is_cluster (chain p) = ltb_ℤ (pos 0) p

unfoldable pub is_entry : Reference → Bool
is_entry (entry d i) = true
is_entry (chain p) = false

unfoldable pub is_boot : Reference → Bool
is_boot (entry d i) = false
is_boot (chain p) = eqb_ℤ p minus_one

unfoldable pub is_void : Reference → Bool
is_void (entry d i) = false
is_void (chain p) = eqb_ℤ p (pos 0)

module _ {h : Host} where
  -- The unit that a pointer to a cached cluster points to, and a change of it. A pointer to a unit
  -- that has left the cache is a fault.
  unfoldable pub cached_cluster : ℕ → M h FatUnit
  cached_cluster d f = elim (h.tfind d f.clusters) [ none ↦ none | some u ↦ some (u, f) ]

  unfoldable pub put_cluster : FatUnit → M h (Unit {0})
  put_cluster u f = some (tt, record f { clusters = h.put u f.clusters })

  unfoldable pub refers_directory : Reference → M h Bool
  refers_directory (entry d i) = do u ← cached_cluster d; pure (is_directory u i)
  refers_directory (chain p) = pure (is_boot (chain p))

module _ {h : Host} (errors : List SimulatedError) where
  unfoldable pub get_target : Reference → M h ℤ
  get_target (entry d i) = do
    bits ← fat_bits
    u ← cached_cluster d
    pure (get_first_cluster u i bits)
  get_target (chain p) =
      if eqb_ℤ p minus_one
      then get_root_begin
      else if ltb_ℤ p (pos 2)
      then pure fat_err
      else get_next_cluster errors p

  unfoldable pub set_target : Reference → ℤ → M h ℤ
  set_target (entry d i) newt = do
    f ← get_fat
    u ← cached_cluster d
    let (u', r) =
        set_first_cluster u (pos i) f.bits (if eqb_ℤ newt fat_eof then fat_unused else newt)
    _ ← put_cluster u'
    pure r
  set_target (chain p) newt =
      if eqb_ℤ p minus_one then set_root_begin newt else set_next_cluster errors p newt

  -- The reference behind one, with its target.
  unfoldable pub next_reference : Reference → M h (Reference × ℤ)
  next_reference r = do
    previous ← get_target r
    target ← get_target (chain previous)
    pure (chain previous, target)

  -- The loop of `fatreferencelast`: the reference at the end of the chain, and how many clusters are
  -- passed.
  unfoldable pub last_from : (fuel : ℕ) → Reference → ℤ → ℕ → M h (Reference × ℕ)
  last_from zero r cl n = exit
  last_from (suc fuel) r cl n =
      let more = (do step ← next_reference r; last_from fuel step.0 step.1 (n + 1)) in
      if ltb_ℤ cl (pos 2) then pure (r, n) else more

  unfoldable pub last_reference : (fuel : ℕ) → Reference → M h (Reference × ℕ)
  last_reference fuel r = do cl ← get_target r; last_from fuel r cl 0
