-- ===== src/Reference/Move.antt =====
-- lib/reference.c: `fatclustermove` and `fatclusterswap`.
use libllfat.Prelude.{ℕ, Bool, not, ◌==◌, if◌then◌else◌, none, some, List}
use libllfat.Prelude.Int.{ℤ, pos, negsuc, minus_one, eqb_ℤ, ltb_ℤ, pos_part}
use libllfat.Units.{FatUnit}
use libllfat.Units.Host.{Host}
use libllfat.Units.Io.{SimulatedError, write_back}
use libllfat.Units.Cache
use libllfat.Fs.State.{M, pure, ◌>>=◌}
use libllfat.Table.Next.{fat_unused, get_next_cluster, set_next_cluster}
use libllfat.Table.Position.{cluster_read}
use libllfat.Reference.Target.{Reference, entry, chain, cached_cluster, get_target, set_target}

-- A unit's pointer stays valid when its number changes: the reference of an entry follows.
abbrev pub swap_ℕ : (a b n : ℕ) → ℕ
swap_ℕ a b n = if n == a then b else if n == b then a else n

abbrev pub follow : (a b : ℕ) → Reference → Reference
follow a b (entry d i) = entry (swap_ℕ a b d) i
follow a b (chain p) = chain p

module _ {h : Host} (errors : List SimulatedError) where
  unfoldable pub move_unit : FatUnit → ℕ → M h FatUnit
  move_unit u dest f =
      let (clusters, u') = Cache.move h errors f.clusters u dest in
      some (u', record f { clusters = clusters })

  unfoldable pub swap_units : FatUnit → FatUnit → M h (Unit {0})
  swap_units u w f = some (tt, record f { clusters = Cache.swap h errors f.clusters u w })

  -- `fatunitwriteback` of a cached cluster.
  unfoldable pub write_cluster : FatUnit → M h Bool
  write_cluster u f =
      let (disk, u', ok) = write_back h errors f.disk u in
      some (ok, record f { disk = disk; clusters = h.put u' f.clusters })

  -- The last part of `fatclustermove`, which changes the references.
  unfoldable pub relink : Reference → (newt current : ℕ) → ℤ → M h ℤ
  relink r newt current next = do
    _ ← set_target errors (follow current newt r) (pos newt)
    _ ← set_next_cluster errors (pos newt) next
    if newt == current
        then pure (pos 0)
        else (do _ ← set_next_cluster errors (pos current) fat_unused; pure (pos 0))

  unfoldable pub cluster_move : Reference → ℕ → Bool → M h ℤ
  cluster_move r newt writeback = do
    current ← get_target errors r
    let c = pos_part current
    if ltb_ℤ current (pos 2) then pure minus_one else (do
      next ← get_next_cluster errors current
      free ← get_next_cluster errors (pos newt)
      if not (eqb_ℤ free fat_unused) then pure minus_one else (do
        read ← cluster_read errors c
        elim read [
          | none ↦ pure (negsuc 1)
          | some cluster ↦ do
            moved ← move_unit cluster newt
            if not writeback then relink r newt c next else (do
              ok ← write_cluster moved
              if ok
                  then relink r newt c next
                  else (do again ← cached_cluster newt; _ ← move_unit again c; pure (negsuc 4)))
        ]))

  -- The last part of `fatclusterswap`.
  unfoldable pub relink_both : (r s : Reference) → (a b : ℕ) → (next_a next_b : ℤ) → M h ℤ
  relink_both r s a b next_a next_b = do
    _ ← set_target errors (follow a b r) (pos b)
    _ ← set_target errors (follow a b s) (pos a)
    _ ← set_next_cluster errors (pos b) next_a
    _ ← set_next_cluster errors (pos a) next_b
    pure (pos 0)

  -- The two units are written back; after a failure they are swapped again. Their numbers are
  -- those after the swap.
  unfoldable pub write_both : (a b : ℕ) → M h ℤ
  write_both a b = do
    first ← cached_cluster b
    ok ← write_cluster first
    if not ok
        then (do u ← cached_cluster b; w ← cached_cluster a; _ ← swap_units u w; pure (negsuc 4))
        else (do
          second ← cached_cluster a
          ok' ← write_cluster second
          if ok' then pure (pos 0) else (do
            u ← cached_cluster b
            w ← cached_cluster a
            _ ← swap_units u w
            again ← cached_cluster b
            _ ← write_cluster again
            pure (negsuc 2)))

  unfoldable pub cluster_swap : Reference → Reference → Bool → M h ℤ
  cluster_swap r s writeback = do
    first ← get_target errors r
    let a = pos_part first
    if ltb_ℤ first (pos 2) then pure minus_one else (do
      next_first ← get_next_cluster errors first
      second ← get_target errors s
      let b = pos_part second
      if ltb_ℤ second (pos 2) then pure minus_one else (do
        next_second ← get_next_cluster errors second
        let next_a = if eqb_ℤ next_first second then first else next_first
        let next_b = if eqb_ℤ next_second first then second else next_second
        read_a ← cluster_read errors a
        elim read_a [
          | none ↦ pure (negsuc 1)
          | some u ↦ do
            read_b ← cluster_read errors b
            elim read_b [
              | none ↦ pure (negsuc 3)
              | some w ↦ do
                _ ← swap_units u w
                if not writeback then relink_both r s a b next_a next_b else (do
                  res ← write_both a b
                  if eqb_ℤ res (pos 0) then relink_both r s a b next_a next_b else pure res)
            ]
        ]))
