-- ===== src/Units/Cache.antt =====
-- lib/unit.c: the cache of units.
use mathlib.Core.List.{foldl}
use libllfat.Prelude.{
  ℕ, Bool, true, false, not, ◌&&◌, ◌||◌, ltb, if◌then◌else◌, Option, none, some, List, [],
}
use libllfat.Prelude.Int.{ℤ, pos, minus_one}
use libllfat.Units.Block.{FatUnit, mark_dirty}
use libllfat.Units.Host.{Host}
use libllfat.Units.Io.{SimulatedError, create, unit_read, write_back}

module _ (h : Host) (errors : List SimulatedError) where
  -- A cached unit with its data is returned as it is. A new unit enters the cache only after a
  -- successful read. A deallocated unit is in the cache, and gets a new block before it is read: if
  -- that fails, the unit stays with whatever the block holds.
  unfoldable pub get : h.Disk → h.Tree → (origin size n : ℕ) → ℤ → Option FatUnit × h.Tree
  get disk cache origin size n fd = elim (h.tfind n cache) [
    | none ↦
        let (u, ok) =
          unit_read h errors disk (record (create h size) { origin = origin; n = n; fd = fd }) in
        if ok then (some u, h.put u cache) else (none, cache)
    | some old ↦
        if old.loaded
        then (some old, cache)
        else let (u, ok) = unit_read h errors disk (record old {
          size = size;
          data_bytes = h.garbage size;
          loaded = true;
          origin = origin;
          n = n;
          fd = fd;
        }) in
          ((if ok then some u else none), h.put u cache)
  ]

  -- `u` is not yet in the cache: the pointer found differs from it.
  unfoldable pub insert : h.Tree → FatUnit → Bool → h.Tree × ℤ
  insert cache u replace = elim (h.tfind u.n cache) [
    | none ↦ (h.put (mark_dirty u) cache, pos 0)
    | some old ↦
        if not replace && old.loaded
        then (cache, minus_one)
        else (h.put (mark_dirty u) cache, pos 0)
  ]

  unfoldable pub detach : h.Tree → ℕ → h.Tree × ℤ
  detach cache n = elim (h.tfind n cache) [
    | none ↦ (cache, minus_one)
    | some u ↦ (h.tdelete n cache, pos 0)
  ]

  unfoldable pub delete : h.Tree → ℕ → h.Tree × ℤ
  delete cache n = elim (h.tfind n cache) [
    | none ↦ (cache, minus_one)
    | some u ↦ if ltb 0 u.refer || u.dirty then (cache, minus_one) else (h.tdelete n cache, pos 0)
  ]

  -- The unit, wherever it is, leaves the cache under its number and enters it under another.
  unfoldable pub move : h.Tree → FatUnit → ℕ → h.Tree × FatUnit
  move cache u dest =
      let moved = record u { n = dest } in
      ((insert (detach cache u.n).0 moved true).0, mark_dirty moved)

  unfoldable pub swap : h.Tree → FatUnit → FatUnit → h.Tree
  swap cache u w =
      let bare = (detach (detach cache u.n).0 w.n).0 in
      (insert (insert bare (record u { n = w.n }) false).0 (record w { n = u.n }) false).0

  -- The deallocation of one unit's data, and of all.
  unfoldable pub free_data : FatUnit → FatUnit
  free_data u = if u.dirty || ltb 0 u.refer then u else record u { loaded = false; data_bytes = [] }

  unfoldable pub free_one : h.Tree → ℕ → h.Tree
  free_one cache n = elim (h.tfind n cache) [ none ↦ cache | some u ↦ h.put (free_data u) cache ]

  unfoldable pub free_cache : h.Tree → h.Tree
  free_cache cache = foldl free_one cache (h.walk cache)

  unfoldable pub flush_one : h.Disk × h.Tree → ℕ → h.Disk × h.Tree
  flush_one (disk, cache) n = elim (h.tfind n cache) [
    | none ↦ (disk, cache)
    | some u ↦ let (disk', u', ok) = write_back h errors disk u in (disk', h.put u' cache)
  ]

  unfoldable pub flush : h.Disk → h.Tree → h.Disk × h.Tree
  flush disk cache = foldl flush_one (disk, cache) (h.walk cache)
