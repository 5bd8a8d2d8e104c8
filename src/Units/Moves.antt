-- ===== src/Units/Moves.antt =====
-- What the cache holds after `fatunitmove` and `fatunitswap`.
use libllfat.Prelude.{
  ℕ, ◌≡◌, ◌≢◌, ◌∙◌, refl, arith, true, false, ◌==◌, if◌then◌else◌, none, some, List, Option-cases,
  inl, inr,
}
use libllfat.Units.Block.{FatUnit, mark_dirty}
use libllfat.Units.Host.{Host}
use libllfat.Units.Io.{SimulatedError}
use libllfat.Units.Cache

module _ (h : Host) (errors : List SimulatedError) where
  -- A detached number has no unit.
  detach_lem :
      (cache : h.Tree) (n k : ℕ)
      → h.tfind k (Cache.detach h errors cache n).0 ≡ (if n == k then none else h.tfind k cache)
  unfolding Cache.detach
  detach_lem cache n k = elim (Option-cases (h.tfind n cache)) [
    | inl e ↦ ground (arith, e)
    | inr (u, e) ↦ rw (e, Cache.detach) (h.tfind-tdelete n cache k)
  ]

  -- What enters under a free number, or replaces a unit, is found, and marked dirty.
  insert_lem :
      (cache : h.Tree) (u : FatUnit) (k : ℕ)
      → h.tfind u.n cache ≡ none
      → h.tfind k (Cache.insert h errors cache u false).0
        ≡ (if u.n == k then some (mark_dirty u) else h.tfind k cache)
  unfolding Cache.insert
  insert_lem cache u k e = rw (e, Cache.insert) (h.tfind-put (mark_dirty u) cache k)

  replace_lem :
      (cache : h.Tree) (u : FatUnit) (k : ℕ)
      → h.tfind k (Cache.insert h errors cache u true).0
        ≡ (if u.n == k then some (mark_dirty u) else h.tfind k cache)
  unfolding Cache.insert
  replace_lem cache u k = elim (Option-cases (h.tfind u.n cache)) [
    | inl e ↦ rw (e, Cache.insert) (h.tfind-put (mark_dirty u) cache k)
    | inr (w, e) ↦ rw (e, Cache.insert) (h.tfind-put (mark_dirty u) cache k)
  ]

  -- After `fatunitmove` the unit is found under its new number, marked dirty, and no unit under its old
  -- number, unless that is the new one; all others are as they were.
  pub move-tfind :
      (cache : h.Tree) (u : FatUnit) (dest k : ℕ)
      → (h.tfind k (Cache.move h errors cache u dest).0 ≡ (
          if dest == k
          then some (mark_dirty (record u { n = dest }))
          else if u.n == k
          then none
          else h.tfind k cache))
        × ((Cache.move h errors cache u dest).1 ≡ mark_dirty (record u { n = dest }))
  unfolding Cache.move
  move-tfind cache u dest k = (
    replace_lem (Cache.detach h errors cache u.n).0 (record u { n = dest }) k
        ∙ rw (detach_lem cache u.n k) refl,
    refl,
  )

  -- After `fatunitswap` of two units each is found under the number of the other, marked dirty; all
  -- others are as they were.
  pub swap-tfind :
      (cache : h.Tree) (u w : FatUnit) (k : ℕ)
      → u.n ≢ w.n
      → h.tfind k (Cache.swap h errors cache u w) ≡ (
          if w.n == k
          then some (mark_dirty (record u { n = w.n }))
          else if u.n == k
          then some (mark_dirty (record w { n = u.n }))
          else h.tfind k cache)
  unfolding Cache.swap
  swap-tfind cache u w k ne =
      let c₁ = (Cache.detach h errors cache u.n).0 in
      let bare = (Cache.detach h errors c₁ w.n).0 in
      let empty_w : h.tfind w.n bare ≡ none = ground (arith, detach_lem c₁ w.n w.n) in
      let c₂ = (Cache.insert h errors bare (record u { n = w.n }) false).0 in
      let empty_u : h.tfind u.n c₂ ≡ none = ground (
        arith,
        insert_lem bare (record u { n = w.n }) u.n empty_w,
        detach_lem c₁ w.n u.n,
        detach_lem cache u.n u.n,
      ) in
      ground (
        arith,
        insert_lem c₂ (record w { n = u.n }) k empty_u,
        insert_lem bare (record u { n = w.n }) k empty_w,
        detach_lem c₁ w.n k,
        detach_lem cache u.n k,
      )
