-- ===== src/Table/Flat.antt =====
-- A table as one array of bytes over its cached sectors: an access to an entry is an access there.
use native.Mathlib.Nat.{div-add-mod, mod-lt}
use libllfat.Prelude.{
  ℕ, ◌+◌, ◌*◌, ◌/◌, ◌%◌, ◌<◌, ◌≡◌, refl, ap, arith, ◌==◌, if◌then◌else◌, some, inl, inr, Bool-cases,
  ◌&&◌,
}
use libllfat.Bytes.{get8}
use libllfat.Bytes.Laws.{get8-put8, length-put8, put8-IsBytes}
use libllfat.Units.{store8}
use libllfat.Units.Host.{Host}
use libllfat.Fs.State.{Fat}
use libllfat.Table.Raw.{change_sector}
use libllfat.Table.Sectors.{sector_bytes, IsCached, Change, IsStore, change_sector_lem}

same_place : (bps p j : ℕ) → p / bps ≡ j / bps → p % bps ≡ j % bps → p ≡ j
same_place bps p j e e' =
    omega (arith, div-add-mod p bps, div-add-mod j bps, ap (λ (t : ℕ). bps * t) e)

-- Two places of an array cut into pieces of `bps` bytes.
pub place_iff :
    (base bps p j : ℕ)
    → 0 < bps
    → (base + p / bps == base + j / bps && p % bps == j % bps) ≡ (p == j)
place_iff base bps p j h = elim (Bool-cases (p == j)) [
  | inl e ↦
      let e' : p ≡ j = ground arith in
      ground (arith, ap (λ (t : ℕ). t / bps) e', ap (λ (t : ℕ). t % bps) e')
  | inr ne ↦ ground (arith, same_place bps p j)
]

store8-IsStore : (i v : ℕ) → IsStore (λ u. store8 u i v)
store8-IsStore i v = record {
  same_n = λ u. refl;
  same_loaded = λ u. refl;
  same_length = λ u. length-put8 u.data_bytes i v;
  still_bytes = λ u. put8-IsBytes u.data_bytes i v;
}

module _ {h : Host} (base bps : ℕ) where
  -- The byte `p` of the table that begins at the sector `base`.
  unfoldable pub flat : Fat h → ℕ → ℕ
  flat f p = get8 (sector_bytes f (base + p / bps)) (p % bps)

  pub store_flat :
      (f : Fat h) (p v : ℕ)
      → 0 < bps
      → IsCached bps f (base + p / bps)
      → (f' : Fat h) × (change_sector (base + p / bps) (λ u. store8 u (p % bps) v) f
          ≡ some (tt, f'))
        × Change bps f f'
        × ((j : ℕ) → flat f' j ≡ (if p == j then v % 256 else flat f j))
  unfolding flat sector_bytes
  store_flat f p v pos_bps c =
      let (f', run, change, finds) =
        change_sector_lem (λ u. store8 u (p % bps) v) (store8-IsStore _ v) c in
      (
        f',
        run,
        change,
        λ j. ground (
          arith,
          finds (base + j / bps),
          get8-put8 c.u.data_bytes (p % bps) (j % bps) v,
          mod-lt p pos_bps,
          place_iff base bps p j pos_bps,
        ),
      )
