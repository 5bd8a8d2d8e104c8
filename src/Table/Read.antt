-- ===== src/Table/Read.antt =====
-- `fatgetfat` on a table whose sectors are cached: the entry is read from the bytes of the table, and
-- nothing changes.
use native.Mathlib.Nat.{div-add-mod, mod-lt, add_assoc}
use libllfat.Prelude.{
  ℕ, ◌+◌, ◌*◌, ◌/◌, ◌%◌, ◌<◌, ◌≡◌, ◌⊎◌, refl, sym, ap, arith, ◌==◌, if◌then◌else◌, some, List, inl,
  inr,
}
use libllfat.Prelude.Division.{step_inside}
use libllfat.Prelude.Int.{ℤ, pos}
use libllfat.Bytes.{get8, get16, get32}
use libllfat.Units.Host.{Host}
use libllfat.Units.Io.{SimulatedError}
use libllfat.Boot.MinSize.{IsWidth}
use libllfat.Fs.State.{Fat, M, ◌>>=◌}
use libllfat.Table.Raw.{entry_offset, guarded, read_entry, get_fat_entry, extract12}
use libllfat.Table.Sectors.{IsCached, IsCached-bytes}
use libllfat.Table.Flat.{flat}
use libllfat.Table.Place.{
  Layout, base, place_of, Fits, Fits-bytes, IsReady, table-IsCached, known_lem, cluster_pos_lem,
  cluster_pos_next_lem,
}

-- The place in a sector keeps the remainder by four.
pub mod-four : (p bps : ℕ) → bps % 4 ≡ 0 → p % bps % 4 ≡ p % 4
mod-four p bps e =
    let four : bps ≡ 4 * (bps / 4) = omega arith in
    omega (arith, div-add-mod p bps, ap (λ (t : ℕ). t * (p / bps)) four)

-- The entry of cluster `n` at the place `p` of a table that is given as an array of bytes.
unfoldable pub entry_at : ℕ → (ℕ → ℕ) → ℕ → ℕ → ℕ
entry_at bits table p n =
    if bits == 12
    then extract12 n (table p) (table (p + 1))
    else if bits == 16
    then table p + 256 * table (p + 1)
    else (table p + 256 * table (p + 1) + 65536 * (table (p + 2) + 256 * table (p + 3)))
      % 0x1000_0000

unfoldable pub entry_of : ℕ → (ℕ → ℕ) → ℕ → ℕ
entry_of bits table n = entry_at bits table (entry_offset bits n) n

-- The alignment of entries.
pub offset-aligned :
    (b n : ℕ)
    → IsWidth b
    → (b ≡ 12) ⊎ (b ≡ 16) × (entry_offset b n % 4 + 1 < 4) ⊎ (b ≡ 32) × (entry_offset b n % 4 ≡ 0)
offset-aligned b n (inl e) = inl e
offset-aligned b n (inr (inl e)) = inr (inl (e, rw e (omega arith)))
offset-aligned b n (inr (inr e)) = inr (inr (e, rw e (omega arith)))

module _ {h : Host} (l : Layout) {f : Fat h} (r : IsReady l f) (nfat : ℕ)
    (lt : nfat < l.count) where
  -- The guards let a known layout and an existing table pass.
  pub guarded_lem :
      {A : Type 0} (failed : A) (k : ℤ → M h A) → guarded (pos nfat) failed k f ≡ k (pos l.bits) f
  guarded_lem failed k = rw (known_lem l r, ◌>>=◌, r.count) (ground (arith, l.width))

  abbrev bytes_at : ℕ → ℕ
  bytes_at = flat (base l nfat) l.bps f

  pub flat-IsCached :
      (p : ℕ) (c : IsCached l.bps f (base l nfat + p / l.bps))
      → get8 c.u.data_bytes (p % l.bps) ≡ bytes_at p
  unfolding flat
  flat-IsCached p c = ap (λ d. get8 d (p % l.bps)) (sym (IsCached-bytes c))

  -- Bytes that stand in one aligned group of four are in one sector.
  step_byte :
      (p i : ℕ) (c : IsCached l.bps f (base l nfat + p / l.bps))
      → p % 4 + i < 4
      → get8 c.u.data_bytes (p % l.bps + i) ≡ bytes_at (p + i)
  unfolding flat
  step_byte p i c group =
      let below : p % l.bps + i < l.bps =
        omega (arith, mod-four p l.bps l.aligned, l.aligned, mod-lt p l.pos_bps) in
      let (e, e') = step_inside p i l.bps below in
      rw (e, e') (ap (λ d. get8 d (p % l.bps + i)) (sym (IsCached-bytes c)))

  read16 :
      (p : ℕ) (c : IsCached l.bps f (base l nfat + p / l.bps))
      → p % 4 + 1 < 4
      → get16 c.u.data_bytes (p % l.bps) ≡ bytes_at p + 256 * bytes_at (p + 1)
  unfolding get16
  read16 p c group = omega (arith, flat-IsCached p c, step_byte p 1 c group)

  read32 :
      (p : ℕ) (c : IsCached l.bps f (base l nfat + p / l.bps))
      → p % 4 ≡ 0
      → get32 c.u.data_bytes (p % l.bps)
        ≡ bytes_at p + 256 * bytes_at (p + 1) + 65536 * (bytes_at (p + 2) + 256 * bytes_at (p + 3))
  unfolding get32 get16
  read32 p c e = omega (
    arith,
    flat-IsCached p c,
    step_byte p 1 c (omega arith),
    step_byte p 2 c (omega arith),
    step_byte p 3 c (omega arith),
    ap (get8 c.u.data_bytes) (add_assoc (p % l.bps) 2 1),
  )

  read_entry_lem :
      (errors : List SimulatedError) (b n p : ℕ) (c : IsCached l.bps f (base l nfat + p / l.bps))
      (c' : IsCached l.bps f (base l nfat + (p + 1) / l.bps))
      → (b ≡ 12) ⊎ (b ≡ 16) × (p % 4 + 1 < 4) ⊎ (b ≡ 32) × (p % 4 ≡ 0)
      → read_entry errors (pos b) n c.u (p % l.bps) f ≡ some (pos (entry_at b bytes_at p n), f)
  unfolding read_entry entry_at
  read_entry_lem errors b n p c c' (inl e) =
      rw
        (
          e,
          cluster_pos_next_lem l errors r nfat p c c',
          ◌>>=◌,
          flat-IsCached p c,
          flat-IsCached (p + 1) c',
        )
        refl
  read_entry_lem errors b n p c c' (inr (inl (e, group))) = rw (e, read16 p c group) refl
  read_entry_lem errors b n p c c' (inr (inr (e, group))) = rw (e, read32 p c group) refl

  -- `fatgetfat` returns the entry that the bytes of the table hold, and changes nothing.
  pub get_fat_entry_lem :
      (errors : List SimulatedError) (n : ℕ)
      → Fits l n
      → get_fat_entry errors (pos nfat) n f ≡ some (pos (entry_of l.bits bytes_at n), f)
  unfolding get_fat_entry entry_of
  get_fat_entry_lem errors n fits =
      let p = place_of l n in
      let c = table-IsCached l r nfat p lt (Fits-bytes l n fits).0 in
      let c' = table-IsCached l r nfat (p + 1) lt (Fits-bytes l n fits).1 in
      rw (guarded_lem, cluster_pos_lem l errors r nfat n c (Fits-bytes l n fits).0, ◌>>=◌)
        (read_entry_lem errors l.bits n p c c' (offset-aligned l.bits n l.width))
