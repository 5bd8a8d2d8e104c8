-- ===== src/Table/Place.antt =====
-- `_fatclusterpos` and `_fatclusterposnext` on a table whose sectors are cached: they find the bytes
-- of an entry, and change nothing.
use native.Mathlib.Nat.{div-add-mod, mod-lt}
use libllfat.Prelude.{
  ℕ, ◌+◌, ◌-◌, ◌*◌, ◌/◌, ◌%◌, ◌<◌, ◌≤◌, ◌≡◌, refl, sym, ap, ◌∙◌, arith, ◌==◌, false, if◌then◌else◌,
  some, List, inl, inr, Bool-cases,
}
use libllfat.Prelude.Division.{div-lt_of, mul_gap, step_inside, next_outside}
use libllfat.Prelude.Int.{pos}
use libllfat.Units.Host.{Host}
use libllfat.Units.Io.{SimulatedError}
use libllfat.Boot.Size
use libllfat.Boot.MinSize.{IsWidth}
use libllfat.Fs.State.{Fat, ◌>>=◌}
use libllfat.Fs.Geometry.{
  fat_bits, with_bits, get_bytes_per_sector, get_reserved_sectors, get_num_fats, get_fatsize,
}
use libllfat.Table.Raw.{entry_offset, no_offset, cluster_pos, cluster_pos_next}
use libllfat.Table.Sectors.{IsCached, get_sector-IsCached, Change}

-- The layout of the tables, of at most 2^30 bytes each: those of 2^28 entries of 32 bits.
pub record Layout : Type 0 where
  pub bits : ℕ
  pub bps : ℕ
  pub reserved : ℕ
  pub size : ℕ
  pub count : ℕ
  pub width : IsWidth bits
  pub pos_bps : 0 < bps
  pub aligned : bps % 4 ≡ 0
  pub limited : size * bps ≤ 0x4000_0000

-- The first sector of a table, and the place of an entry in it.
abbrev pub base : Layout → ℕ → ℕ
base l nfat = l.reserved + nfat * l.size

abbrev pub place_of : Layout → ℕ → ℕ
place_of l n = entry_offset l.bits n

-- The last byte of the entry of cluster `n` lies in the table.
abbrev pub Fits : Layout → ℕ → Type 0
Fits l n = place_of l n + (if l.bits == 32 then 4 else 2) ≤ l.size * l.bps

pub Fits-bytes :
    (l : Layout) (n : ℕ)
    → Fits l n
    → (place_of l n < l.size * l.bps) × (place_of l n + 1 < l.size * l.bps)
Fits-bytes l n fits = ground arith

offset_lem : (l : Layout) (n : ℕ) → place_of l n < l.size * l.bps → n * (l.bits / 4) < 0x8000_0000
offset_lem l n inside = omega (arith, l.limited)

module _ {h : Host} (l : Layout) where
  -- The filesystem has this layout, its bits are known, and all sectors of its tables are cached.
  pub record IsReady (f : Fat h) : Type 0 where
    pub bits : f.bits ≡ pos l.bits
    pub bps : get_bytes_per_sector f ≡ l.bps
    pub reserved : get_reserved_sectors f ≡ l.reserved
    pub count : get_num_fats f ≡ pos l.count
    pub size :
        Size.get_fatsize (some f.boot) (some (pos l.bits)) ≡ some (pos l.size, some (pos l.bits))
    pub cached : (k : ℕ) → l.reserved ≤ k → k < l.reserved + l.count * l.size → IsCached l.bps f k

  pub Change-IsReady : {f f' : Fat h} → Change l.bps f f' → IsReady f → IsReady f'
  unfolding get_bytes_per_sector get_reserved_sectors get_num_fats
  Change-IsReady {f} {f'} change r =
      let boot : f'.boot ≡ f.boot = ap (λ (g : Fat h). g.boot) change.rest in
      record {
        bits = ap (λ (g : Fat h). g.bits) change.rest ∙ r.bits;
        bps = rw boot r.bps;
        reserved = rw boot r.reserved;
        count = rw boot r.count;
        size = rw boot r.size;
        cached = λ k lo hi. change.keeps k (r.cached k lo hi);
      }

  pub known_lem : {f : Fat h} → IsReady f → fat_bits f ≡ some (pos l.bits, f)
  unfolding fat_bits
  known_lem {f} r = ground (arith, r.bits, l.width)

  pub fatsize_lem : {f : Fat h} → IsReady f → get_fatsize f ≡ some (pos l.size, f)
  unfolding get_fatsize with_bits
  fatsize_lem {f} r = ground (arith, r.bits, r.size)

  -- A sector of the table `nfat`.
  pub table-IsCached :
      {f : Fat h} (r : IsReady f) (nfat p : ℕ)
      → nfat < l.count
      → p < l.size * l.bps
      → IsCached l.bps f (base l nfat + p / l.bps)
  table-IsCached r nfat p lt below =
      r.cached _ (omega arith)
        (omega (arith, div-lt_of p l.size l.bps l.pos_bps below, mul_gap nfat l.count l.size lt))

  module _ (errors : List SimulatedError) {f : Fat h} (r : IsReady f) (nfat : ℕ) where
    pub cluster_pos_lem :
        (n : ℕ) (c : IsCached l.bps f (base l nfat + place_of l n / l.bps))
        → place_of l n < l.size * l.bps
        → cluster_pos errors nfat n f ≡ some ((some c.u, place_of l n % l.bps), f)
    unfolding cluster_pos
    cluster_pos_lem n c inside =
        let has_offset : no_offset l.bits n l.bps ≡ false =
          ground (arith, offset_lem l n inside, l.pos_bps) in
        let p = place_of l n in
        let remainder : p - p / l.bps * l.bps ≡ p % l.bps = omega (arith, div-add-mod p l.bps) in
        rw
          (
            fatsize_lem r,
            ◌>>=◌,
            known_lem r,
            ◌>>=◌,
            r.bps,
            has_offset,
            r.reserved,
            if◌then◌else◌,
            ◌>>=◌,
            get_sector-IsCached errors c,
            r.bps,
            remainder,
          )
          refl

    -- The next byte is in the same sector or in the one behind it.
    pub cluster_pos_next_lem :
        (p : ℕ) (c : IsCached l.bps f (base l nfat + p / l.bps))
        (c' : IsCached l.bps f (base l nfat + (p + 1) / l.bps))
        → cluster_pos_next errors c.u (p % l.bps) f ≡ some ((some c'.u, (p + 1) % l.bps), f)
    unfolding cluster_pos_next
    cluster_pos_next_lem p c c' = elim (Bool-cases (p % l.bps == l.bps - 1)) [
      | inl last ↦
          let (quotient, remainder) = next_outside p l.bps l.pos_bps (ground arith) in
          let number : c.u.n + 1 ≡ base l nfat + (p + 1) / l.bps =
            omega (arith, h.tfind-n _ f.sectors c.u c.found, quotient) in
          rw (r.bps, last, number, get_sector-IsCached errors c', ◌>>=◌, remainder) refl
      | inr ne ↦
          let (quotient, remainder) = step_inside p 1 l.bps (ground (arith, mod-lt p l.pos_bps)) in
          let same : some c.u ≡ some c'.u =
            sym c.found
            ∙ ap (λ (k : ℕ). h.tfind (base l nfat + k) f.sectors) (sym quotient)
            ∙ c'.found in
          rw (r.bps, ne, same, remainder) refl
    ]
