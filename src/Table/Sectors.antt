-- ===== src/Table/Sectors.antt =====
-- The cached sectors of a table: what is read from them, and what a store changes.
use libllfat.Prelude.{
  ℕ, ◌≡◌, refl, ap, ◌∙◌, true, ◌==◌, if◌then◌else◌, none, some, List, length, [], inl, inr,
  Bool-cases,
}
use libllfat.Bytes.{Bytes, IsBytes}
use libllfat.Units.{FatUnit}
use libllfat.Units.Host.{Host}
use libllfat.Units.Io.{SimulatedError}
use libllfat.Units.Cache
use libllfat.Fs.State.{Fat}
use libllfat.Table.Raw.{get_sector, change_sector}

-- A change of a unit that leaves its number, its data pointer and its size alone.
pub record IsStore (g : FatUnit → FatUnit) : Type 0 where
  pub same_n : (u : FatUnit) → (g u).n ≡ u.n
  pub same_loaded : (u : FatUnit) → (g u).loaded ≡ u.loaded
  pub same_length : (u : FatUnit) → length (g u).data_bytes ≡ length u.data_bytes
  pub still_bytes : (u : FatUnit) → IsBytes u.data_bytes → IsBytes (g u).data_bytes

module _ {h : Host} where
  -- The bytes of the sector `k`, if it is in the cache.
  unfoldable pub sector_bytes : Fat h → ℕ → Bytes
  sector_bytes f k = elim (h.tfind k f.sectors) [ none ↦ [] | some u ↦ u.data_bytes ]

  -- The sector `k` is in the cache with its data.
  pub record IsCached (bps : ℕ) (f : Fat h) (k : ℕ) : Type 0 where
    pub u : FatUnit
    pub found : h.tfind k f.sectors ≡ some u
    pub loaded : u.loaded ≡ true
    pub whole : length u.data_bytes ≡ bps
    pub bytes : IsBytes u.data_bytes

  pub IsCached-bytes :
      {bps k : ℕ} {f : Fat h} (c : IsCached bps f k) → sector_bytes f k ≡ c.u.data_bytes
  unfolding sector_bytes
  IsCached-bytes c = rw (c.found, sector_bytes) refl

  -- A cached sector is got with no access to the device.
  pub get_sector-IsCached :
      (errors : List SimulatedError) {bps k : ℕ} {f : Fat h} (c : IsCached bps f k)
      → get_sector errors k f ≡ some (some c.u, f)
  unfolding get_sector Cache.get
  get_sector-IsCached errors c = rw (c.found, Cache.get, c.loaded) refl

  -- `f'` is `f` but for the contents of cached sectors.
  pub record Change (bps : ℕ) (f f' : Fat h) : Type 0 where
    pub rest : f' ≡ record f { sectors = f'.sectors }
    pub keeps : (k : ℕ) → IsCached bps f k → IsCached bps f' k

  pub Change-trans :
      {bps : ℕ} {f f' f'' : Fat h} → Change bps f f' → Change bps f' f'' → Change bps f f''
  Change-trans {f} {f''} a b = record {
    rest = b.rest ∙ ap (λ (g : Fat h). record g { sectors = f''.sectors }) a.rest;
    keeps = λ k c. b.keeps k (a.keeps k c);
  }

  pub change_sector_lem :
      {bps k : ℕ} {f : Fat h} (g : FatUnit → FatUnit)
      → IsStore g
      → (c : IsCached bps f k)
      → (f' : Fat h) × (change_sector k g f ≡ some (tt, f'))
        × Change bps f f'
        × ((j : ℕ) → h.tfind j f'.sectors ≡ (if k == j then some (g c.u) else h.tfind j f.sectors))
  unfolding change_sector
  change_sector_lem {bps} {k} {f} g s c =
      (f', rw (c.found, change_sector) refl, record { rest = refl; keeps = keep }, finds)
    where
      f' : Fat h
      f' = record f { sectors = h.put (g c.u) f.sectors }

      finds :
          (j : ℕ) → h.tfind j f'.sectors ≡ (if k == j then some (g c.u) else h.tfind j f.sectors)
      finds j = rw (h.tfind-put, s.same_n, h.tfind-n k f.sectors c.u c.found) refl

      keep : (j : ℕ) → IsCached bps f j → IsCached bps f' j
      keep j d = elim (Bool-cases (k == j)) [
        | inl e ↦ record {
          u = g c.u;
          found = rw (finds, e) refl;
          loaded = s.same_loaded c.u ∙ c.loaded;
          whole = s.same_length c.u ∙ c.whole;
          bytes = s.still_bytes c.u c.bytes;
        }
        | inr ne ↦ record {
          u = d.u;
          found = rw (finds, ne) d.found;
          loaded = d.loaded;
          whole = d.whole;
          bytes = d.bytes;
        }
      ]
