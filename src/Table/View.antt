-- ===== src/Table/View.antt =====
-- What the loops of lib/table.c rely on: reading the successor of a cluster, whatever `f->last` is,
-- gives one value and changes nothing. A filesystem whose table sectors are cached is such.
use libllfat.Prelude.{ℕ, ◌≤◌, ◌≡◌, refl, ap, ◌∙◌, some, List}
use libllfat.Prelude.Int.{ℤ, pos}
use libllfat.Units.Host.{Host}
use libllfat.Units.Io.{SimulatedError}
use libllfat.Fs.State.{Fat}
use libllfat.Fs.Geometry.{last_cluster, get_bytes_per_sector, get_reserved_sectors, get_num_fats}
use libllfat.Table.Sectors.{sector_bytes}
use libllfat.Table.Flat.{flat}
use libllfat.Table.Place.{Layout, Fits, base, IsReady}
use libllfat.Table.Read.{entry_of, get_fat_entry_lem}
use libllfat.Table.Next.{classify, get_next_cluster}
use libllfat.Table.Chains.{Uses, next_lem, last_lem}

abbrev pub with_last : {h : Host} → Fat h → ℤ → Fat h
with_last f x = record f { last = x }

-- `v m` is the successor of the cluster `m`, up to the last cluster.
pub record View {h : Host} (errors : List SimulatedError) (last : ℕ) (v : ℕ → ℤ) (f : Fat h)
    : Type 0 where
  pub reads :
      (x : ℤ) (m : ℕ)
      → 2 ≤ m
      → m ≤ last
      → get_next_cluster errors (pos m) (with_last f x) ≡ some (v m, with_last f x)
  pub bound : (x : ℤ) → last_cluster (with_last f x) ≡ some (pos last, with_last f x)

with_last-IsReady :
    {h : Host} (l : Layout) (f : Fat h) (x : ℤ) → IsReady l f → IsReady l (with_last f x)
unfolding get_bytes_per_sector get_reserved_sectors get_num_fats
with_last-IsReady l f x r = record {
  bits = r.bits;
  bps = r.bps;
  reserved = r.reserved;
  count = r.count;
  size = r.size;
  cached = λ k lo hi.
      let c = r.cached k lo hi in
      record { u = c.u; found = c.found; loaded = c.loaded; whole = c.whole; bytes = c.bytes };
}

with_last-Uses :
    {h : Host} (l : Layout) (nfat last : ℕ) (f : Fat h) (x : ℤ)
    → Uses l nfat last f
    → Uses l nfat last (with_last f x)
with_last-Uses l nfat last f x u = record {
  ready = with_last-IsReady l f x u.ready;
  table = u.table;
  exists = u.exists;
  last_is = u.last_is;
  small = u.small;
}

flat-with_last :
    {h : Host} (base bps : ℕ) (f : Fat h) (x : ℤ) → flat base bps (with_last f x) ≡ flat base bps f
unfolding flat sector_bytes
flat-with_last base bps f x = refl

-- The successors that a table holds.
unfoldable pub successors : {h : Host} → Layout → ℕ → ℕ → Fat h → ℕ → ℤ
successors l nfat last f m =
    classify (pos l.bits) (pos last) (pos (entry_of l.bits (flat (base l nfat) l.bps f) m))

-- Where the table sectors are cached, the loops over clusters see the successors of the table.
pub Uses-View :
    {h : Host} (errors : List SimulatedError) (l : Layout) (nfat last : ℕ) (f : Fat h)
    → Uses l nfat last f
    → ((m : ℕ) → m ≤ last → Fits l m)
    → View errors last (successors l nfat last f) f
unfolding successors
Uses-View errors l nfat last f u fits = record {
  reads = λ x m lo hi.
      let u' = with_last-Uses l nfat last f x u in
      next_lem errors l nfat last m _ u' lo hi
        (get_fat_entry_lem l u'.ready nfat u'.exists errors m (fits m hi))
      ∙ ap (λ t. some (classify (pos l.bits) (pos last) (pos (entry_of l.bits t m)), with_last f x))
          (flat-with_last (base l nfat) l.bps f x);
  bound = λ x. last_lem errors l nfat last (with_last-Uses l nfat last f x u);
}
