-- ===== src/Table/Frame.antt =====
-- What the table says depends neither on the cache of clusters nor on the device.
use libllfat.Prelude.{ℕ, ◌≡◌, ◌≤◌, refl, ap, sym, ◌∙◌, some, List}
use mathlib.Core.Option.{some-injective}
use libllfat.Prelude.Int.{ℤ}
use libllfat.Units.Host.{Host}
use libllfat.Units.Io.{SimulatedError}
use libllfat.Fs.State.{Fat}
use libllfat.Fs.Geometry.{get_bytes_per_sector, get_reserved_sectors, get_num_fats}
use libllfat.Table.Sectors.{sector_bytes}
use libllfat.Table.Flat.{flat}
use libllfat.Table.Place.{Layout, IsReady}
use libllfat.Table.Chains.{Uses}
use libllfat.Table.View.{Uses-View, successors}
use libllfat.Table.Succ.{Represents}

abbrev pub with_clusters : {h : Host} → Fat h → h.Tree → h.Disk → Fat h
with_clusters f t d = record f { clusters = t; disk = d }

module _ {h : Host} (l : Layout) (nfat last : ℕ) (f : Fat h) (t : h.Tree) (d : h.Disk) where
  IsReady-frame : IsReady l f → IsReady l (with_clusters f t d)
  unfolding get_bytes_per_sector get_reserved_sectors get_num_fats
  IsReady-frame r = record {
    bits = r.bits;
    bps = r.bps;
    reserved = r.reserved;
    count = r.count;
    size = r.size;
    cached = λ k lo hi.
        let c = r.cached k lo hi in
        record { u = c.u; found = c.found; loaded = c.loaded; whole = c.whole; bytes = c.bytes };
  }

  Uses-frame : Uses l nfat last f → Uses l nfat last (with_clusters f t d)
  Uses-frame u = record {
    ready = IsReady-frame u.ready;
    table = u.table;
    exists = u.exists;
    last_is = u.last_is;
    small = u.small;
  }

  successors_frame :
      (m : ℕ) → successors l nfat last (with_clusters f t d) m ≡ successors l nfat last f m
  unfolding successors flat sector_bytes
  successors_frame m = refl

module _ {h : Host} (errors : List SimulatedError) (l : Layout) (nfat last : ℕ) (v : ℕ → ℤ)
    (f : Fat h) (r : Represents errors l nfat last v f) where
  -- The successors are those in the bytes of the table.
  is_successor : (m : ℕ) → 2 ≤ m → m ≤ last → v m ≡ successors l nfat last f m
  is_successor m lo hi =
      let view = Uses-View errors l nfat last f r.uses r.fits in
      ap (λ p. p.0) (some-injective _ _ (sym (r.reads m lo hi) ∙ view.reads f.last m lo hi))

  pub Represents-frame :
      (t : h.Tree) (d : h.Disk) → Represents errors l nfat last v (with_clusters f t d)
  Represents-frame t d =
      let f' = with_clusters f t d in
      let uses = Uses-frame l nfat last f t d r.uses in
      let view = Uses-View errors l nfat last f' uses r.fits in
      record {
        uses = uses;
        fits = r.fits;
        reads = λ m lo hi.
            view.reads f.last m lo hi
            ∙ ap (λ w. some (w, f'))
                (successors_frame l nfat last f t d m ∙ sym (is_successor m lo hi));
      }

  pub Represents-ext :
      (w : ℕ → ℤ) → ((m : ℕ) → 2 ≤ m → m ≤ last → v m ≡ w m) → Represents errors l nfat last w f
  Represents-ext w same = record {
    uses = r.uses;
    fits = r.fits;
    reads = λ m lo hi. r.reads m lo hi ∙ ap (λ x. some (x, f)) (same m lo hi);
  }
