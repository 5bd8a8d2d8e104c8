-- ===== src/Units/Device.antt =====
-- A device that works, a cache whose units do not meet on it, and the transfers of lib/unit.c between
-- them.

use libllfat.Prelude.{
  ℕ, ◌+◌, ◌≡◌, ◌≢◌, refl, sym, ap, ◌∙◌, arith, Bool, true, false, not, ◌||◌, leb, if◌then◌else◌,
  some, [], length,
}
use libllfat.Prelude.Int.{ℤ}
use libllfat.Bytes.{Bytes, IsBytes}
use libllfat.Units.Block.{FatUnit}
use libllfat.Units.Host.{Host}
use libllfat.Units.Io.{simulate_error, unit_seek, unit_write, write_back, unit_read, position}

-- One of two ranges ends where the other begins or before.
unfoldable pub apart : (at size at' size' : ℕ) → Bool
apart at size at' size' = leb (at + size) at' || leb (at' + size') at

abbrev pub settle : FatUnit → FatUnit
settle u = record u { dirty = false }

pub settle-clean : (u : FatUnit) → u.dirty ≡ false → settle u ≡ u
settle-clean u e = ap (λ (b : Bool). record u { dirty = b }) (sym e)

module _ (h : Host) where
  -- A device on which every lseek(2) and write(2) succeeds: what is written is read back, and a
  -- write leaves other ranges alone.
  pub record Works : Type 1 where
    pub seeks : (d : h.Disk) (fd : ℤ) (at : ℕ) → h.lseek d fd at ≡ true
    pub writes : (d : h.Disk) (fd : ℤ) (at : ℕ) (xs : Bytes) → (h.write d fd at xs).1 ≡ true
    pub reads_back :
        (d : h.Disk) (fd : ℤ) (at : ℕ) (xs : Bytes)
        → IsBytes xs
        → h.read (h.write d fd at xs).0 fd at (length xs) ≡ some xs
    pub reads_apart :
        (d : h.Disk) (fd : ℤ) (at at' size : ℕ) (xs : Bytes)
        → apart at (length xs) at' size ≡ true
        → h.read (h.write d fd at xs).0 fd at' size ≡ h.read d fd at' size

  -- The units of one device whose ranges do not meet; those to write hold as many bytes as their
  -- size says.
  pub record IsSound (fd : ℤ) (cache : h.Tree) : Type 0 where
    pub whole :
        (i : ℕ) (u : FatUnit)
        → h.tfind i cache ≡ some u
        → u.dirty ≡ true
        → (length u.data_bytes ≡ u.size) × IsBytes u.data_bytes
    pub same_fd : (i : ℕ) (u : FatUnit) → h.tfind i cache ≡ some u → u.fd ≡ fd
    pub apart_units :
        (i j : ℕ) (u w : FatUnit)
        → h.tfind i cache ≡ some u
        → h.tfind j cache ≡ some w
        → i ≢ j
        → apart (position h u) u.size (position h w) w.size ≡ true

  module _ (works : Works) where
    pub unit_seek-Works : (d : h.Disk) (u : FatUnit) → unit_seek h [] d u ≡ (u, true)
    unfolding unit_seek simulate_error
    unit_seek-Works d u = rw (works.seeks d u.fd (position h u)) refl

    pub unit_write-Works :
        (d : h.Disk) (u : FatUnit)
        → unit_write h [] d u ≡ ((h.write d u.fd (position h u) u.data_bytes).0, settle u, true)
    unfolding unit_write simulate_error
    unit_write-Works d u =
        rw (unit_seek-Works d u, works.writes d u.fd (position h u) u.data_bytes) refl

    pub write_back-dirty :
        (d : h.Disk) (u : FatUnit)
        → u.dirty ≡ true
        → write_back h [] d u ≡ ((h.write d u.fd (position h u) u.data_bytes).0, settle u, true)
    unfolding write_back
    write_back-dirty d u e =
        ap (λ (b : Bool). if not b then (d, u, true) else unit_write h [] d u) e
        ∙ unit_write-Works d u

    pub write_back-clean :
        (d : h.Disk) (u : FatUnit) → u.dirty ≡ false → write_back h [] d u ≡ (d, u, true)
    unfolding write_back
    write_back-clean d u e =
        ap (λ (b : Bool). if not b then (d, u, true) else unit_write h [] d u) e

    pub unit_read-Works :
        (d : h.Disk) (u : FatUnit) (xs : Bytes)
        → h.read d u.fd (position h u) u.size ≡ some xs
        → unit_read h [] d u ≡ (record u { data_bytes = xs; dirty = false }, true)
    unfolding unit_read unit_seek simulate_error
    unit_read-Works d u xs e = ground (arith, works.seeks d u.fd (position h u))
