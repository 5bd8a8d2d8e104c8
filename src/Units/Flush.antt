-- ===== src/Units/Flush.antt =====
-- One step of the loop of `fatunitflush`.

use libllfat.Prelude.{
  ℕ, ◌≡◌, ◌≢◌, ◌⊎◌, sym, ◌∙◌, arith, true, false, ◌==◌, if◌then◌else◌, Option, none, some, [],
  Bool-cases, Option-cases, inl, inr,
}
use libllfat.Prelude.Int.{ℤ}
use libllfat.Bytes.{Bytes}
use libllfat.Units.Block.{FatUnit}
use libllfat.Units.Host.{Host}
use libllfat.Units.Io.{position}
use libllfat.Units.Cache
use libllfat.Units.Device.{
  Works, IsSound, settle, apart, write_back-dirty, write_back-clean, settle-clean,
}

abbrev settle_found : Option FatUnit → Option FatUnit
settle_found none = none
settle_found (some u) = some (settle u)

module _ (h : Host) where
  module _ (works : Works h) where
    -- One step of the loop: the unit of that number is written if it is dirty, and is clean then.
    pub step-tfind :
        (d : h.Disk) (cache : h.Tree) (k j : ℕ)
        → h.tfind j (Cache.flush_one h [] (d, cache) k).1
          ≡ (if k == j then settle_found (h.tfind j cache) else h.tfind j cache)
    unfolding Cache.flush_one
    step-tfind d cache k j = elim (Option-cases (h.tfind k cache)) [
      | inl e ↦ ground (arith, e)
      | inr (u, e) ↦ elim (Bool-cases u.dirty) [
        | inl dirty ↦
            let run = write_back-dirty h works d u dirty in
            let n = h.tfind-n k cache u e in
            let put = h.tfind-put (settle u) cache j in ground (arith, e, run, n, put)
        | inr clean ↦
            let run = write_back-clean h works d u clean in
            let n = h.tfind-n k cache u e in
            let put = h.tfind-put u cache j in
            let same = settle-clean u clean in ground (arith, e, run, n, put, same)
      ]
    ]

    abbrev pub read_unit : h.Disk → FatUnit → Option Bytes
    read_unit d u = h.read d u.fd (position h u) u.size

    -- The unit that a step leaves under a number, and what was there.
    pub step-found :
        (d : h.Disk) (cache : h.Tree) (k j : ℕ) (w' : FatUnit)
        → h.tfind j (Cache.flush_one h [] (d, cache) k).1 ≡ some w'
        → (w : FatUnit) × (h.tfind j cache ≡ some w) × ((w' ≡ w) ⊎ (w' ≡ settle w))
    step-found d cache k j w' e = elim (Option-cases (h.tfind j cache)) [
      | inl none_there ↦ absurd (ground (arith, step-tfind d cache k j))
      | inr (w, there) ↦ (
        w,
        there,
        elim (Bool-cases (k == j)) [
          | inl same ↦ inr (ground (arith, step-tfind d cache k j))
          | inr other ↦ inl (ground (arith, step-tfind d cache k j))
        ],
      )
    ]

    pub step-IsSound :
        (fd : ℤ) (d : h.Disk) (cache : h.Tree) (k : ℕ)
        → IsSound h fd cache
        → IsSound h fd (Cache.flush_one h [] (d, cache) k).1
    step-IsSound fd d cache k s = record {
      whole = λ i u e dirty.
          let (w, there, same) = step-found d cache k i u e in
          elim same [
            | inl p ↦ rw p (s.whole i w there (ground arith))
            | inr p ↦ absurd (ground arith)
          ];
      same_fd = λ i u e.
          let (w, there, same) = step-found d cache k i u e in
          elim same [ inl p ↦ rw p (s.same_fd i w there) | inr p ↦ rw p (s.same_fd i w there) ];
      apart_units = λ i j u w e e' ne.
          let (a, there, same) = step-found d cache k i u e in
          let (b, there', same') = step-found d cache k j w e' in
          let fact = s.apart_units i j a b there there' ne in
          elim same [
            | inl p ↦ elim same' [ inl q ↦ rw (p, q) fact | inr q ↦ rw (p, q) fact ]
            | inr p ↦ elim same' [ inl q ↦ rw (p, q) fact | inr q ↦ rw (p, q) fact ]
          ];
    }

    -- A step that does not write a unit leaves its range on the device alone.
    pub step-read :
        (fd : ℤ) (d : h.Disk) (cache : h.Tree) (k j : ℕ) (w : FatUnit)
        → IsSound h fd cache
        → h.tfind j cache ≡ some w
        → (k ≢ j) ⊎ (w.dirty ≡ false)
        → read_unit (Cache.flush_one h [] (d, cache) k).0 w ≡ read_unit d w
    unfolding Cache.flush_one
    step-read fd d cache k j w s there calm = elim (Option-cases (h.tfind k cache)) [
      | inl e ↦ ground (arith, e)
      | inr (u, e) ↦ elim (Bool-cases u.dirty) [
        | inr clean ↦ ground (arith, e, write_back-clean h works d u clean)
        | inl dirty ↦
            let run = write_back-dirty h works d u dirty in
            let ne : k ≢ j = elim calm [ inl ne ↦ ne | inr c ↦ λ same. ground arith ] in
            let far = s.apart_units k j u w e there ne in
            let long = (s.whole k u e dirty).0 in
            let fds = s.same_fd k u e ∙ sym (s.same_fd j w there) in
            let kept = works.reads_apart d u.fd (position h u) (position h w) w.size u.data_bytes in
            ground (arith, e, run, far, long, fds, kept)
      ]
    ]

    pub step-written :
        (fd : ℤ) (d : h.Disk) (cache : h.Tree) (k : ℕ) (w : FatUnit)
        → IsSound h fd cache
        → h.tfind k cache ≡ some w
        → w.dirty ≡ true
        → read_unit (Cache.flush_one h [] (d, cache) k).0 w ≡ some w.data_bytes
    unfolding Cache.flush_one
    step-written fd d cache k w s there dirty =
        let run = write_back-dirty h works d w dirty in
        let (long, bytes) = s.whole k w there dirty in
        let back = works.reads_back d w.fd (position h w) w.data_bytes bytes in
        ground (arith, there, run, long, back)

    -- A step leaves alone a range that none of the units meets.
    pub step-elsewhere :
        (fd : ℤ) (d : h.Disk) (cache : h.Tree) (k at size : ℕ)
        → IsSound h fd cache
        → ((i : ℕ) (u : FatUnit)
            → h.tfind i cache ≡ some u
            → apart (position h u) u.size at size ≡ true)
        → h.read (Cache.flush_one h [] (d, cache) k).0 fd at size ≡ h.read d fd at size
    unfolding Cache.flush_one
    step-elsewhere fd d cache k at size s far = elim (Option-cases (h.tfind k cache)) [
      | inl e ↦ ground (arith, e)
      | inr (u, e) ↦ elim (Bool-cases u.dirty) [
        | inr clean ↦ ground (arith, e, write_back-clean h works d u clean)
        | inl dirty ↦
            let run = write_back-dirty h works d u dirty in
            let long = (s.whole k u e dirty).0 in
            let fds = s.same_fd k u e in
            let off = far k u e in
            let kept = works.reads_apart d u.fd (position h u) at size u.data_bytes in
            ground (arith, e, run, long, fds, off, kept)
      ]
    ]
