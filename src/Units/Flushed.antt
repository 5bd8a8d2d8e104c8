-- ===== src/Units/Flushed.antt =====
-- What `fatunitflush` leaves on a device that works, and in the cache.
use mathlib.Core.List.{foldl, Mem, Mem-prop, not-mem-nil, eq-or-mem_of_mem-cons}
use mathlib.Core.Logic.Or
use libllfat.Prelude.{
  ℕ, ◌+◌, ◌*◌, ◌%◌, ◌≡◌, ◌≢◌, refl, sym, ap, ◌∙◌, arith, true, false, ◌==◌, if◌then◌else◌, none,
  some, List, [], ◌∷◌, Bool-cases, inl, inr,
}
use libllfat.Prelude.Int.{ℤ}
use libllfat.Bytes.{Bytes}
use libllfat.Units.Block.{FatUnit}
use libllfat.Units.Host.{Host}
use libllfat.Units.Io.{create, position}
use libllfat.Units.Cache
use libllfat.Units.Device.{Works, IsSound, settle, apart, unit_read-Works, settle-clean}
use libllfat.Units.Flush.{
  step-elsewhere, step-found, step-tfind, step-IsSound, step-read, step-written, read_unit,
}

mem_rest : (i k : ℕ) (ks : List ℕ) → k ≢ i → Mem i (k ∷ ks) → Mem i ks
mem_rest i k ks ne m =
    Or.elim Mem-prop (eq-or-mem_of_mem-cons m) (λ e. absurd (ne (sym e))) (λ rest. rest)

module _ (h : Host) where
  -- A unit that is read.
  abbrev pub read_into : (origin size n : ℕ) → ℤ → Bytes → FatUnit
  read_into origin size n fd xs = record {
    fd = fd;
    n = n;
    size = size;
    origin = origin;
    loaded = true;
    data_bytes = xs;
    error = 0;
    dirty = false;
    refer = 0;
  }

  module _ (works : Works h) where
    abbrev after : List ℕ → h.Disk → h.Tree → h.Disk × h.Tree
    after ks d cache = foldl (Cache.flush_one h []) (d, cache) ks

    -- The rest of the loop leaves alone a unit that is clean, and adds none.
    after-clean :
        (fd : ℤ) (ks : List ℕ) (d : h.Disk) (cache : h.Tree) (j : ℕ) (w : FatUnit)
        → IsSound h fd cache
        → h.tfind j cache ≡ some w
        → w.dirty ≡ false
        → (h.tfind j (after ks d cache).1 ≡ some w)
          × (read_unit h works (after ks d cache).0 w ≡ read_unit h works d w)
    after-clean fd [] d cache j w s there clean = (there, refl)
    after-clean fd (k ∷ ks) d cache j w s there clean =
        let next = Cache.flush_one h [] (d, cache) k in
        let stays : h.tfind j next.1 ≡ some w =
          ground (arith, step-tfind h works d cache k j, settle-clean w clean) in
        let (found, same) =
          after-clean fd ks next.0 next.1 j w (step-IsSound h works fd d cache k s) stays clean in
        (found, same ∙ step-read h works fd d cache k j w s there (inr clean))

    after-none :
        (ks : List ℕ) (d : h.Disk) (cache : h.Tree) (j : ℕ)
        → h.tfind j cache ≡ none
        → h.tfind j (after ks d cache).1 ≡ none
    after-none [] d cache j e = e
    after-none (k ∷ ks) d cache j e =
        let next = Cache.flush_one h [] (d, cache) k in
        after-none ks next.0 next.1 j (ground (arith, step-tfind h works d cache k j))

    after-dirty :
        (fd : ℤ) (ks : List ℕ) (d : h.Disk) (cache : h.Tree) (j : ℕ) (w : FatUnit)
        → IsSound h fd cache
        → h.tfind j cache ≡ some w
        → w.dirty ≡ true
        → Mem j ks
        → (h.tfind j (after ks d cache).1 ≡ some (settle w))
          × (read_unit h works (after ks d cache).0 w ≡ some w.data_bytes)
    after-dirty fd [] d cache j w s there dirty m = absurd (not-mem-nil m)
    after-dirty fd (k ∷ ks) d cache j w s there dirty m =
        let next = Cache.flush_one h [] (d, cache) k in
        let s' = step-IsSound h works fd d cache k s in
        elim (Bool-cases (k == j)) [
          | inl same ↦
              let at : k ≡ j = ground arith in
              let cleaned : h.tfind j next.1 ≡ some (settle w) =
                ground (arith, step-tfind h works d cache k j) in
              let (found, kept) = after-clean fd ks next.0 next.1 j (settle w) s' cleaned refl in
              let there' : h.tfind k cache ≡ some w = rw at there in
              (found, kept ∙ step-written h works fd d cache k w s there' dirty)
          | inr other ↦
              let ne : k ≢ j = λ e. ground arith in
              let stays : h.tfind j next.1 ≡ some w =
                ground (arith, step-tfind h works d cache k j) in
              after-dirty fd ks next.0 next.1 j w s' stays dirty (mem_rest j k ks ne m)
        ]

    after-elsewhere :
        (fd : ℤ) (ks : List ℕ) (d : h.Disk) (cache : h.Tree) (at size : ℕ)
        → IsSound h fd cache
        → ((i : ℕ) (u : FatUnit)
            → h.tfind i cache ≡ some u
            → apart (position h u) u.size at size ≡ true)
        → h.read (after ks d cache).0 fd at size ≡ h.read d fd at size
    after-elsewhere fd [] d cache at size s far = refl
    after-elsewhere fd (k ∷ ks) d cache at size s far =
        let next = Cache.flush_one h [] (d, cache) k in
        let far' : (i : ℕ) (u : FatUnit)
            → h.tfind i next.1 ≡ some u
            → apart (position h u) u.size at size ≡ true =
          λ i u e.
            let (w, there, same) = step-found h works d cache k i u e in
            elim same [ inl p ↦ rw p (far i w there) | inr p ↦ rw p (far i w there) ] in
        after-elsewhere fd ks next.0 next.1 at size (step-IsSound h works fd d cache k s) far'
        ∙ step-elsewhere h works fd d cache k at size s far

    -- `fatunitflush` leaves alone what the device holds where no unit of the cache is.
    pub flush-elsewhere :
        (fd : ℤ) (d : h.Disk) (cache : h.Tree) (at size : ℕ)
        → IsSound h fd cache
        → ((i : ℕ) (u : FatUnit)
            → h.tfind i cache ≡ some u
            → apart (position h u) u.size at size ≡ true)
        → h.read (Cache.flush h [] d cache).0 fd at size ≡ h.read d fd at size
    unfolding Cache.flush
    flush-elsewhere fd d cache at size s far =
        after-elsewhere fd (h.walk cache) d cache at size s far

    -- `fatunitflush` on a device that works, where the units' ranges do not meet: every unit stays
    -- in the cache, clean and with its data, no other one enters, and what the device then holds at
    -- a unit's range is the unit's data if it was dirty, and otherwise what was there before.
    pub flush_lem :
        (fd : ℤ) (d : h.Disk) (cache : h.Tree) (i : ℕ)
        → IsSound h fd cache
        → (h.tfind i cache ≡ none → h.tfind i (Cache.flush h [] d cache).1 ≡ none)
          × ((u : FatUnit)
              → h.tfind i cache ≡ some u
              → (h.tfind i (Cache.flush h [] d cache).1 ≡ some (settle u))
                × (h.read (Cache.flush h [] d cache).0 u.fd (position h u) u.size
                    ≡ (if u.dirty then some u.data_bytes else h.read d u.fd (position h u) u.size)))
    unfolding Cache.flush
    flush_lem fd d cache i s = (
      after-none (h.walk cache) d cache i,
      λ u there. elim (Bool-cases u.dirty) [
        | inl dirty ↦
            let (found, back) =
              after-dirty fd (h.walk cache) d cache i u s there dirty
                (h.walk-mem i cache u there) in
            (found, ground (arith, back))
        | inr clean ↦
            let (found, back) = after-clean fd (h.walk cache) d cache i u s there clean in
            (found ∙ ap some (sym (settle-clean u clean)), ground (arith, back))
      ],
    )

    -- A unit that is not in the cache is read.
    pub get-miss :
        (d : h.Disk) (cache : h.Tree) (origin size n : ℕ) (fd : ℤ) (xs : Bytes)
        → h.tfind n cache ≡ none
        → h.read d fd ((origin + n * size) % 0x1_0000_0000_0000_0000) size ≡ some xs
        → Cache.get h [] d cache origin size n fd
          ≡ (some (read_into origin size n fd xs), h.put (read_into origin size n fd xs) cache)
    unfolding Cache.get create
    get-miss d cache origin size n fd xs missing e =
        let blank = record (create h size) { origin = origin; n = n; fd = fd } in
        rw (Cache.get, missing, unit_read-Works h works d blank xs e) refl

    -- A dirty unit that is flushed and then got anew, into an empty cache from the device, has its
    -- data, its place and its number as before, and is clean.
    pub get-flush :
        (fd : ℤ) (d : h.Disk) (cache : h.Tree) (i : ℕ) (u : FatUnit)
        → IsSound h fd cache
        → h.tfind i cache ≡ some u
        → u.dirty ≡ true
        → (w : FatUnit) × ((Cache.get h []
              (Cache.flush h [] d cache).0
              h.empty
              u.origin
              u.size
              i
              fd).0
            ≡ some w)
          × (w.data_bytes ≡ u.data_bytes)
          × (w.n ≡ u.n)
          × (w.origin ≡ u.origin)
          × (w.size ≡ u.size)
          × (w.fd ≡ u.fd)
          × (w.dirty ≡ false)
          × (w.loaded ≡ true)
    unfolding Cache.get create
    get-flush fd d cache i u s there dirty =
        let d' = (Cache.flush h [] d cache).0 in
        let back : read_unit h works d' u ≡ some u.data_bytes =
          ground (arith, (flush_lem fd d cache i s).1 u there) in
        let n : u.n ≡ i = h.tfind-n i cache u there in
        let same : u.fd ≡ fd = s.same_fd i u there in
        let blank = record (create h u.size) { origin = u.origin; n = i; fd = fd } in
        let here : read_unit h works d' blank ≡ some u.data_bytes = rw (← n, ← same) back in
        (
          record blank { data_bytes = u.data_bytes; dirty = false },
          rw (Cache.get, h.tfind-empty i, unit_read-Works h works d' blank u.data_bytes here) refl,
          refl,
          sym n,
          refl,
          refl,
          sym same,
          refl,
          refl,
        )
