-- ===== src/Units/Hits.antt =====
-- What `fatunitget` leaves in the cache.
use libllfat.Prelude.{
  ℕ, ◌<◌, ◌≡◌, ◌≢◌, [], length, refl, ap, arith, true, false, ◌==◌, if◌then◌else◌, none, some, List,
  Bool-cases, Option-cases, inl, inr,
}
use libllfat.Prelude.Int.{ℤ}
use libllfat.Bytes.{Bytes, write_bytes}
use libllfat.Units.Block.{FatUnit}
use libllfat.Units.Host.{Host}
use libllfat.Units.Io.{SimulatedError, create, simulate_error, position, unit_seek, unit_read}
use libllfat.Units.Cache

module _ (h : Host) (errors : List SimulatedError) where
  -- A transfer leaves the number of the unit and its block alone.
  unit_seek-keeps :
      (disk : h.Disk) (u : FatUnit)
      → ((unit_seek h errors disk u).0.n ≡ u.n) × ((unit_seek h errors disk u).0.loaded ≡ u.loaded)
  unfolding unit_seek
  unit_seek-keeps disk u = (ground arith, ground arith)

  unit_read-keeps :
      (disk : h.Disk) (u : FatUnit)
      → ((unit_read h errors disk u).0.n ≡ u.n) × ((unit_read h errors disk u).0.loaded ≡ u.loaded)
  unfolding unit_read
  unit_read-keeps disk u =
      let (a, b) = unit_seek-keeps disk u in (ground (arith, a), ground (arith, b))

  -- The unit that a transfer into a fresh or a deallocated unit yields, as the cache then finds it.
  after_read :
      (disk : h.Disk) (cache : h.Tree) (blank : FatUnit) (n k : ℕ)
      → blank.n ≡ n
      → h.tfind k (h.put (unit_read h errors disk blank).0 cache)
        ≡ (if n == k then some (unit_read h errors disk blank).0 else h.tfind k cache)
  after_read disk cache blank n k e = rw (h.tfind-put, (unit_read-keeps disk blank).0, e) refl

  cached_lem :
      (disk : h.Disk) (cache cache' : h.Tree) (origin size n : ℕ) (fd : ℤ) (u : FatUnit)
      → Cache.get h errors disk cache origin size n fd ≡ (some u, cache')
      → (u.loaded ≡ true)
        × ((k : ℕ) → h.tfind k cache' ≡ (if n == k then some u else h.tfind k cache))
  unfolding Cache.get create
  cached_lem disk cache cache' origin size n fd u e =
      let blank = record (create h size) { origin = origin; n = n; fd = fd } in
      elim (Option-cases (h.tfind n cache)) [
        | inl missing ↦ (
          ground (arith, unit_read-keeps disk blank),
          λ k. ground (arith, after_read disk cache blank n k refl),
        )
        | inr (old, here) ↦ elim (Bool-cases old.loaded) [
          | inl full ↦ (ground arith, λ k. ground arith)
          | inr bare ↦
              let again = record old {
                size = size;
                data_bytes = h.garbage size;
                loaded = true;
                origin = origin;
                n = n;
                fd = fd;
              } in
              (
                ground (arith, unit_read-keeps disk again),
                λ k. ground (arith, after_read disk cache again n k refl),
              )
        ]
      ]

  -- A unit that `fatunitget` returns is in the cache: the next call with its number returns the same
  -- and changes nothing, whatever became of the device. The cache is otherwise as it was.
  pub get-get :
      (disk disk' : h.Disk) (cache cache' : h.Tree) (origin size n : ℕ) (fd : ℤ) (u : FatUnit)
      → Cache.get h errors disk cache origin size n fd ≡ (some u, cache')
      → (Cache.get h errors disk' cache' origin size n fd ≡ (some u, cache'))
        × ((k : ℕ) → k ≢ n → h.tfind k cache' ≡ h.tfind k cache)
  unfolding Cache.get
  get-get disk disk' cache cache' origin size n fd u e =
      let (full, finds) = cached_lem disk cache cache' origin size n fd u e in
      let here : h.tfind n cache' ≡ some u = ground (arith, finds n) in
      (rw (here, Cache.get, full) refl, λ k ne. ground (arith, finds k))

module _ (h : Host) where
  -- Bytes that read(2) stored at the front of a block of `size` bytes, at least one less.
  abbrev pub Stale : ℕ → Bytes → Type 0
  Stale size bytes = (xs : Bytes) × (length xs < size) × (bytes ≡ write_bytes (h.garbage size) 0 xs)

  unit_read-failed :
      (disk : h.Disk) (u : FatUnit)
      → 0 < u.size
      → u.data_bytes ≡ h.garbage u.size
      → (unit_read h [] disk u).1 ≡ false
      → Stale u.size (unit_read h [] disk u).0.data_bytes
  unfolding unit_read unit_seek simulate_error write_bytes
  unit_read-failed disk u some_size fresh e =
      let at = position h u in
      elim (Bool-cases (h.lseek disk u.fd at)) [
        | inr lost ↦ rw lost ([], some_size, fresh)
        | inl found ↦ elim (Option-cases (h.read disk u.fd at u.size)) [
          | inl short ↦
              rw (found, short)
                (
                  h.partial disk u.fd at u.size,
                  h.length-partial disk u.fd at u.size some_size short,
                  ap (λ (d : Bytes). write_bytes d 0 (h.partial disk u.fd at u.size)) fresh,
                )
          | inr (xs, whole) ↦ absurd (ground (arith, e, found, whole))
        ]
      ]

  -- When fatunitget fails on a deallocated unit of a positive size, because lseek(2) fails or
  -- read(2) fails or is short, the cache keeps the unit with its new block: the next call returns
  -- it as if it were read, with what malloc(3) left in the block, but for fewer bytes at its front
  -- than it has.
  pub get-garbage :
      (disk disk' : h.Disk) (cache cache' : h.Tree) (origin size n : ℕ) (fd : ℤ) (old : FatUnit)
      → h.tfind n cache ≡ some old
      → old.loaded ≡ false
      → 0 < size
      → Cache.get h [] disk cache origin size n fd ≡ (none, cache')
      → (u : FatUnit) × (Cache.get h [] disk' cache' origin size n fd ≡ (some u, cache'))
        × Stale size u.data_bytes
  unfolding Cache.get
  get-garbage disk disk' cache cache' origin size n fd old here bare some_size e =
      let again = record old {
        size = size;
        data_bytes = h.garbage size;
        loaded = true;
        origin = origin;
        n = n;
        fd = fd;
      } in
      let u = (unit_read h [] disk again).0 in
      let failed : (unit_read h [] disk again).1 ≡ false = ground arith in
      let put : cache' ≡ h.put u cache = ground arith in
      let found : h.tfind n cache' ≡ some u =
        ground (arith, after_read h [] disk cache again n n refl) in
      let full : u.loaded ≡ true = (unit_read-keeps h [] disk again).1 in
      (u, rw (found, Cache.get, full) refl, unit_read-failed disk again some_size refl failed)
