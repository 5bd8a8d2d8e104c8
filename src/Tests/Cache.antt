-- ===== src/Tests/Cache.antt =====
-- The theorems on the cache of lib/unit.c at a small cache.
use libllfat.Prelude.{
  ℕ, ◌<◌, length, ltb, if◌then◌else◌, ◌≡◌, ◌≢◌, refl, true, false, none, some, [], ◌∷◌, List,
}
use libllfat.Prelude.Int.{pos}
use libllfat.Bytes.{Bytes, write_bytes, put8}
use libllfat.Units.{FatUnit, mark_dirty}
use libllfat.Units.Moves.{swap-tfind}
use libllfat.Prelude.{arith}
use libllfat.Units.Io.{create, simulate_error, unit_seek, unit_read}
use libllfat.Units.Cache
use libllfat.Units.Hits.{Stale, get-get, get-garbage}
use libllfat.Units.Host.{Host}
use libllfat.Tests.Host.{list_host, tfind, read_disk}

abbrev sector : ℕ → Bytes → FatUnit
sector n bytes = record {
  fd = pos 3;
  n = n;
  size = 2;
  origin = 0;
  loaded = true;
  data_bytes = bytes;
  error = 0;
  dirty = false;
  refer = 0;
}

-- The device holds its positions.
abbrev device : ℕ → ℕ
device at = at

-- Sector 5 is read from the device into an empty cache.
first_get :
    Cache.get list_host [] device [] 0 2 5 (pos 3)
    ≡ (some (sector 5 (10 ∷ 11 ∷ [])), sector 5 (10 ∷ 11 ∷ []) ∷ [])
unfolding Cache.get create simulate_error unit_seek unit_read tfind read_disk
first_get = refl

-- Then it is got from the cache, though the device has changed.
get-get_example :
    (Cache.get list_host [] (λ at. 0) (sector 5 (10 ∷ 11 ∷ []) ∷ []) 0 2 5 (pos 3)
      ≡ (some (sector 5 (10 ∷ 11 ∷ [])), sector 5 (10 ∷ 11 ∷ []) ∷ []))
    × ((k : ℕ) → k ≢ 5 → tfind k (sector 5 (10 ∷ 11 ∷ []) ∷ []) ≡ tfind k [])
get-get_example =
    get-get list_host [] device (λ at. 0) [] (sector 5 (10 ∷ 11 ∷ []) ∷ []) 0 2 5 (pos 3)
      (sector 5 (10 ∷ 11 ∷ [])) first_get

-- Sector 5, deallocated, cannot be read.
abbrev bare : FatUnit
bare = record (sector 5 []) { loaded = false }

-- The device of `failing` gives one byte and stops.
length-one : (size : ℕ) → 0 < size → length {A = ℕ} (if ltb 1 size then 7 ∷ [] else []) < size
length-one size h = ground arith

abbrev failing : Host
failing = record list_host {
  read = λ d fd at size. none;
  partial = λ d fd at size. if ltb 1 size then 7 ∷ [] else [];
  length-read = λ d fd at size xs e. absurd (ground (arith, e));
  length-partial = λ d fd at size pos_size e. length-one size pos_size;
  read-IsBytes = λ d fd at size xs e. absurd (ground (arith, e));
}

abbrev after : List FatUnit
after = record (sector 5 (7 ∷ 0 ∷ [])) { error = 1 } ∷ bare ∷ []

failed_get : Cache.get failing [] device (bare ∷ []) 0 2 5 (pos 3) ≡ (none, after)
unfolding Cache.get simulate_error unit_seek unit_read tfind write_bytes put8
failed_get = refl

get-garbage_example :
    (u : FatUnit) × (Cache.get failing [] device after 0 2 5 (pos 3) ≡ (some u, after))
    × Stale failing 2 u.data_bytes
unfolding tfind
get-garbage_example =
    get-garbage failing device device (bare ∷ []) after 0 2 5 (pos 3) bare refl refl (omega arith)
      failed_get

-- The units 5 and 6 are swapped in a cache that also holds 7.
abbrev cache_567 : list_host.Tree
cache_567 = sector 5 (1 ∷ []) ∷ sector 6 (2 ∷ []) ∷ sector 7 (3 ∷ []) ∷ []

swap-tfind_example :
    tfind 6 (Cache.swap list_host [] cache_567 (sector 5 (1 ∷ [])) (sector 6 (2 ∷ [])))
    ≡ some (mark_dirty (sector 6 (1 ∷ [])))
swap-tfind_example =
    swap-tfind list_host [] cache_567 (sector 5 (1 ∷ [])) (sector 6 (2 ∷ [])) 6 (ground arith)
