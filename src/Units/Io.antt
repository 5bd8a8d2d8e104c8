-- ===== src/Units/Io.antt =====
-- lib/unit.c: creating a unit, simulated errors, and reading and writing a unit.
use libllfat.Prelude.{
  ℕ, ◌+◌, ◌*◌, ◌/◌, ◌%◌, Bool, true, false, not, ◌&&◌, ◌||◌, ◌==◌, if◌then◌else◌, Option, none,
  some, List, [], ◌∷◌,
}
use Prim.Native.Nat.{bit_or}
use libllfat.Prelude.Int.{ℤ, pos, minus_one, eqb_ℤ}
use libllfat.Bytes.{Bytes, write_bytes}
use libllfat.Units.Block.{FatUnit}
use libllfat.Units.Host.{Host}

-- `FAT_READ`, `FAT_WRITE`, `FAT_SEEK`, `NO_ORIGIN`
abbrev pub fat_read : ℕ
fat_read = 1

abbrev pub fat_write : ℕ
fat_write = 2

abbrev pub fat_seek : ℕ
fat_seek = 4

abbrev pub no_origin : ℕ
no_origin = 0xffff_ffff_ffff_ffff

-- `struct fat_simulate_errors_s`; the list stands for the array up to its entry of type 0.
pub record SimulatedError : Type 0 where
  pub fd : ℤ
  pub kind : ℕ
  pub n : ℕ
  pub is_cluster : Bool
  pub res : ℤ

-- The kinds are single bits.
unfoldable pub simulates : ℕ → FatUnit → SimulatedError → Bool
simulates kind u e =
    (eqb_ℤ e.fd u.fd || eqb_ℤ e.fd minus_one)
    && (e.n == u.n
        && (e.kind / kind % 2 == 1
            && ((not e.is_cluster && u.origin == 0) || (e.is_cluster && not (u.origin == 0)))))

unfoldable pub simulate_error : ℕ → FatUnit → List SimulatedError → ℤ
simulate_error kind u [] = pos 0
simulate_error kind u (e ∷ es) = if simulates kind u e then e.res else simulate_error kind u es

-- `SIMULATE_ERROR` makes the function fail.
abbrev pub fails : ℕ → FatUnit → List SimulatedError → Bool
fails kind u errors = not (eqb_ℤ (simulate_error kind u errors) (pos 0))

-- The block after read(2): all bytes, or those that came before it stopped.
abbrev pub store_read : FatUnit → Option Bytes → Bytes → FatUnit
store_read u none part = record u { data_bytes = write_bytes u.data_bytes 0 part }
store_read u (some xs) part = record u { data_bytes = xs }

abbrev is_read : Option Bytes → Bool
is_read none = false
is_read (some xs) = true

module _ (h : Host) where
  -- The number, the descriptor and the error flags are left unset by the code; here they are 0.
  unfoldable pub create : ℕ → FatUnit
  create size = record {
    fd = pos 0;
    n = 0;
    size = size;
    origin = no_origin;
    loaded = true;
    data_bytes = h.garbage size;
    error = 0;
    dirty = false;
    refer = 0;
  }

  abbrev pub position : FatUnit → ℕ
  position u = (u.origin + u.n * u.size) % 0x1_0000_0000_0000_0000

  abbrev pub flag : FatUnit → ℕ → FatUnit
  flag u kind = record u { error = bit_or u.error kind }

  module _ (errors : List SimulatedError) where
    -- A function that fails returns the unit with `false`.
    unfoldable pub unit_seek : h.Disk → FatUnit → FatUnit × Bool
    unit_seek disk u =
        if fails fat_seek u errors
        then (u, false)
        else if h.lseek disk u.fd (position u)
        then (u, true)
        else (flag u fat_seek, false)

    -- read(2) stores into the block also where it is short, and before an error is simulated.
    unfoldable pub unit_read : h.Disk → FatUnit → FatUnit × Bool
    unit_read disk u =
        let (u', found) = unit_seek disk u in
        let got = h.read disk u'.fd (position u') u'.size in
        let arrived = store_read u' got (h.partial disk u'.fd (position u') u'.size) in
        if not found
        then (u', false)
        else if fails fat_read u' errors
        then (arrived, false)
        else if is_read got
        then (record arrived { dirty = false }, true)
        else (flag arrived fat_read, false)

    -- An error that is simulated after a write(2) leaves the written bytes on the device.
    unfoldable pub unit_write : h.Disk → FatUnit → h.Disk × FatUnit × Bool
    unit_write disk u =
        let (u', found) = unit_seek disk u in
        if not found
        then (disk, u', false)
        else let (disk', written) = h.write disk u'.fd (position u') u'.data_bytes in
          if fails fat_write u' errors
          then (disk', u', false)
          else if written
          then (disk', record u' { dirty = false }, true)
          else (disk', flag u' fat_write, false)

    unfoldable pub write_back : h.Disk → FatUnit → h.Disk × FatUnit × Bool
    write_back disk u = if not u.dirty then (disk, u, true) else unit_write disk u

    -- A unit that was deallocated is read again; the program ends if it cannot be read.
    unfoldable pub get_data : h.Disk → FatUnit → Option FatUnit
    get_data disk u =
        let (u', ok) = unit_read disk (record u { data_bytes = h.garbage u.size; loaded = true }) in
        if u.loaded then some u else if ok then some u' else none
