-- ===== src/Tests/Device.antt =====
-- The device of `list_host` works.
use libllfat.Prelude.{
  ℕ, zero, suc, ◌+◌, ◌-◌, ◌%◌, ◌<◌, ◌≤◌, ◌≡◌, refl, ap, arith, ltb, if◌then◌else◌, some, [], ◌∷◌,
  length, get_or, get_or_ext,
}
use mathlib.Core.Path.{ap₂}
use native.Mathlib.Nat.{mod-eq_of_lt}
use libllfat.Bytes.{Bytes, IsBytes}
use libllfat.Units.Device.{Works, apart}
use libllfat.Tests.Host.{list_host, read_disk, write_disk, length-read_disk}

read_disk_ext :
    (d e : ℕ → ℕ) (at size : ℕ)
    → ((i : ℕ) → at ≤ i → i < at + size → d i ≡ e i)
    → read_disk d at size ≡ read_disk e at size
unfolding read_disk
read_disk_ext d e at zero same = refl
read_disk_ext d e at (suc size) same =
    ap₂ ◌∷◌ (ap (λ (x : ℕ). x % 256) (same at (omega arith) (omega arith)))
      (read_disk_ext d e (at + 1) size (λ i lo hi. same i (omega arith) (omega arith)))

get_or-read_disk :
    (d : ℕ → ℕ) (at size i : ℕ)
    → get_or (read_disk d at size) i 0 ≡ (if ltb i size then d (at + i) % 256 else 0)
unfolding read_disk
get_or-read_disk d at zero i = ground arith
get_or-read_disk d at (suc size) zero = ground arith
get_or-read_disk d at (suc size) (suc i) =
    let e : at + 1 + i ≡ at + suc i = omega arith in
    ground (arith, get_or-read_disk d (at + 1) size i, ap d e)

get_or-beyond : (xs : Bytes) (i : ℕ) → length xs ≤ i → get_or xs i 0 ≡ 0
get_or-beyond [] i h = refl
get_or-beyond (x ∷ xs) zero h = absurd (omega arith)
get_or-beyond (x ∷ xs) (suc i) h = get_or-beyond xs i (omega arith)

pub read_disk-write_disk :
    (d : ℕ → ℕ) (at : ℕ) (xs : Bytes)
    → IsBytes xs
    → read_disk (write_disk d at xs) at (length xs) ≡ xs
unfolding write_disk
read_disk-write_disk d at xs b =
    get_or_ext 0 _ xs (length-read_disk (write_disk d at xs) at (length xs)) (λ i.
      let k : at + i - at ≡ i = omega arith in
      ground (
        arith,
        get_or-read_disk (write_disk d at xs) at (length xs) i,
        get_or-beyond xs i,
        ap (λ (j : ℕ). get_or xs j 0) k,
        mod-eq_of_lt (b i),
      ))

pub list_host-Works : Works list_host
unfolding apart write_disk
list_host-Works = record {
  seeks = λ d fd at. refl;
  writes = λ d fd at xs. refl;
  reads_back = λ d fd at xs b. ap some (read_disk-write_disk d at xs b);
  reads_apart = λ d fd at at' size xs far.
      ap some (read_disk_ext (write_disk d at xs) d at' size (λ i lo hi. ground arith));
}
