-- ===== src/Table/DirtyTrip.antt =====
-- The dirty bits of a table, written and read.
use libllfat.Prelude.{ℕ, ◌/◌, ◌%◌, ◌^◌, ◌<◌, ◌≡◌, ◌≢◌, ◌⊎◌, refl, arith, some, List, inl, inr}
use libllfat.Prelude.Int.{pos, u32}
use libllfat.Units.Host.{Host}
use libllfat.Units.Io.{SimulatedError}
use libllfat.Fs.State.{Fat, ◌>>=◌}
use libllfat.Table.Raw.{get_fat_entry}
use libllfat.Table.Sectors.{Change}
use libllfat.Table.Flat.{flat}
use libllfat.Table.Place.{Layout, base, Fits, Fits-bytes, IsReady, known_lem}
use libllfat.Table.Read.{entry_of, entry_at, get_fat_entry_lem}
use libllfat.Table.Entries.{value_limit, flat-lt, get_fat_entry-set}
use libllfat.Table.DirtyBits.{
  dirty_bits_shift, swap_dirty_bits, field_of, with_field, get_fat_dirty_bits, set_fat_dirty_bits,
}

-- The place of the two bits.
abbrev IsShift : ℕ → ℕ → Type 0
IsShift bits shift = ((bits ≡ 16) × (shift ≡ 14)) ⊎ ((bits ≡ 32) × (shift ≡ 26))

shift_lem : (bits shift : ℕ) → IsShift bits shift → dirty_bits_shift (pos bits) ≡ some shift
unfolding dirty_bits_shift
shift_lem bits shift (inl (e, e')) = rw (e, e') refl
shift_lem bits shift (inr (e, e')) = rw (e, e') refl

with_field-lt :
    (bits shift entry dirty : ℕ)
    → IsShift bits shift
    → entry < value_limit bits
    → dirty < 4
    → with_field (u32 (pos entry)) shift dirty < value_limit bits
unfolding with_field
with_field-lt bits shift entry dirty (inl (e, e')) h d = rw (e, e') (omega (arith, rw e at h))
with_field-lt bits shift entry dirty (inr (e, e')) h d = rw (e, e') (omega (arith, rw e at h))

field_of-with_field :
    (bits shift entry dirty : ℕ)
    → IsShift bits shift
    → entry < value_limit bits
    → dirty < 4
    → (field_of (pos (with_field (u32 (pos entry)) shift dirty)) shift ≡ dirty)
      × (with_field (u32 (pos entry)) shift dirty % 2 ^ shift ≡ entry % 2 ^ shift)
      × (with_field (u32 (pos entry)) shift dirty / 2 ^ shift / 4 ≡ entry / 2 ^ shift / 4)
unfolding with_field field_of
field_of-with_field bits shift entry dirty (inl (e, e')) h d =
    let small = rw e at h in rw e' (omega arith, omega arith, omega arith)
field_of-with_field bits shift entry dirty (inr (e, e')) h d =
    let small = rw e at h in rw e' (omega arith, omega arith, omega arith)

swap_swap : (d : ℕ) → d < 4 → (swap_dirty_bits d < 4) × (swap_dirty_bits (swap_dirty_bits d) ≡ d)
unfolding swap_dirty_bits
swap_swap d h = (omega arith, omega arith)

entry_of-lt :
    {h : Host} (l : Layout) {f : Fat h} (r : IsReady l f) (nfat n : ℕ)
    → nfat < l.count
    → Fits l n
    → (l.bits ≡ 16) ⊎ (l.bits ≡ 32)
    → entry_of l.bits (flat (base l nfat) l.bps f) n < value_limit l.bits
unfolding entry_of entry_at
entry_of-lt l r nfat n lt fits (inr e) = rw e (omega arith)
entry_of-lt l r nfat n lt fits (inl e) =
    let (below, below') = Fits-bytes l n fits in
    let low = flat-lt l r nfat _ lt below in
    let high = flat-lt l r nfat _ lt below' in rw e (omega (arith, rw e at low, rw e at high))

-- On FAT16 and FAT32, in a table of at most 2^30 bytes whose sectors are cached,
-- fatsetfatdirtybits of two bits succeeds, and fatgetfatdirtybits then returns them; the other
-- bits of entry 1, and all other entries of the table, are as they were, and so is all but the
-- cache of sectors.
pub get_fat_dirty_bits-set :
    {h : Host} (errors : List SimulatedError) (l : Layout) (f : Fat h) (nfat dirty shift : ℕ)
    → IsReady l f
    → nfat < l.count
    → Fits l 1
    → dirty < 4
    → ((l.bits ≡ 16) × (shift ≡ 14)) ⊎ ((l.bits ≡ 32) × (shift ≡ 26))
    → (f' : Fat h) × (set_fat_dirty_bits errors (pos nfat) dirty f ≡ some (pos 0, f'))
      × Change l.bps f f'
      × (get_fat_dirty_bits errors (pos nfat) f' ≡ some (pos dirty, f'))
      × ((v : ℕ) × (v' : ℕ) × (get_fat_entry errors (pos nfat) 1 f ≡ some (pos v, f))
          × (get_fat_entry errors (pos nfat) 1 f' ≡ some (pos v', f'))
          × (v' % 2 ^ shift ≡ v % 2 ^ shift)
          × (v' / 2 ^ shift / 4 ≡ v / 2 ^ shift / 4))
      × ((m : ℕ)
          → Fits l m
          → m ≢ 1
          → (v : ℕ) × (get_fat_entry errors (pos nfat) m f ≡ some (pos v, f))
            × (get_fat_entry errors (pos nfat) m f' ≡ some (pos v, f')))
unfolding get_fat_dirty_bits set_fat_dirty_bits
get_fat_dirty_bits-set errors l f nfat dirty shift r lt fits small place =
    let wide : (l.bits ≡ 16) ⊎ (l.bits ≡ 32) = elim place [
      | inl (e, e') ↦ inl e
      | inr (e, e') ↦ inr e
    ] in
    let v = entry_of l.bits (flat (base l nfat) l.bps f) 1 in
    let before = get_fat_entry_lem l r nfat lt errors 1 fits in
    let bound = entry_of-lt l r nfat 1 lt fits wide in
    let (swapped, back) = swap_swap dirty small in
    let next = with_field (u32 (pos v)) shift (swap_dirty_bits dirty) in
    let (f', run, r', change, after, others) =
      get_fat_entry-set errors l f nfat 1 next r lt fits
        (with_field-lt l.bits shift v (swap_dirty_bits dirty) place bound swapped) in
    let (field, low, high) =
      field_of-with_field l.bits shift v (swap_dirty_bits dirty) place bound swapped in
    let at = shift_lem l.bits shift place in
    (
      f',
      rw (set_fat_dirty_bits, ◌>>=◌, known_lem l r, at, before, ◌>>=◌) run,
      change,
      rw (get_fat_dirty_bits, ◌>>=◌, known_lem l r', at, after, ◌>>=◌, field, back) refl,
      (v, next, before, after, low, high),
      others,
    )
