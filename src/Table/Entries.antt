-- ===== src/Table/Entries.antt =====
-- The entries of a table after `fatsetfat`: the one that was set, and all others.
use Prim.Native.Nat.{bit_or, bit_or-bitwise}
use libllfat.Prelude.{
  ℕ, ◌+◌, ◌*◌, ◌/◌, ◌%◌, ◌<◌, ◌≡◌, ◌≢◌, ◌⊎◌, refl, ◌∙◌, arith, ◌==◌, if◌then◌else◌, some, List, [],
  ◌∷◌, inl, inr,
}
use libllfat.Prelude.Int.{pos}
use libllfat.Units.Host.{Host}
use libllfat.Units.Io.{SimulatedError}
use libllfat.Boot.MinSize.{IsWidth}
use libllfat.Fs.State.{Fat}
use libllfat.Table.Raw.{
  entry_offset, get_fat_entry, set_fat_entry, extract12, insert12_low, insert12_high,
}
use libllfat.Table.Flat.{flat}
use libllfat.Table.Sectors.{Change}
use mathlib.Core.Path.{fun_ext}
use libllfat.Bytes.Laws.{get8-lt}
use libllfat.Table.Place.{Layout, base, place_of, Fits, Fits-bytes, IsReady, table-IsCached}
use libllfat.Table.Read.{entry_of, entry_at, get_fat_entry_lem, flat-IsCached}
use libllfat.Table.Replace.{replaced, stored_bytes}
use libllfat.Table.Write.{set_fat_entry_lem}

-- The values of an entry.
abbrev pub value_limit : ℕ → ℕ
value_limit b = if b == 12 then 0x1000 else if b == 16 then 0x1_0000 else 0x1000_0000

zero-bit_or : (x : ℕ) → bit_or 0 x ≡ x
zero-bit_or x = bit_or-bitwise 0 x

high_nibble : (next x : ℕ) → next < 0x1000 → bit_or (next / 4096 % 16) x ≡ x
high_nibble next x h = let e : next / 4096 % 16 ≡ 0 = omega arith in rw e (zero-bit_or x)

-- Of two 12-bit entries one lies a byte behind the other and shares the byte between them, or they
-- have no byte in common.
neighbours :
    (n m : ℕ)
    → m ≢ n
    → (entry_offset 12 m ≡ entry_offset 12 n + 1) × (n % 2 ≡ 0) × (m % 2 ≡ 1)
      ⊎ (entry_offset 12 n ≡ entry_offset 12 m + 1) × (n % 2 ≡ 1) × (m % 2 ≡ 0)
      ⊎ (entry_offset 12 m ≢ entry_offset 12 n)
        × (entry_offset 12 m ≢ entry_offset 12 n + 1)
        × (entry_offset 12 n ≢ entry_offset 12 m + 1)
neighbours n m ne = ground arith

module _ (table : ℕ → ℕ) (n m : ℕ) where
  entry-behind :
      (p low next : ℕ)
      → n % 2 ≡ 0
      → m % 2 ≡ 1
      → next < 0x1000
      → table (p + 1) < 256
      → entry_at 12 (replaced table p (low ∷ insert12_high n next (table (p + 1)) ∷ [])) (p + 1) m
        ≡ entry_at 12 table (p + 1) m
  unfolding entry_at replaced extract12 insert12_high
  entry-behind p low next even odd h b = ground (arith, high_nibble next (table (p + 1) / 16))

  entry-before :
      (q high next : ℕ)
      → n % 2 ≡ 1
      → m % 2 ≡ 0
      → table (q + 1) < 256
      → entry_at 12 (replaced table (q + 1) (insert12_low n next (table (q + 1)) ∷ high ∷ [])) q m
        ≡ entry_at 12 table q m
  unfolding entry_at replaced extract12 insert12_low
  entry-before q high next odd even b = ground arith

entry-apart :
    (table : ℕ → ℕ) (m p q low high : ℕ)
    → q ≢ p
    → q ≢ p + 1
    → p ≢ q + 1
    → entry_at 12 (replaced table p (low ∷ high ∷ [])) q m ≡ entry_at 12 table q m
unfolding entry_at replaced
entry-apart table m p q low high e₁ e₂ e₃ = ground arith

module _ (table : ℕ → ℕ) (n next : ℕ) where
  abbrev after_set : ℕ → ℕ → ℕ
  after_set b = replaced table (entry_offset b n) (stored_bytes b table (entry_offset b n) n next)

  same12 : next < 0x1000 → entry_of 12 (after_set 12) n ≡ next
  unfolding entry_of entry_at replaced stored_bytes extract12 insert12_low insert12_high
  same12 h = ground arith

  same16 : next < 0x1_0000 → entry_of 16 (after_set 16) n ≡ next
  unfolding entry_of entry_at replaced stored_bytes
  same16 h = ground arith

  same32 : next < 0x1000_0000 → entry_of 32 (after_set 32) n ≡ next
  unfolding entry_of entry_at replaced stored_bytes
  same32 h = ground arith

  other12 :
      (m : ℕ)
      → m ≢ n
      → next < 0x1000
      → table (entry_offset 12 n) < 256
      → table (entry_offset 12 n + 1) < 256
      → entry_of 12 (after_set 12) m ≡ entry_of 12 table m
  unfolding entry_of stored_bytes
  other12 m ne h b b' =
      let p = entry_offset 12 n in
      let low = insert12_low n next (table p) in
      let high = insert12_high n next (table (p + 1)) in
      elim (neighbours n m ne) [
        | inl (e, even, odd) ↦ rw e (entry-behind table n m p low next even odd h b')
        | inr (inl (e, odd, even)) ↦
            let q = entry_offset 12 m in
            rw e (
              entry-before table n m q (insert12_high n next (table (q + 1 + 1))) next odd even
                (rw e at b))
        | inr (inr (e₁, e₂, e₃)) ↦ entry-apart table m p (entry_offset 12 m) low high e₁ e₂ e₃
      ]

  other16 : (m : ℕ) → m ≢ n → entry_of 16 (after_set 16) m ≡ entry_of 16 table m
  unfolding entry_of entry_at replaced stored_bytes
  other16 m ne = ground arith

  other32 : (m : ℕ) → m ≢ n → entry_of 32 (after_set 32) m ≡ entry_of 32 table m
  unfolding entry_of entry_at replaced stored_bytes
  other32 m ne = ground arith

  same_entry : (b : ℕ) → IsWidth b → next < value_limit b → entry_of b (after_set b) n ≡ next
  same_entry b (inl e) h = rw e (same12 (rw e at h))
  same_entry b (inr (inl e)) h = rw e (same16 (rw e at h))
  same_entry b (inr (inr e)) h = rw e (same32 (rw e at h))

  other_entry :
      (b m : ℕ)
      → IsWidth b
      → m ≢ n
      → next < value_limit b
      → table (entry_offset b n) < 256
      → table (entry_offset b n + 1) < 256
      → entry_of b (after_set b) m ≡ entry_of b table m
  other_entry b m (inl e) ne h c c' = rw e (other12 m ne (rw e at h) (rw e at c) (rw e at c'))
  other_entry b m (inr (inl e)) ne h c c' = rw e (other16 m ne)
  other_entry b m (inr (inr e)) ne h c c' = rw e (other32 m ne)

pub flat-lt :
    {h : Host} (l : Layout) {f : Fat h} (r : IsReady l f) (nfat p : ℕ)
    → nfat < l.count
    → p < l.size * l.bps
    → flat (base l nfat) l.bps f p < 256
flat-lt l r nfat p lt below =
    let c = table-IsCached l r nfat p lt below in
    rw (← flat-IsCached l r nfat lt p c) (get8-lt c.u.data_bytes (p % l.bps) c.bytes)

-- On a filesystem whose table sectors are cached, with tables of at most 2^30 bytes, for FAT12,
-- FAT16 and FAT32 alike, fatsetfat of a value that an entry can hold succeeds; fatgetfat then
-- returns it, and for every other entry of the table what it returned before, also where 12-bit
-- entries share a byte or lie across two sectors.
pub get_fat_entry-set :
    {h : Host} (errors : List SimulatedError) (l : Layout) (f : Fat h) (nfat n next : ℕ)
    → IsReady l f
    → nfat < l.count
    → Fits l n
    → next < value_limit l.bits
    → (f' : Fat h) × (set_fat_entry errors (pos nfat) n next f ≡ some (pos 0, f'))
      × IsReady l f'
      × Change l.bps f f'
      × (get_fat_entry errors (pos nfat) n f' ≡ some (pos next, f'))
      × ((m : ℕ)
          → Fits l m
          → m ≢ n
          → (v : ℕ) × (get_fat_entry errors (pos nfat) m f ≡ some (pos v, f))
            × (get_fat_entry errors (pos nfat) m f' ≡ some (pos v, f')))
get_fat_entry-set errors l f nfat n next r lt fits small =
    let table = flat (base l nfat) l.bps f in
    let (f', run, r', change, bytes) = set_fat_entry_lem l r nfat lt errors n next fits in
    let table_eq : flat (base l nfat) l.bps f' ≡ after_set table n next l.bits = fun_ext bytes in
    let (below, below') = Fits-bytes l n fits in
    (
      f',
      run,
      r',
      change,
      get_fat_entry_lem l r' nfat lt errors n fits
          ∙ rw (table_eq, same_entry table n next l.bits l.width small) refl,
      λ m fits_m ne. (
        entry_of l.bits table m,
        get_fat_entry_lem l r nfat lt errors m fits_m,
        get_fat_entry_lem l r' nfat lt errors m fits_m
            ∙ rw
                (
                  table_eq,
                  other_entry table n next l.bits m l.width ne small
                      (flat-lt l r nfat (place_of l n) lt below)
                      (flat-lt l r nfat (place_of l n + 1) lt below'),
                )
                refl,
      ),
    )
