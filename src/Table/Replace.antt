-- ===== src/Table/Replace.antt =====
-- The bytes that a store into a sector replaces in the table.
use native.Mathlib.Nat.{mod-lt, div-add-mod, add_assoc}
use libllfat.Prelude.{
  ℕ, ◌+◌, ◌/◌, ◌%◌, ◌<◌, ◌≤◌, ◌≡◌, ◌≢◌, ◌⊎◌, refl, ap, arith, ◌==◌, if◌then◌else◌, some, List, [],
  ◌∷◌, length,
}
use libllfat.Prelude.Division.{mul_gap}
use libllfat.Bytes.Laws.{length-put16, length-put32, put16-IsBytes, put32-IsBytes}
use libllfat.Units.{FatUnit, store16, store32, mark_dirty}
use libllfat.Units.Host.{Host}
use libllfat.Fs.State.{Fat, M}
use libllfat.Table.Raw.{insert12_low, insert12_high}
use libllfat.Table.Sectors.{sector_bytes, IsCached, Change, IsStore}
use libllfat.Table.Flat.{flat}

pub store16-IsStore : (i v : ℕ) → IsStore (λ u. store16 u i v)
store16-IsStore i v = record {
  same_n = λ u. refl;
  same_loaded = λ u. refl;
  same_length = λ u. length-put16 u.data_bytes i v;
  still_bytes = λ u. put16-IsBytes u.data_bytes i v;
}

pub store32-IsStore : (i v : ℕ) → IsStore (λ u. store32 u i v)
store32-IsStore i v = record {
  same_n = λ u. refl;
  same_loaded = λ u. refl;
  same_length = λ u. length-put32 u.data_bytes i v;
  still_bytes = λ u. put32-IsBytes u.data_bytes i v;
}

pub mark_dirty-IsStore : IsStore mark_dirty
mark_dirty-IsStore = record {
  same_n = λ u. refl;
  same_loaded = λ u. refl;
  same_length = λ u. refl;
  still_bytes = λ u b. b;
}

-- The bytes `vs` of the table, from `p` on, replaced in `table`.
unfoldable pub replaced : (ℕ → ℕ) → ℕ → List ℕ → ℕ → ℕ
replaced table p [] j = table j
replaced table p (v ∷ vs) j = if p == j then v % 256 else replaced table (p + 1) vs j

-- The bytes that `fatsetfat` stores for cluster `n`.
unfoldable pub stored_bytes : ℕ → (ℕ → ℕ) → ℕ → ℕ → ℕ → List ℕ
stored_bytes bits table p n next =
    if bits == 12
    then insert12_low n next (table p) ∷ insert12_high n next (table (p + 1)) ∷ []
    else if bits == 16
    then next ∷ next / 256 ∷ []
    else next ∷ next / 256 ∷ next / 65536 ∷ next / 16777216 ∷ []

-- The replacement inside the sector of `j`, whose first byte is `start`.
pub replaced-sector :
    (d table : ℕ → ℕ) (vs : List ℕ) (start o j r : ℕ)
    → j ≡ start + r
    → d r ≡ table j
    → replaced d o vs r ≡ replaced table (start + o) vs j
unfolding replaced
replaced-sector d table [] start o j r e same = same
replaced-sector d table (v ∷ vs) start o j r e same = ground (
  arith,
  replaced-sector d table vs start (o + 1) j r e same,
  ap (λ (p : ℕ). replaced table p vs j) (add_assoc start o 1),
)

pub replaced-outside :
    (table : ℕ → ℕ) (vs : List ℕ) (p j : ℕ)
    → (j < p) ⊎ (p + length vs ≤ j)
    → replaced table p vs j ≡ table j
unfolding replaced
replaced-outside table [] p j apart = refl
replaced-outside table (v ∷ vs) p j apart = ground (arith, replaced-outside table vs (p + 1) j)

-- A place in another sector is outside a group of bytes that stays in its own.
pub outside :
    (p j bps n : ℕ) → 0 < bps → p / bps ≢ j / bps → p % bps + n ≤ bps → (j < p) ⊎ (p + n ≤ j)
outside p j bps n h ne fits = ground (
  arith,
  div-add-mod p bps,
  div-add-mod j bps,
  mod-lt j h,
  mul_gap (p / bps) (j / bps) bps,
  mul_gap (j / bps) (p / bps) bps,
)

pub number : {h : Host} {bps k : ℕ} {f : Fat h} (c : IsCached bps f k) → c.u.n ≡ k
number {h} {f} c = h.tfind-n _ f.sectors c.u c.found

pub bytes_after :
    {h : Host} (f f' : Fat h) (k : ℕ) (u : FatUnit)
    → ((j : ℕ) → h.tfind j f'.sectors ≡ (if k == j then some u else h.tfind j f.sectors))
    → (j : ℕ) → sector_bytes f' j ≡ (if k == j then u.data_bytes else sector_bytes f j)
unfolding sector_bytes
bytes_after f f' k u finds j = ground (arith, finds j)

-- A call ended well, and the bytes of the table that begins at the sector `base` are now `table`.
pub record Stores {h : Host} (base bps : ℕ) (f : Fat h) (m : M h (Unit {0})) (table : ℕ → ℕ)
    : Type 0 where
  pub after : Fat h
  pub run : m f ≡ some (tt, after)
  pub change : Change bps f after
  pub reads : (j : ℕ) → flat base bps after j ≡ table j
