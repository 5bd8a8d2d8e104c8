-- ===== src/Table/Chains.antt =====
-- `fatgetnextcluster` returns what `fatsetnextcluster` stored.
use native.Mathlib.Nat.{mod-lt}
use libllfat.Prelude.{ℕ, ◌+◌, ◌%◌, ◌<◌, ◌≤◌, ◌≡◌, ◌≢◌, ◌⊎◌, ap, ◌∙◌, arith, some, List, inl, inr}
use libllfat.Prelude.Int.{ℤ, pos}
use libllfat.Units.Host.{Host}
use libllfat.Units.Io.{SimulatedError}
use libllfat.Boot.Size
use libllfat.Boot.MinSize.{IsWidth}
use libllfat.Fs.State.{Fat}
use libllfat.Fs.Geometry.{last_cluster, with_bits}
use libllfat.Table.Raw.{get_fat_entry, set_fat_entry}
use libllfat.Table.Sectors.{Change}
use libllfat.Table.Place.{Layout, Fits, IsReady, Change-IsReady, known_lem}
use libllfat.Table.Entries.{value_limit, get_fat_entry-set}
use libllfat.Table.Next.{
  fat_eof, fat_bad, is_fat_eof, is_fat_bad, classify, encode, raw_next, get_next_cluster,
  set_in_table, set_next_cluster,
}

-- A successor of a filesystem whose last cluster is `last`: unused, a cluster, the end of a chain or
-- the mark of a bad cluster.
abbrev pub IsNext : ℕ → ℤ → Type 0
IsNext last next = ((k : ℕ) × (next ≡ pos k) × (k ≤ last)) ⊎ (next ≡ fat_eof) ⊎ (next ≡ fat_bad)

classify-encode :
    (b last : ℕ) (next : ℤ)
    → IsWidth b
    → last + 9 < value_limit b
    → IsNext last next
    → classify (pos b) (pos last) (pos (encode next % value_limit b)) ≡ next
unfolding classify encode is_fat_bad is_fat_eof
classify-encode b last next w small (inl (k, e, h)) = rw e (ground arith)
classify-encode b last next w small (inr (inl e)) = rw e (ground arith)
classify-encode b last next w small (inr (inr e)) = rw e (ground arith)

-- The filesystem is worked on through the table `nfat`, and its last cluster is `last`.
pub record Uses {h : Host} (l : Layout) (nfat last : ℕ) (f : Fat h) : Type 0 where
  pub ready : IsReady l f
  pub table : f.nfat ≡ pos nfat
  pub exists : nfat < l.count
  pub last_is : Size.last_cluster f.boot (some (pos l.bits)) ≡ some (pos last, some (pos l.bits))
  pub small : last + 9 < value_limit l.bits

module _ {h : Host} (errors : List SimulatedError) (l : Layout) (nfat last : ℕ) where
  pub last_lem : {f : Fat h} → Uses l nfat last f → last_cluster f ≡ some (pos last, f)
  unfolding last_cluster with_bits
  last_lem {f} u = ground (arith, u.ready.bits, u.last_is)

  Change-Uses : {f f' : Fat h} → Change l.bps f f' → Uses l nfat last f → Uses l nfat last f'
  Change-Uses {f} {f'} change u =
      let boot : f'.boot ≡ f.boot = ap (λ (g : Fat h). g.boot) change.rest in
      record {
        ready = Change-IsReady l change u.ready;
        table = ap (λ (g : Fat h). g.nfat) change.rest ∙ u.table;
        exists = u.exists;
        last_is = rw boot u.last_is;
        small = u.small;
      }

  -- A read of the table is a read of the successor.
  pub next_lem :
      {f : Fat h} (n v : ℕ)
      → Uses l nfat last f
      → 2 ≤ n
      → n ≤ last
      → get_fat_entry errors (pos nfat) n f ≡ some (pos v, f)
      → get_next_cluster errors (pos n) f ≡ some (classify (pos l.bits) (pos last) (pos v), f)
  unfolding get_next_cluster raw_next
  next_lem {f} n v u lo hi e = ground (arith, last_lem u, u.table, known_lem l u.ready)

  set_lem :
      {f f' : Fat h} (n : ℕ) (next : ℤ)
      → Uses l nfat last f
      → 2 ≤ n
      → n ≤ last
      → set_fat_entry errors (pos nfat) n (encode next % value_limit l.bits) f ≡ some (pos 0, f')
      → set_next_cluster errors (pos n) next f ≡ some (pos 0, f')
  unfolding set_next_cluster set_in_table
  set_lem {f} n next u lo hi e = ground (arith, last_lem u, u.table, known_lem l u.ready, l.width)

encode-lt : (b : ℕ) (next : ℤ) → encode next % value_limit b < value_limit b
encode-lt b next = ground (arith, mod-lt (encode next) (positive b))
  where
    positive : (b : ℕ) → 0 < value_limit b
    positive b = ground arith

-- What `fatsetnextcluster` does, and that it changes cached sectors alone.
pub set_next_cluster-Change :
    {h : Host} (errors : List SimulatedError) (l : Layout) (nfat last : ℕ) (f : Fat h) (n : ℕ)
    (next : ℤ)
    → Uses l nfat last f
    → 2 ≤ n
    → n ≤ last
    → Fits l n
    → IsNext last next
    → (f' : Fat h) × (set_next_cluster errors (pos n) next f ≡ some (pos 0, f'))
      × Change l.bps f f'
      × Uses l nfat last f'
      × (get_next_cluster errors (pos n) f' ≡ some (next, f'))
      × ((m : ℕ)
          → 2 ≤ m
          → m ≤ last
          → Fits l m
          → m ≢ n
          → (v : ℤ) × (get_next_cluster errors (pos m) f ≡ some (v, f))
            × (get_next_cluster errors (pos m) f' ≡ some (v, f')))
set_next_cluster-Change errors l nfat last f n next u lo hi fits kind =
    let value = encode next % value_limit l.bits in
    let (f', run, ready, change, got, others) =
      get_fat_entry-set errors l f nfat n value u.ready u.exists fits (encode-lt l.bits next) in
    let u' = Change-Uses errors l nfat last change u in
    (
      f',
      set_lem errors l nfat last n next u lo hi run,
      change,
      u',
      next_lem errors l nfat last n value u' lo hi got
          ∙ ap (λ (v : ℤ). some (v, f')) (classify-encode l.bits last next l.width u.small kind),
      λ m lo_m hi_m fits_m ne.
          let (v, e, e') = others m fits_m ne in
          (
            classify (pos l.bits) (pos last) (pos v),
            next_lem errors l nfat last m v u lo_m hi_m e,
            next_lem errors l nfat last m v u' lo_m hi_m e',
          ),
    )

-- On a filesystem that is worked on through one table of at most 2^30 bytes whose sectors are
-- cached, and whose last cluster is at least ten below the number of values of an entry,
-- fatsetnextcluster succeeds for every cluster with an entry in the table; fatgetnextcluster then
-- returns the successor that was set (a cluster, unused, the end of a chain or the mark of a bad
-- cluster), and for all other clusters what it returned before.
pub get_next_cluster-set :
    {h : Host} (errors : List SimulatedError) (l : Layout) (nfat last : ℕ) (f : Fat h) (n : ℕ)
    (next : ℤ)
    → Uses l nfat last f
    → 2 ≤ n
    → n ≤ last
    → Fits l n
    → IsNext last next
    → (f' : Fat h) × (set_next_cluster errors (pos n) next f ≡ some (pos 0, f'))
      × Uses l nfat last f'
      × (get_next_cluster errors (pos n) f' ≡ some (next, f'))
      × ((m : ℕ)
          → 2 ≤ m
          → m ≤ last
          → Fits l m
          → m ≢ n
          → (v : ℤ) × (get_next_cluster errors (pos m) f ≡ some (v, f))
            × (get_next_cluster errors (pos m) f' ≡ some (v, f')))
get_next_cluster-set errors l nfat last f n next u lo hi fits kind =
    let (f', run, _, uses, same, others) =
      set_next_cluster-Change errors l nfat last f n next u lo hi fits kind in
    (f', run, uses, same, others)
