-- ===== src/Table/Succ.antt =====
-- The abstract view of a table: the successor of each cluster. `fatsetnextcluster` updates it at one
-- cluster.
use libllfat.Prelude.{
  ℕ, ◌≤◌, ◌≡◌, ap, ◌∙◌, arith, ◌==◌, if◌then◌else◌, some, List, Bool-cases, inl, inr,
}
use libllfat.Prelude.Int.{ℤ, pos}
use libllfat.Units.Host.{Host}
use libllfat.Units.Io.{SimulatedError}
use libllfat.Fs.State.{Fat}
use libllfat.Table.Place.{Layout, Fits}
use libllfat.Table.Next.{get_next_cluster, set_next_cluster}
use libllfat.Table.Chains.{Uses, IsNext, set_next_cluster-Change}

-- A function changed at one number.
abbrev pub update : (ℕ → ℤ) → ℕ → ℤ → ℕ → ℤ
update v n next m = if m == n then next else v m

-- The filesystem is worked on through the table `nfat`, whose sectors are cached and hold an entry
-- of every cluster; `v` gives the successors.
pub record Represents {h : Host} (errors : List SimulatedError) (l : Layout) (nfat last : ℕ)
    (v : ℕ → ℤ) (f : Fat h) : Type 0 where
  pub uses : Uses l nfat last f
  pub fits : (m : ℕ) → m ≤ last → Fits l m
  pub reads : (m : ℕ) → 2 ≤ m → m ≤ last → get_next_cluster errors (pos m) f ≡ some (v m, f)

-- Only the cache of sectors differs.
abbrev pub SameRest : {h : Host} → Fat h → Fat h → Type 0
SameRest f f' = f' ≡ record f { sectors = f'.sectors }

pub SameRest-trans :
    {h : Host} (f f' f'' : Fat h) → SameRest f f' → SameRest f' f'' → SameRest f f''
SameRest-trans {h} f f' f'' a b = b ∙ ap (λ (g : Fat h). record g { sectors = f''.sectors }) a

-- `fatsetnextcluster` succeeds and changes the successor of one cluster, and besides only the cache of
-- sectors.
pub set_next_cluster-Represents :
    {h : Host} (errors : List SimulatedError) (l : Layout) (nfat last : ℕ) (v : ℕ → ℤ) (f : Fat h)
    (n : ℕ) (next : ℤ)
    → Represents errors l nfat last v f
    → 2 ≤ n
    → n ≤ last
    → IsNext last next
    → (f' : Fat h) × (set_next_cluster errors (pos n) next f ≡ some (pos 0, f'))
      × Represents errors l nfat last (update v n next) f'
      × SameRest f f'
set_next_cluster-Represents errors l nfat last v f n next r lo hi kind =
    let (f', run, change, uses, same, others) =
      set_next_cluster-Change errors l nfat last f n next r.uses lo hi (r.fits n hi) kind in
    (
      f',
      run,
      record {
        uses = uses;
        fits = r.fits;
        reads = λ m lo_m hi_m. elim (Bool-cases (m == n)) [
          | inl e ↦ ground (arith, same)
          | inr ne ↦
              let (w, before, after) = others m lo_m hi_m (r.fits m hi_m) (ground arith) in
              ground (arith, before, after, r.reads m lo_m hi_m)
        ];
      },
      change.rest,
    )
