-- ===== src/Reference/Renames.antt =====
-- Moving a cluster renames it in the table.
use libllfat.Prelude.{ℕ, ◌≡◌, ◌≢◌, ◌≤◌, refl, arith, true, false, ◌==◌, some, List, inl}
use libllfat.Prelude.Int.{ℤ, pos, negsuc}
use libllfat.Units.{FatUnit}
use libllfat.Units.Host.{Host}
use libllfat.Units.Io.{SimulatedError}
use libllfat.Units.Cache
use libllfat.Fs.State.{Fat, ◌>>=◌}
use libllfat.Table.Place.{Layout}
use libllfat.Table.Next.{fat_unused}
use libllfat.Table.Chains.{IsNext}
use libllfat.Table.Position.{cluster_position, cluster_read}
use libllfat.Table.Succ.{Represents, update, SameRest, SameRest-trans, set_next_cluster-Represents}
use libllfat.Reference.Target.{chain, set_target}
use libllfat.Reference.Move.{swap_ℕ, relink}

-- The exchange of two clusters in a successor.
abbrev pub rename : (a b : ℕ) → ℤ → ℤ
rename a b (pos n) = pos (swap_ℕ a b n)
rename a b (negsuc n) = negsuc n

-- The graph of the successors with two clusters exchanged.
abbrev pub renamed : (a b : ℕ) → (ℕ → ℤ) → ℕ → ℤ
renamed a b v m = rename a b (v (swap_ℕ a b m))

-- The cluster is cached with its data, and its place on the device is known.
pub record IsHeld {h : Host} (f : Fat h) (c : ℕ) : Type 0 where
  pub u : FatUnit
  pub found : h.tfind c f.clusters ≡ some u
  pub loaded : u.loaded ≡ true
  pub place : ℕ × ℕ
  pub placed : cluster_position (pos c) f ≡ some (place, f)

module _ {h : Host} (errors : List SimulatedError) where
  pub cluster_read_lem :
      (f : Fat h) (c : ℕ) (held : IsHeld f c) → cluster_read errors c f ≡ some (some held.u, f)
  unfolding cluster_read Cache.get
  cluster_read_lem f c held = rw (held.placed, ◌>>=◌, held.found, Cache.get, held.loaded) refl

module _ {h : Host} (errors : List SimulatedError) (l : Layout) (nfat last : ℕ) (v : ℕ → ℤ)
    (f : Fat h) (r : Represents errors l nfat last v f) (p c t : ℕ) (p_lo : 2 ≤ p) (p_hi : p ≤ last)
    (t_lo : 2 ≤ t) (t_hi : t ≤ last) (c_lo : 2 ≤ c) (c_hi : c ≤ last) (ne : t ≢ c)
    (kind : IsNext last (v c)) where
  abbrev pub moved : ℕ → ℤ
  moved = update (update (update v p (pos t)) t (v c)) c fat_unused

  pub relink_lem :
      (f' : Fat h) × (relink errors (chain (pos p)) t c (v c) f ≡ some (pos 0, f'))
      × Represents errors l nfat last moved f'
      × SameRest f f'
  unfolding relink set_target
  relink_lem =
      let (f₁, run₁, r₁, rest₁) =
        set_next_cluster-Represents errors l nfat last v f p (pos t) r p_lo p_hi
          (inl (t, refl, t_hi)) in
      let (f₂, run₂, r₂, rest₂) =
        set_next_cluster-Represents errors l nfat last _ f₁ t (v c) r₁ t_lo t_hi kind in
      let (f₃, run₃, r₃, rest₃) =
        set_next_cluster-Represents errors l nfat last _ f₂ c fat_unused r₂ c_lo c_hi
          (inl (0, refl, omega arith)) in
      let differ : (t == c) ≡ false = ground (arith, ne) in
      (
        f₃,
        rw (run₁, ◌>>=◌, run₂, ◌>>=◌, differ, run₃, ◌>>=◌) refl,
        r₃,
        SameRest-trans f f₂ f₃ (SameRest-trans f f₁ f₂ rest₁ rest₂) rest₃,
      )

  -- As a renaming, when `p` alone points to `c`, and nothing to `t`, which is free.
  pub moved-renamed :
      (m : ℕ)
      → v p ≡ pos c
      → v t ≡ fat_unused
      → p ≢ c
      → (m ≢ p → v m ≢ pos c)
      → v m ≢ pos t
      → v c ≢ pos t
      → v c ≢ pos c
      → moved m ≡ renamed c t v m
  moved-renamed m at free loop only none_m none_c self = ground arith
