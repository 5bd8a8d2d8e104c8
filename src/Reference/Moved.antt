-- ===== src/Reference/Moved.antt =====
-- `fatclustermove` on a reference of a cluster, with the cluster in the cache.
use libllfat.Prelude.{
  ℕ, ◌+◌, ◌≡◌, ◌≢◌, ◌≤◌, ◌∙◌, refl, ap, sym, arith, false, ◌==◌, ltb, if◌then◌else◌, none, some,
  List,
}
use libllfat.Prelude.Int.{ℤ, pos}
use libllfat.Units.{mark_dirty}
use libllfat.Units.Host.{Host}
use libllfat.Units.Io.{SimulatedError}
use libllfat.Units.Cache
use libllfat.Units.Moves.{move-tfind}
use libllfat.Fs.State.{Fat, ◌>>=◌}
use libllfat.Table.Place.{Layout}
use libllfat.Table.Next.{fat_unused, get_next_cluster}
use libllfat.Table.Chains.{IsNext}
use libllfat.Table.Succ.{Represents}
use libllfat.Table.Frame.{with_clusters, Represents-frame, Represents-ext}
use libllfat.Reference.Target.{chain, get_target}
use libllfat.Reference.Move.{relink, move_unit, cluster_move}
use libllfat.Reference.Renames.{renamed, IsHeld, cluster_read_lem, relink_lem, moved-renamed}

-- `p` alone points to `c`, and nothing points to `t`, which is free. `c` is no end of a cycle of one.
pub record IsMovable (last : ℕ) (v : ℕ → ℤ) (p c t : ℕ) : Type 0 where
  pub p_lo : 2 ≤ p
  pub p_hi : p ≤ last
  pub c_lo : 2 ≤ c
  pub c_hi : c ≤ last
  pub t_lo : 2 ≤ t
  pub t_hi : t ≤ last
  pub at : v p ≡ pos c
  pub free : v t ≡ fat_unused
  pub in_use : v c ≢ fat_unused
  pub next_is : IsNext last (v c)
  pub alone : (m : ℕ) → 2 ≤ m → m ≤ last → m ≢ p → v m ≢ pos c
  pub unreferred : (m : ℕ) → 2 ≤ m → m ≤ last → v m ≢ pos t
  pub straight : p ≢ c

pub target_lem :
    {h : Host} (errors : List SimulatedError) (f : Fat h) (p : ℕ)
    → 2 ≤ p
    → get_target errors (chain (pos p)) f ≡ get_next_cluster errors (pos p) f
unfolding get_target
target_lem errors f p lo = let regular : ltb (p + 0) 2 ≡ false = ground arith in rw regular refl

pub held-n : {h : Host} {f : Fat h} {c : ℕ} (held : IsHeld f c) → held.u.n ≡ c
held-n {h} {f} {c} held = h.tfind-n c f.clusters held.u held.found

module _ {h : Host} (errors : List SimulatedError) (l : Layout) (nfat last : ℕ) (v : ℕ → ℤ)
    (f : Fat h) (r : Represents errors l nfat last v f) (p c t : ℕ) (ok : IsMovable last v p c t)
    (held : IsHeld f c) where
  differ : t ≢ c
  differ e = ok.in_use (rw (← e) ok.free)

  -- The caches after the move of the unit.
  abbrev mid : Fat h
  mid = with_clusters f (Cache.move h errors f.clusters held.u t).0 f.disk

  run_to_relink :
      cluster_move errors (chain (pos p)) t false f ≡ relink errors (chain (pos p)) t c (v c) mid
  unfolding cluster_move move_unit
  run_to_relink =
      let target : get_target errors (chain (pos p)) f ≡ some (pos c, f) =
        target_lem errors f p ok.p_lo ∙ r.reads p ok.p_lo ok.p_hi ∙ ap (λ w. some (w, f)) ok.at in
      let free : get_next_cluster errors (pos t) f ≡ some (fat_unused, f) =
        r.reads t ok.t_lo ok.t_hi ∙ ap (λ w. some (w, f)) ok.free in
      let regular : ltb (c + 0) 2 ≡ false = ground (arith, ok.c_lo) in
      rw
        (
          target,
          ◌>>=◌,
          regular,
          r.reads c ok.c_lo ok.c_hi,
          ◌>>=◌,
          free,
          ◌>>=◌,
          cluster_read_lem errors f c held,
          ◌>>=◌,
        )
        refl

  -- On a table whose sectors are cached, fatclustermove of a cached cluster c in use, whose
  -- reference is another cluster p and to which no other cluster refers, to a free cluster t to
  -- which none refers, without writing back, succeeds and exchanges the two in the table: p points
  -- to t, t to what c pointed to, and c is free. The unit of c is then that of t, with its data,
  -- and dirty; all other cached clusters are as they were.
  pub cluster_move-renamed :
      (f' : Fat h) × (cluster_move errors (chain (pos p)) t false f ≡ some (pos 0, f'))
      × Represents errors l nfat last (renamed c t v) f'
      × ((k : ℕ)
          → h.tfind k f'.clusters ≡ (
              if t == k
              then some (mark_dirty (record held.u { n = t }))
              else if c == k
              then none
              else h.tfind k f.clusters))
  cluster_move-renamed =
      let mid_r = Represents-frame errors l nfat last v f r mid.clusters f.disk in
      let (f', run, r', rest) =
        relink_lem errors l nfat last v mid mid_r p c t ok.p_lo ok.p_hi ok.t_lo ok.t_hi ok.c_lo
          ok.c_hi differ ok.next_is in
      (
        f',
        run_to_relink ∙ run,
        Represents-ext errors l nfat last _ f' r' (renamed c t v) (λ m lo hi.
            moved-renamed errors l nfat last v mid mid_r p c t ok.p_lo ok.p_hi ok.t_lo ok.t_hi
              ok.c_lo ok.c_hi differ ok.next_is m ok.at ok.free ok.straight (ok.alone m lo hi)
              (ok.unreferred m lo hi) (ok.unreferred c ok.c_lo ok.c_hi)
              (ok.alone c ok.c_lo ok.c_hi (λ e. ok.straight (sym e)))),
        λ k.
            ap (λ (g : Fat h). h.tfind k g.clusters) rest
            ∙ (move-tfind h errors f.clusters held.u t k).0
            ∙ rw (held-n held) refl,
      )
