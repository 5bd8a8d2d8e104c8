-- ===== src/Table/BestWindow.antt =====
-- The search over all windows finds one with most free clusters.
use libllfat.Prelude.{
  ℕ, zero, suc, ◌+◌, ◌-◌, ◌≤◌, ◌<◌, ◌≡◌, ◌⊎◌, refl, ap, sym, ◌∙◌, arith, Bool, true, ◌==◌, ltb,
  some, List, Bool-cases, inl, inr, ◌&&◌, ◌||◌,
}
use libllfat.Prelude.Int.{ℤ, pos}
use libllfat.Units.Host.{Host}
use libllfat.Units.Io.{SimulatedError}
use libllfat.Boot.Root.{fat_err}
use libllfat.Fs.State.{Fat}
use libllfat.Fs.Geometry.{num_data_clusters}
use libllfat.Table.Next.{fat_unused, fat_bad}
use libllfat.Table.View.{View}
use libllfat.Table.Areas.{Best, better, most_free}
use libllfat.Table.Window.{
  marked, marked-le, clean, windows, first_window, best_window, most_free-windows,
}

-- `best` is right about the windows that begin before `stop`: none that may be chosen has more free
-- clusters, and it is one of them, unless none with a free cluster may be chosen.
pub record IsBest (v : ℕ → ℤ) (size : ℕ) (allow : Bool) (stop : ℕ) (best : Best) : Type 0 where
  pub greatest :
      (s : ℕ)
      → 2 ≤ s
      → s < stop
      → clean v size allow s ≡ true
      → marked fat_unused v s size ≤ best.most
  pub found :
      ((s : ℕ) × (best.where_at ≡ pos s)
        × (2 ≤ s)
        × (s < stop)
        × (clean v size allow s ≡ true)
        × (best.most ≡ marked fat_unused v s size))
      ⊎ ((best.where_at ≡ fat_err) × (best.most ≡ 0))

module _ (v : ℕ → ℤ) (size : ℕ) (allow : Bool) where
  -- The number of free clusters of a window is at most its size.
  full-IsBest :
      (stop stop' : ℕ) (best : Best)
      → stop ≤ stop'
      → size ≤ best.most
      → IsBest v size allow stop best
      → IsBest v size allow stop' best
  full-IsBest stop stop' best le full b = record {
    greatest = λ s lo hi ok. omega (arith, marked-le fat_unused v s size);
    found = elim b.found [
      | inl (s, at, lo, hi, ok, e) ↦ inl (s, at, lo, omega arith, ok, e)
      | inr none ↦ inr none
    ];
  }

  better-IsBest :
      (start : ℕ) (best : Best)
      → 2 ≤ start
      → IsBest v size allow start best
      → IsBest v size allow
          (start + 1)
          (better allow start (marked fat_unused v start size) (marked fat_bad v start size) best)
  better-IsBest start best lo b =
      let free = marked fat_unused v start size in
      elim (Bool-cases (ltb best.most free && clean v size allow start)) [
        | inl e ↦ rw e (record {
          greatest = λ s lo' hi ok. ground (arith, b.greatest s);
          found = inl (start, refl, lo, omega arith, ground arith, refl);
        })
        | inr e ↦ rw e (record {
          greatest = λ s lo' hi ok. elim (Bool-cases (s == start)) [
            | inl same ↦
                let at : s ≡ start = ground arith in
                let ok' : clean v size allow start ≡ true =
                  ap (λ (k : ℕ). clean v size allow k) (sym at) ∙ ok in
                rw at (ground arith)
            | inr other ↦ b.greatest s lo' (ground arith) ok
          ];
          found = elim b.found [
            | inl (s, at, lo', hi, ok, same) ↦ inl (s, at, lo', omega arith, ok, same)
            | inr none ↦ inr none
          ];
        })
      ]

  windows-IsBest :
      (k start : ℕ) (best : Best)
      → 2 ≤ start
      → IsBest v size allow start best
      → IsBest v size allow (start + k) (windows v size allow k start best)
  unfolding windows
  windows-IsBest zero start best lo b = let e : start + 0 ≡ start = omega arith in rw e b
  windows-IsBest (suc k) start best lo b =
      let free = marked fat_unused v start size in
      let bad = marked fat_bad v start size in
      let best' = better allow start free bad best in
      let b' = better-IsBest start best lo b in
      let e : start + 1 + k ≡ start + suc k = omega arith in
      elim (Bool-cases (ltb best.most free && ((allow || bad == 0) && free == size))) [
        | inl done ↦
            rw done (full-IsBest (start + 1) (start + suc k) best' (omega arith) (ground arith) b')
        | inr more ↦ rw more (rw (← e) (windows-IsBest k (start + 1) best' (omega arith) b'))
      ]

module _ {h : Host} (errors : List SimulatedError) (last : ℕ) (v : ℕ → ℤ) (f : Fat h)
    (view : View errors last v f) (size' : ℕ) (allow : Bool) where
  abbrev size : ℕ
  size = suc size'

  first-IsBest : IsBest v size allow 3 (first_window errors last v f view size' allow)
  first-IsBest = elim (Bool-cases (clean v size allow 2)) [
    | inl ok ↦ rw ok (record {
      greatest = λ s lo hi ok'.
          let at : s ≡ 2 = omega arith in
          omega (arith, ap (λ (k : ℕ). marked fat_unused v k size) at);
      found = inl (2, refl, omega arith, omega arith, ok, refl);
    })
    | inr no_way ↦ rw no_way (record {
      greatest = λ s lo hi ok'.
          let at : s ≡ 2 = omega arith in
          absurd (ground (arith, ap (λ (k : ℕ). clean v size allow k) at));
      found = inr (refl, refl);
    })
  ]

  window-IsBest :
      2 + size ≤ last
      → IsBest v size allow (last + 2 - size) (best_window errors last v f view size' allow)
  window-IsBest fits =
      let first = first_window errors last v f view size' allow in
      let b = first-IsBest in
      let e : 3 + (last - 1 - size) ≡ last + 2 - size = omega arith in
      elim (Bool-cases (clean v size allow 2 && marked fat_unused v 2 size == size)) [
        | inl done ↦
            rw done
              (full-IsBest v size allow 3 (last + 2 - size) first (omega arith) (ground arith) b)
        | inr more ↦
            rw more
              (rw (← e) (windows-IsBest v size allow (last - 1 - size) 3 first (omega arith) b))
      ]

  -- Where each successor can be read and reading it changes nothing, as where the sectors of the
  -- table are cached, fatclustermostfree of a positive size that leaves room for one more cluster
  -- ends, changes nothing, and returns an area of that size with most free clusters, and their
  -- number, or FAT_ERR, but this only if no area that may be chosen has a free cluster; areas with
  -- bad clusters may be chosen only if they are allowed.
  pub most_free-IsBest :
      num_data_clusters f ≡ some (pos (last - 1), f)
      → 2 + size ≤ last
      → (best : Best) × (most_free errors size allow f ≡ some (best, f))
        × IsBest v size allow (last + 2 - size) best
  most_free-IsBest clusters fits = (
    best_window errors last v f view size' allow,
    most_free-windows errors last v f view size' allow clusters fits,
    window-IsBest fits,
  )
