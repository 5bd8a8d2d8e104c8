-- ===== src/Table/Areas.antt =====
-- lib/table.c: the area with most free clusters, and the longest linear part of a chain.
use libllfat.Prelude.{ℕ, zero, suc, ◌+◌, ◌-◌, Bool, not, ◌&&◌, ◌||◌, ◌==◌, ltb, if◌then◌else◌, List}
use libllfat.Prelude.Int.{ℤ, pos, pos_part, eqb_ℤ, ltb_ℤ, ◌+ℤ◌, ◌-ℤ◌}
use libllfat.Units.Host.{Host}
use libllfat.Units.Io.{SimulatedError}
use libllfat.Boot.Root.{fat_err}
use libllfat.Fs.State.{M, pure, exit, ◌>>=◌}
use libllfat.Fs.Geometry.{last_cluster, num_data_clusters}
use libllfat.Table.Next.{fat_unused, fat_eof, fat_bad, fat_first, get_next_cluster}
use libllfat.Table.Scan.{num_free_between, num_bad_between}

-- A count after the cluster `out` has left the window, and `in` has entered it.
abbrev pub slide : ℤ → ℤ → ℤ → ℕ → ℕ
slide mark out into n =
    let less = if eqb_ℤ out mark then n - 1 else n in if eqb_ℤ into mark then less + 1 else less

-- The best window so far: how many of its clusters are free, and where it begins.
pub record Best : Type 0 where
  pub most : ℕ
  pub where_at : ℤ

-- A window with more free clusters than the best one, and no bad cluster unless they are allowed.
abbrev pub better : Bool → (start free bad : ℕ) → Best → Best
better allow start free bad best =
    if ltb best.most free && (allow || bad == 0)
    then record { most = free; where_at = pos start }
    else best

module _ {h : Host} (errors : List SimulatedError) (size : ℕ) (allow : Bool) where
  -- The loop of `fatclustermostfree`, with a window that begins at `start`.
  unfoldable pub slide_window : (fuel start free bad : ℕ) → Best → M h Best
  slide_window zero start free bad best = exit
  slide_window (suc fuel) start free bad best = do
    last ← last_cluster
    if ltb_ℤ last (pos (start + size - 1)) then pure best else (do
      out ← get_next_cluster errors (pos (start - 1))
      into ← get_next_cluster errors (pos (start + size - 1))
      let free' = slide fat_unused out into free
      let bad' = slide fat_bad out into bad
      let best' = better allow start free' bad' best
      let done = ltb best.most free' && ((allow || bad' == 0) && free' == size)
      let rest = slide_window fuel (start + 1) free' bad' best'
      if done then pure best' else rest)

  -- The result, and `*maxfree`; it is 0 where the code leaves it unset. `size` is positive.
  unfoldable pub most_free : M h Best
  most_free = do
    clusters ← num_data_clusters
    last ← last_cluster
    if ltb_ℤ clusters (pos size) || ltb_ℤ last (pos (fat_first + size))
        then pure (record { most = 0; where_at = fat_err })
        else (do
          free ← num_free_between errors fat_first (fat_first + size - 1)
          bad ← num_bad_between errors fat_first (fat_first + size - 1)
          let clean = allow || eqb_ℤ bad (pos 0)
          let best =
              if clean
              then record { most = free; where_at = pos fat_first }
              else record { most = 0; where_at = fat_err }
          if clean && free == size
              then pure best
              else slide_window (suc (pos_part last)) (fat_first + 1) free (pos_part bad) best)

-- What `fatclusterlongestlinear` keeps: the length so far, the index, and the best part.
pub record Linear : Type 0 where
  pub len : ℕ
  pub index : ℕ
  pub max_len : ℕ
  pub max_index : ℕ
  pub max_start : ℤ

abbrev pub extend : ℤ → ℤ → Linear → Linear
extend start next s =
    if not (eqb_ℤ next (start +ℤ pos 1))
    then record s { len = 1; index = s.index + 1 }
    else if ltb s.max_len (s.len + 1)
    then record s {
      len = s.len + 1;
      index = s.index + 1;
      max_len = s.len + 1;
      max_index = s.index - s.len;
      max_start = next -ℤ pos s.len;
    }
    else record s { len = s.len + 1; index = s.index + 1 }

module _ {h : Host} (errors : List SimulatedError) where
  unfoldable pub longest_from : (fuel : ℕ) → (start next : ℤ) → Linear → M h Linear
  longest_from zero start next s = exit
  longest_from (suc fuel) start next s =
      let more = (do
        next' ← get_next_cluster errors next
        longest_from fuel next next' (extend start next s)) in
      if eqb_ℤ next fat_eof || eqb_ℤ next fat_unused then pure s else more

  unfoldable pub longest_linear : (fuel : ℕ) → ℤ → M h Linear
  longest_linear fuel start = do
    next ← get_next_cluster errors start
    longest_from fuel start next
        (record { len = 1; index = 1; max_len = 1; max_index = 1; max_start = start })
