-- ===== src/Table/Window.antt =====
-- `fatclustermostfree` slides a window over the table; it finds the window with most free clusters.
use libllfat.Prelude.{
  ℕ, zero, suc, ◌+◌, ◌-◌, ◌≤◌, ◌<◌, ◌≡◌, refl, ap, ◌∙◌, arith, Bool, true, false, ◌==◌, ltb,
  if◌then◌else◌, some, List, Bool-cases, inl, inr, ◌&&◌, ◌||◌,
}
use libllfat.Prelude.Int.{ℤ, pos, eqb_ℤ}
use libllfat.Units.Host.{Host}
use libllfat.Units.Io.{SimulatedError}
use libllfat.Boot.Root.{fat_err}
use libllfat.Fs.State.{Fat, ◌>>=◌}
use libllfat.Fs.Geometry.{num_data_clusters}
use libllfat.Table.Next.{fat_unused, fat_bad}
use libllfat.Table.Scan.{interval_next, area_bad, num_bad_between, num_free_between}
use libllfat.Table.View.{View}
use libllfat.Table.Count.{free_in, free_between, num_free_between-count}
use libllfat.Table.Areas.{Best, better, slide, slide_window, most_free}

abbrev one : ℤ → ℤ → ℕ
one mark x = if eqb_ℤ x mark then 1 else 0

-- How many of `len` clusters from `c` on have the successor `mark`.
unfoldable pub marked : ℤ → (ℕ → ℤ) → (c len : ℕ) → ℕ
marked mark v c zero = 0
marked mark v c (suc len) = one mark (v c) + marked mark v (c + 1) len

marked-snoc :
    (mark : ℤ) (v : ℕ → ℤ) (c len : ℕ)
    → marked mark v c (suc len) ≡ marked mark v c len + one mark (v (c + len))
unfolding marked
marked-snoc mark v c zero = let e : c + 0 ≡ c = omega arith in rw e (omega arith)
marked-snoc mark v c (suc len) =
    let e : c + 1 + len ≡ c + suc len = omega arith in
    omega (arith, marked-snoc mark v (c + 1) len, ap (λ (k : ℕ). one mark (v k)) e)

pub marked-le : (mark : ℤ) (v : ℕ → ℤ) (c len : ℕ) → marked mark v c len ≤ len
unfolding marked
marked-le mark v c zero = omega arith
marked-le mark v c (suc len) = ground (arith, marked-le mark v (c + 1) len)

free_in-marked : (v : ℕ → ℤ) (c len : ℕ) → free_in v c len ≡ marked fat_unused v c len
unfolding free_in marked
free_in-marked v c zero = refl
free_in-marked v c (suc len) = ground (arith, free_in-marked v (c + 1) len)

-- The count of one window from that of the window before it.
slide-marked :
    (mark : ℤ) (v : ℕ → ℤ) (s k : ℕ)
    → slide mark (v s) (v (s + 1 + k)) (marked mark v s (suc k)) ≡ marked mark v (s + 1) (suc k)
unfolding marked
slide-marked mark v s k = ground (arith, marked-snoc mark v (s + 1) k)

-- A window that may be chosen.
abbrev pub clean : (ℕ → ℤ) → (size : ℕ) → Bool → ℕ → Bool
clean v size allow s = allow || marked fat_bad v s size == 0

-- The search that counts every window anew, over the `k` windows from `start` on.
unfoldable pub windows : (ℕ → ℤ) → (size : ℕ) → Bool → (k start : ℕ) → Best → Best
windows v size allow zero start best = best
windows v size allow (suc k) start best =
    let free = marked fat_unused v start size in
    let bad = marked fat_bad v start size in
    let best' = better allow start free bad best in
    let rest = windows v size allow k (start + 1) best' in
    if ltb best.most free && ((allow || bad == 0) && free == size) then best' else rest

module _ {h : Host} (errors : List SimulatedError) (last : ℕ) (v : ℕ → ℤ) (f : Fat h)
    (view : View errors last v f) where
  -- One round of the loop of `_fatclusterareabad`, which counts.
  bad_round :
      (fuel c begin end num : ℕ)
      → 2 ≤ c
      → c ≤ last
      → area_bad errors (suc fuel) c begin end num false f ≡ (
          if interval_next last c begin end == begin
          then some (pos (num + one fat_bad (v c)), f)
          else area_bad errors fuel
              (interval_next last c begin end)
              begin
              end
              (num + one fat_bad (v c))
              false
              f)
  unfolding area_bad
  bad_round fuel c begin end num lo hi =
      ground (arith, view.reads f.last c lo hi, view.bound f.last)

  -- `fatclusternumbadbetween` on an interval that does not wrap.
  bad_lem :
      (len fuel c begin end num : ℕ)
      → 2 ≤ c
      → begin ≤ c
      → end ≤ last
      → c + len ≡ end
      → len < fuel
      → area_bad errors fuel c begin end num false f
        ≡ some (pos (num + marked fat_bad v c (suc len)), f)
  unfolding interval_next marked
  bad_lem len zero c begin end num lo b hi e enough = absurd (omega arith)
  bad_lem zero (suc fuel) c begin end num lo b hi e enough =
      bad_round fuel c begin end num lo (omega arith) ∙ ground arith
  bad_lem (suc len) (suc fuel) c begin end num lo b hi e enough =
      bad_round fuel c begin end num lo (omega arith)
      ∙ ground (arith, bad_lem len fuel (c + 1) begin end (num + one fat_bad (v c)))

  module _ (size' : ℕ) (allow : Bool) where
    abbrev size : ℕ
    size = suc size'

    slide_lem :
        (k fuel s : ℕ) (best : Best)
        → 2 ≤ s
        → s + 1 + size + k ≡ last + 2
        → k < fuel
        → slide_window errors size allow fuel
            (s + 1)
            (marked fat_unused v s size)
            (marked fat_bad v s size)
            best
            f
          ≡ some (windows v size allow k (s + 1) best, f)
    unfolding slide_window windows
    slide_lem k zero s best lo e enough = absurd (omega arith)
    slide_lem zero (suc fuel) s best lo e enough =
        let over : ltb (last + 0) (s + 1 + size - 1 + 0) ≡ true = ground arith in
        rw (view.bound f.last, ◌>>=◌, over) refl
    slide_lem (suc k) (suc fuel) s best lo e enough =
        let inside : ltb (last + 0) (s + 1 + size - 1 + 0) ≡ false = ground arith in
        let before : s + 1 - 1 ≡ s = omega arith in
        let behind : s + 1 + size - 1 ≡ s + 1 + size' = omega arith in
        let free = marked fat_unused v (s + 1) size in
        let bad = marked fat_bad v (s + 1) size in
        let best' = better allow (s + 1) free bad best in
        let done = ltb best.most free && ((allow || bad == 0) && free == size) in
        let again = slide_lem k fuel (s + 1) best' (omega arith) (omega arith) (omega arith) in
        rw
          (
            view.bound f.last,
            ◌>>=◌,
            inside,
            before,
            view.reads f.last s lo (omega arith),
            ◌>>=◌,
            behind,
            view.reads f.last (s + 1 + size') (omega arith) (omega arith),
            ◌>>=◌,
            slide-marked fat_unused v s size',
            slide-marked fat_bad v s size',
          )
          (elim (Bool-cases done) [ inl e ↦ rw e refl | inr e ↦ rw e again ])

    free_lem :
        2 + size' ≤ last
        → num_free_between errors 2 (2 + size') f ≡ some (marked fat_unused v 2 size, f)
    unfolding free_between
    free_lem hi =
        let width : 2 + size' + 1 - 2 ≡ size = omega arith in
        let up : ltb (2 + size') 2 ≡ false = ground arith in
        num_free_between-count errors last v f view 2 (2 + size') (omega arith) (omega arith)
          (omega arith) hi
        ∙ rw (up, width, free_in-marked v 2 size) refl

    bad_free_lem :
        2 + size' ≤ last
        → num_bad_between errors 2 (2 + size') f ≡ some (pos (marked fat_bad v 2 size), f)
    unfolding num_bad_between
    bad_free_lem hi =
        let run =
          bad_lem size' (suc last) 2 2 (2 + size') 0 (omega arith) (omega arith) hi (omega arith)
            (omega arith) in
        let none_before : 0 + marked fat_bad v 2 size ≡ marked fat_bad v 2 size = omega arith in
        rw (view.bound f.last, ◌>>=◌) (run ∙ ap (λ (k : ℕ). some (pos k, f)) none_before)

    -- The best window, with the first one as the first candidate.
    abbrev pub first_window : Best
    first_window =
        if clean v size allow 2
        then record { most = marked fat_unused v 2 size; where_at = pos 2 }
        else record { most = 0; where_at = fat_err }

    abbrev pub best_window : Best
    best_window =
        if clean v size allow 2 && marked fat_unused v 2 size == size
        then first_window
        else windows v size allow (last - 1 - size) 3 first_window

    -- For an area that fits twice round the last cluster, `fatclustermostfree` with its running counts
    -- returns what the search does that counts every window anew.
    pub most_free-windows :
        num_data_clusters f ≡ some (pos (last - 1), f)
        → 2 + size ≤ last
        → most_free errors size allow f ≡ some (best_window, f)
    unfolding most_free
    most_free-windows clusters fits =
        let enough : ltb (last - 1 + 0) (size + 0) ≡ false = ground arith in
        let enough' : ltb (last + 0) (2 + size + 0) ≡ false = ground arith in
        let again =
          slide_lem (last - 1 - size) (suc last) 2 first_window (omega arith) (omega arith)
            (omega arith) in
        let behind : 2 + size - 1 ≡ 2 + size' = omega arith in
        rw
          (
            clusters,
            ◌>>=◌,
            view.bound f.last,
            ◌>>=◌,
            enough,
            enough',
            behind,
            free_lem (omega arith),
            ◌>>=◌,
            behind,
            bad_free_lem (omega arith),
            ◌>>=◌,
          )
          (elim (Bool-cases (clean v size allow 2 && marked fat_unused v 2 size == size)) [
            | inl e ↦ rw e refl
            | inr e ↦ rw e again
          ])
