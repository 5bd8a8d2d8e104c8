-- ===== src/Table/Count.antt =====
-- `fatclusternumfreebetween` counts the free clusters of an interval, also of one that wraps.
use libllfat.Prelude.{
  ℕ, zero, suc, ◌+◌, ◌-◌, ◌≤◌, ◌<◌, ◌≡◌, ◌∙◌, arith, ◌==◌, ltb, if◌then◌else◌, some, List, ◌⊎◌,
  Bool-cases, inl, inr,
}
use libllfat.Prelude.Int.{ℤ, pos, eqb_ℤ}
use libllfat.Units.Host.{Host}
use libllfat.Units.Io.{SimulatedError}
use libllfat.Fs.State.{Fat}
use libllfat.Fs.Geometry.{last_cluster}
use libllfat.Table.Next.{fat_unused, get_next_cluster}
use libllfat.Table.Scan.{is_between, interval_next, is_regular, count_free, num_free_between}
use libllfat.Table.View.{View}

-- The free clusters among `len` clusters from `c` on.
unfoldable pub free_in : (ℕ → ℤ) → (c len : ℕ) → ℕ
free_in v c zero = 0
free_in v c (suc len) = (if eqb_ℤ (v c) fat_unused then 1 else 0) + free_in v (c + 1) len

-- The free clusters of an interval: from `begin` to `end`, or round the end of the filesystem.
unfoldable pub free_between : (ℕ → ℤ) → (last begin end : ℕ) → ℕ
free_between v last begin end =
    if ltb end begin
    then free_in v begin (last + 1 - begin) + free_in v 2 (end - 1)
    else free_in v begin (end + 1 - begin)

module _ {h : Host} (errors : List SimulatedError) (last : ℕ) (v : ℕ → ℤ) (f : Fat h)
    (view : View errors last v f) where
  read : (m : ℕ) → 2 ≤ m → m ≤ last → get_next_cluster errors (pos m) f ≡ some (v m, f)
  read m lo hi = view.reads f.last m lo hi

  bound : last_cluster f ≡ some (pos last, f)
  bound = view.bound f.last

  abbrev one : ℕ → ℕ
  one c = if eqb_ℤ (v c) fat_unused then 1 else 0

  -- One round of the loop.
  round :
      (fuel c begin end num : ℕ)
      → 2 ≤ c
      → c ≤ last
      → count_free errors (suc fuel) c begin end num f ≡ (
          if interval_next last c begin end == begin
          then some (num + one c, f)
          else count_free errors fuel (interval_next last c begin end) begin end (num + one c) f)
  unfolding count_free
  round fuel c begin end num lo hi = ground (arith, read c lo hi, bound)

  -- The part of the loop that rises to `end`, from `c` on.
  rise :
      (len fuel c begin end num : ℕ)
      → 2 ≤ c
      → end ≤ last
      → c + len ≡ end
      → len < fuel
      → begin ≤ c ⊎ end < begin
      → begin ≤ last
      → count_free errors fuel c begin end num f ≡ some (num + free_in v c (suc len), f)
  unfolding free_in interval_next
  rise zero zero c begin end num lo hi e enough side b = absurd (omega arith)
  rise (suc len) zero c begin end num lo hi e enough side b = absurd (omega arith)
  rise zero (suc fuel) c begin end num lo hi e enough side b =
      round fuel c begin end num lo (omega arith) ∙ ground arith
  rise (suc len) (suc fuel) c begin end num lo hi e enough side b =
      round fuel c begin end num lo (omega arith)
      ∙ ground (arith, rise len fuel (c + 1) begin end (num + one c))

  -- The part of a wrapping loop that rises to the last cluster, and goes on at the first.
  wrap :
      (len fuel c begin end num : ℕ)
      → begin ≤ c
      → end < begin
      → 2 ≤ end
      → c + len ≡ last
      → len + end ≤ fuel
      → count_free errors fuel c begin end num f
        ≡ some (num + free_in v c (suc len) + free_in v 2 (end - 1), f)
  unfolding free_in interval_next
  wrap zero zero c begin end num lo w two e enough = absurd (omega arith)
  wrap (suc len) zero c begin end num lo w two e enough = absurd (omega arith)
  wrap zero (suc fuel) c begin end num lo w two e enough =
      let again = rise (end - 2) fuel 2 begin end (num + one c) in
      let width : end - 1 ≡ suc (end - 2) = omega arith in
      round fuel c begin end num (omega arith) (omega arith) ∙ rw width (ground (arith, again))
  wrap (suc len) (suc fuel) c begin end num lo w two e enough =
      round fuel c begin end num (omega arith) (omega arith)
      ∙ ground (arith, wrap len fuel (c + 1) begin end (num + one c))

  -- Where each successor can be read and reading it changes nothing, as where the sectors of the
  -- table are cached, fatclusternumfreebetween of two regular clusters ends, changes nothing and
  -- returns the number of free clusters of the interval, also of one that wraps round the end of
  -- the filesystem.
  pub num_free_between-count :
      (begin end : ℕ)
      → 2 ≤ begin
      → begin ≤ last
      → 2 ≤ end
      → end ≤ last
      → num_free_between errors begin end f ≡ some (free_between v last begin end, f)
  unfolding num_free_between is_regular is_between free_between
  num_free_between-count begin end b₁ b₂ e₁ e₂ = elim (Bool-cases (ltb end begin)) [
    | inl w ↦
        let run = wrap (last - begin) (suc last) begin begin end 0 in
        let width : last + 1 - begin ≡ suc (last - begin) = omega arith in
        ground (arith, bound, run)
    | inr le ↦
        let run = rise (end - begin) (suc last) begin begin end 0 in
        let width : end + 1 - begin ≡ suc (end - begin) = ground arith in ground (arith, bound, run)
  ]
