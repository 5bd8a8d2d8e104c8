-- ===== src/Table/Find.antt =====
-- `fatclusterfindfreebetween` finds the first free cluster behind its start, or round the interval.
use libllfat.Prelude.{
  ℕ, zero, suc, ◌+◌, ◌-◌, ◌≤◌, ◌<◌, ◌≡◌, ◌≢◌, ◌⊎◌, refl, ◌∙◌, arith, ◌==◌, if◌then◌else◌, Option,
  none, some, List, Bool-cases, inl, inr,
}
use libllfat.Prelude.Int.{ℤ, pos, eqb_ℤ}
use libllfat.Units.Host.{Host}
use libllfat.Units.Io.{SimulatedError}
use libllfat.Boot.Root.{fat_err}
use libllfat.Fs.State.{Fat}
use libllfat.Table.Next.{fat_unused}
use libllfat.Table.Scan.{
  is_between, interval_next, is_regular, start_from, find_free, find_free_sequence_between,
  find_free_between,
}
use libllfat.Table.View.{View, with_last}

-- The first free cluster among `len` clusters from `c` on.
unfoldable pub first_free : (ℕ → ℤ) → (c len : ℕ) → Option ℕ
first_free v c zero = none
first_free v c (suc len) =
    let rest = first_free v (c + 1) len in if eqb_ℤ (v c) fat_unused then some c else rest

abbrev pub or_else : Option ℕ → Option ℕ → Option ℕ
or_else (some c) other = some c
or_else none other = other

-- A cluster that is found is kept as the last one found.
abbrev pub outcome : {h : Host} → Fat h → Option ℕ → Option (ℤ × Fat h)
outcome f (some c) = some (pos c, with_last f (pos c))
outcome f none = some (fat_err, f)

module _ {h : Host} (errors : List SimulatedError) (last : ℕ) (v : ℕ → ℤ) (f : Fat h)
    (view : View errors last v f) where
  -- One round of the loop, in a search for one cluster.
  round :
      (fuel cl first begin end start : ℕ)
      → 2 ≤ cl
      → cl ≤ last
      → find_free errors (suc fuel) cl first 0 begin end start 1 f ≡ (
          if eqb_ℤ (v cl) fat_unused
          then some (pos cl, with_last f (pos cl))
          else if interval_next last cl begin end == start
          then some (fat_err, f)
          else find_free errors fuel (interval_next last cl begin end) first 0 begin end start 1 f)
  unfolding find_free
  round fuel cl first begin end start lo hi =
      ground (arith, view.reads f.last cl lo hi, view.bound f.last)

  -- The way from `begin` up to the cluster before `start`.
  second_leg :
      (len fuel c first begin end start : ℕ)
      → 2 ≤ c
      → end ≤ last
      → begin ≤ c
      → c + suc len ≡ start
      → start ≤ end
      → len < fuel
      → find_free errors fuel c first 0 begin end start 1 f ≡ outcome f (first_free v c (suc len))
  unfolding first_free interval_next
  second_leg len zero c first begin end start lo hi b e s enough = absurd (omega arith)
  second_leg zero (suc fuel) c first begin end start lo hi b e s enough =
      round fuel c first begin end start lo (omega arith) ∙ ground arith
  second_leg (suc len) (suc fuel) c first begin end start lo hi b e s enough =
      round fuel c first begin end start lo (omega arith)
      ∙ ground (arith, second_leg len fuel (c + 1) first begin end start)

  -- The way from `start` up to `end`, and on from `begin`.
  first_leg :
      (len fuel c first begin end start : ℕ)
      → 2 ≤ begin
      → end ≤ last
      → begin ≤ start
      → start ≤ c
      → c + len ≡ end
      → len + (start - begin) < fuel
      → find_free errors fuel c first 0 begin end start 1 f
        ≡ outcome f (or_else (first_free v c (suc len)) (first_free v begin (start - begin)))
  unfolding first_free interval_next
  first_leg len zero c first begin end start lo hi b s e enough = absurd (omega arith)
  first_leg zero (suc fuel) c first begin end start lo hi b s e enough =
      elim (Bool-cases (begin == start)) [
        | inl same ↦
            let width : start - begin ≡ 0 = ground arith in
            round fuel c first begin end start (omega arith) (omega arith) ∙ rw width (ground arith)
        | inr ne ↦
            let width : start - begin ≡ suc (start - begin - 1) = ground arith in
            let again = second_leg (start - begin - 1) fuel begin first begin end start in
            round fuel c first begin end start (omega arith) (omega arith)
            ∙ rw width (ground (arith, again))
      ]
  first_leg (suc len) (suc fuel) c first begin end start lo hi b s e enough =
      round fuel c first begin end start (omega arith) (omega arith)
      ∙ ground (arith, first_leg len fuel (c + 1) first begin end start)

  -- Where each successor can be read and reading it changes nothing, as where the sectors of the
  -- table are cached, and on an interval of regular clusters that does not wrap,
  -- fatclusterfindfreebetween with a start in it ends and returns the first free cluster from the
  -- start on, or else the first one before the start, and changes nothing but that it keeps it as
  -- the last one found; if all are in use it returns FAT_ERR and changes nothing.
  pub find_free_between-first :
      (begin end start : ℕ)
      → 2 ≤ begin
      → begin ≤ start
      → start ≤ end
      → end ≤ last
      → find_free_between errors begin end (some start) f
        ≡ outcome f
            (or_else (first_free v start (suc (end - start))) (first_free v begin (start - begin)))
  unfolding find_free_between find_free_sequence_between is_regular is_between start_from
  find_free_between-first begin end start b s e hi =
      let run =
        first_leg (end - start) (suc last) start 0 begin end start b hi s (omega arith)
          (omega arith) (omega arith) in
      ground (arith, view.bound f.last, run)

-- What the first free cluster is.
pub first_free_lem :
    (v : ℕ → ℤ) (c len : ℕ)
    → ((m : ℕ) × (first_free v c len ≡ some m)
        × (v m ≡ fat_unused)
        × (c ≤ m)
        × (m < c + len)
        × ((k : ℕ) → c ≤ k → k < m → v k ≢ fat_unused))
      ⊎ (first_free v c len ≡ none) × ((k : ℕ) → c ≤ k → k < c + len → v k ≢ fat_unused)
unfolding first_free
first_free_lem v c zero = inr (refl, λ k lo hi. absurd (omega arith))
first_free_lem v c (suc len) = elim (Bool-cases (eqb_ℤ (v c) fat_unused)) [
  | inl free ↦
      inl (c, ground arith, ground arith, omega arith, omega arith, λ k lo hi. absurd (omega arith))
  | inr used ↦ elim (first_free_lem v (c + 1) len) [
    | inl (m, e, free, lo, hi, before) ↦
        inl (m, ground arith, free, omega arith, omega arith, λ k lo' hi'. ground (arith, before k))
    | inr (e, all) ↦ inr (ground arith, λ k lo hi. ground (arith, all k))
  ]
]
