-- ===== src/Directory/FreeFound.antt =====
-- Which position `fatfindfreeentry` returns.
use libllfat.Prelude.{
  ℕ, zero, suc, ◌+◌, ◌-◌, ◌/◌, ◌≡◌, ◌≤◌, ◌<◌, refl, ap, ◌∙◌, arith, true, false, if◌then◌else◌,
  Option, none, some, List, [], ◌∷◌, Bool-cases, inl, inr,
}
use libllfat.Prelude.Int.{ℤ, pos, minus_one, ◌+ℤ◌}
use libllfat.Units.{FatUnit}
use libllfat.Units.Host.{Host}
use libllfat.Units.Io.{SimulatedError}
use libllfat.Fs.State.{Fat, ◌>>=◌}
use libllfat.Entry.Fields.{entry_exists, entry_end}
use libllfat.Directory.Walk.{at_entry, next_entry}
use libllfat.Directory.Free.{Position, at_position, extend_directory, find_free_entry}
use libllfat.Directory.Found.{
  Here, Follows, entries, cached_lem, from_inside, from_last, from_next, next_lem,
}

-- The first free entry from the entry `i` of `u` on, of which `left` are left, and in the clusters `us`
-- behind it; with its index there is the cluster of the entry before it.
abbrev pub free_from : (before : ℕ) → FatUnit → (left i : ℕ) → List FatUnit → Option (ℕ × ℕ)
free_from before u zero i [] = none
free_from before u zero i (w ∷ ws) = free_from u.n w (w.size / 32) 0 ws
free_from before u (suc left) i us =
    let later = free_from u.n u left (i + 1) us in
    if entry_exists u i then later else some (before, i)

-- The last cluster of a directory.
abbrev pub last_of : FatUnit → List FatUnit → ℕ
last_of u [] = u.n
last_of u (w ∷ ws) = last_of w ws

module _ {h : Host} (errors : List SimulatedError) (v : ℕ → ℤ) (f : Fat h) where
  -- The position that is found, or that of a new cluster.
  abbrev pub settled : ℕ → Option (ℕ × ℕ) → Option (Position × Fat h)
  settled last none = extend_directory errors last f
  settled last (some (d, i)) = some (at_position d i, f)

  end-exists : (u : FatUnit) (i : ℕ) → entry_end (some u) i ≡ true → entry_exists u i ≡ false
  unfolding entry_exists entry_end
  end-exists u i e = ground arith

  abbrev FindsFree : ℕ → Type 0
  FindsFree fuel =
      (before : ℕ) (index : ℤ) (u : FatUnit) (us : List FatUnit) (left i : ℕ)
      → next_entry errors before index f ≡ some (at_entry u i, f)
      → Here errors v f u
      → Follows errors v f u us
      → i + suc left ≡ u.size / 32
      → left + entries us + 1 < fuel
      → find_free_entry errors fuel before index f
        ≡ settled (last_of u us) (free_from before u (suc left) i us)

  further :
      (fuel : ℕ) (u : FatUnit) (us : List FatUnit) (left i : ℕ)
      → FindsFree fuel
      → Here errors v f u
      → Follows errors v f u us
      → i + suc left ≡ u.size / 32
      → left + entries us + 1 < suc fuel
      → find_free_entry errors fuel u.n (pos i) f
        ≡ settled (last_of u us) (free_from u.n u left (i + 1) us)
  unfolding find_free_entry
  further fuel u us (suc left) i finds here follows sum enough =
      finds u.n (pos i) u us left (i + 1)
        (next_lem errors v f u.n i ∙ from_inside errors v f u (i + 1) here (omega arith)) here
        follows (omega arith) (omega arith)
  further zero u [] zero i finds here follows sum enough = absurd (omega arith)
  further (suc fuel) u [] zero i finds here follows sum enough =
      let (r, run, nonzero) = from_last errors v f u (i + 1) here (omega arith) follows in
      rw (find_free_entry, ◌>>=◌, next_lem errors v f u.n i, run) refl
  further fuel u (w ∷ ws) zero i finds here (at, lo, there, follows) sum enough =
      let count : suc (w.size / 32 - 1) ≡ w.size / 32 = omega (arith, there.2) in
      let step =
        next_lem errors v f u.n i
        ∙ from_next errors v f u w (i + 1) here (omega arith) at lo there in
      finds u.n (pos i) w ws (w.size / 32 - 1) 0 step there follows (omega arith) (omega arith)
      ∙ ap (λ (k : ℕ). settled (last_of w ws) (free_from u.n w k 0 ws)) count

  free_lem : (fuel : ℕ) → FindsFree fuel
  unfolding find_free_entry
  free_lem zero before index u us left i step here follows sum enough = absurd (omega arith)
  free_lem (suc fuel) before index u us left i step here follows sum enough =
      elim (Bool-cases (entry_end (some u) i)) [
        | inl e ↦ rw (find_free_entry, ◌>>=◌, step, e, end-exists u i e) refl
        | inr e ↦ elim (Bool-cases (entry_exists u i)) [
          | inl used ↦
              rw (find_free_entry, ◌>>=◌, step, e, cached_lem errors v f u here, used)
                (further fuel u us left i (free_lem fuel) here follows sum enough)
          | inr free ↦ rw (find_free_entry, ◌>>=◌, step, e, cached_lem errors v f u here, free) refl
        ]
      ]

  -- fatfindfreeentry from before the first entry of a directory whose clusters are all cached, and
  -- whose successors can be read without a change: it ends, and if there is a free entry it
  -- changes nothing and returns the index of the first one, with the cluster of the entry before
  -- it, or the first cluster for the first entry; otherwise it goes on to extend the directory
  -- behind its last cluster.
  pub find_free_entry-first :
      (fuel : ℕ) (u : FatUnit) (us : List FatUnit)
      → Here errors v f u
      → Follows errors v f u us
      → entries (u ∷ us) < fuel
      → find_free_entry errors fuel u.n minus_one f
        ≡ settled (last_of u us) (free_from u.n u (u.size / 32) 0 us)
  unfolding next_entry ◌+ℤ◌
  find_free_entry-first fuel u us here follows enough =
      let count : suc (u.size / 32 - 1) ≡ u.size / 32 = omega (arith, here.2) in
      let step : next_entry errors u.n minus_one f ≡ some (at_entry u 0, f) =
        from_inside errors v f u 0 here here.2 in
      free_lem fuel u.n minus_one u us (u.size / 32 - 1) 0 step here follows (omega arith)
        (omega arith)
      ∙ ap (λ (k : ℕ). settled (last_of u us) (free_from u.n u k 0 us)) count

free_from-used :
    (before : ℕ) (u w : FatUnit) (ws : List FatUnit) (left i : ℕ)
    → ((j : ℕ) → j < i + left → entry_exists u j ≡ true)
    → free_from before u left i (w ∷ ws) ≡ free_from u.n w (w.size / 32) 0 ws
free_from-used before u w ws zero i used = refl
free_from-used before u w ws (suc left) i used =
    rw (used i (omega arith))
      (free_from-used u.n u w ws left (i + 1) (λ j lt. used j (omega arith)))

free_from-head :
    (before : ℕ) (w : FatUnit) (ws : List FatUnit) (left : ℕ)
    → 1 ≤ left
    → entry_exists w 0 ≡ false
    → free_from before w left 0 ws ≡ some (before, 0)
free_from-head before w ws zero le free = absurd (omega arith)
free_from-head before w ws (suc left) le free = rw free refl

-- In a directory whose clusters are all cached, and whose successors can be read without a change,
-- where all entries of the first cluster are in use and the first one of the second cluster is
-- free, fatfindfreeentry returns success with the first entry of the first cluster, which is in
-- use.
pub find_free_entry-taken :
    {h : Host} (errors : List SimulatedError) (v : ℕ → ℤ) (f : Fat h) (fuel : ℕ) (u w : FatUnit)
    (ws : List FatUnit)
    → Here errors v f u
    → Follows errors v f u (w ∷ ws)
    → entries (u ∷ w ∷ ws) < fuel
    → ((j : ℕ) → j < u.size / 32 → entry_exists u j ≡ true)
    → entry_exists w 0 ≡ false
    → (find_free_entry errors fuel u.n minus_one f ≡ some (at_position u.n 0, f))
      × (entry_exists u 0 ≡ true)
find_free_entry-taken errors v f fuel u w ws here follows enough used free = (
  find_free_entry-first errors v f fuel u (w ∷ ws) here follows enough
      ∙ ap (settled errors v f (last_of u (w ∷ ws))) (
          free_from-used u.n u w ws (u.size / 32) 0 (λ j lt. used j (omega arith))
          ∙ free_from-head u.n w ws (w.size / 32) follows.2.2 free),
  used 0 (omega (arith, here.2)),
)
