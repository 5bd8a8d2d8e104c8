-- ===== src/Directory/Found.antt =====
-- `fatlookupfile` finds the first entry of a name.
use libllfat.Prelude.{
  ℕ, zero, suc, ◌+◌, ◌-◌, ◌/◌, ◌≡◌, ◌≤◌, ◌<◌, refl, ap, ◌∙◌, arith, Bool, true, false, ◌||◌, ltb,
  if◌then◌else◌, Option, none, some, List, [], ◌∷◌, Bool-cases, inl, inr,
}
use libllfat.Prelude.Int.{ℤ, pos, negsuc, minus_one, pos_part, eqb_ℤ, ltb_ℤ, ◌+ℤ◌}
use libllfat.Bytes.{Bytes}
use libllfat.Units.{FatUnit}
use libllfat.Units.Host.{Host}
use libllfat.Units.Io.{SimulatedError}
use libllfat.Fs.State.{Fat, ◌>>=◌}
use libllfat.Entry.Fields.{entry_end}
use libllfat.Entry.Names.{get_short_name}
use libllfat.Table.Next.{fat_eof, fat_unused, get_next_cluster}
use libllfat.Table.Position.{cluster_read}
use libllfat.Reference.Target.{cached_cluster}
use libllfat.Reference.Renames.{IsHeld, cluster_read_lem}
use libllfat.Directory.Walk.{
  at_entry, nowhere, entry_from, next_entry, fat_cmp, look_from, lookup_file,
}

-- The first entry that passes a test, of `left` entries of a cluster from the entry `i` on and, behind them,
-- as `rest` says; the mark of the end of the directory ends the search.
abbrev pub find_in : (FatUnit → ℕ → Bool) → FatUnit → (left i : ℕ) → Option (ℕ × ℕ) → Option (ℕ × ℕ)
find_in p u zero i rest = rest
find_in p u (suc left) i rest =
    let later = find_in p u left (i + 1) rest in
    if entry_end (some u) i then none else if p u i then some (u.n, i) else later

-- The first entry that passes a test, of a list of clusters.
abbrev pub find_all : (FatUnit → ℕ → Bool) → List FatUnit → Option (ℕ × ℕ)
find_all p [] = none
find_all p (u ∷ us) = find_in p u (u.size / 32) 0 (find_all p us)

abbrev pub entries : List FatUnit → ℕ
entries [] = 0
entries (u ∷ us) = u.size / 32 + entries us

abbrev pub as_found : Option (ℕ × ℕ) → Option (Option ℕ × ℕ)
as_found none = none
as_found (some (d, i)) = some (some d, i)

module _ {h : Host} (errors : List SimulatedError) (v : ℕ → ℤ) (f : Fat h) where
  -- A cluster of a directory is cached and holds an entry, and its successor can be read.
  abbrev pub Here : FatUnit → Type 0
  Here u =
      (held : IsHeld f u.n) × (held.u ≡ u)
      × (1 ≤ u.size / 32)
      × (get_next_cluster errors (pos u.n) f ≡ some (v u.n, f))

  abbrev pub Follows : FatUnit → List FatUnit → Type 0
  Follows u [] = ltb_ℤ (v u.n) (pos 2) ≡ true
  Follows u (w ∷ ws) = (v u.n ≡ pos w.n) × (2 ≤ w.n) × Here w × Follows w ws

  pub cached_lem : (u : FatUnit) → Here u → cached_cluster u.n f ≡ some (u, f)
  unfolding cached_cluster
  cached_lem u (held, same, _, _) = rw (cached_cluster, held.found, same) refl

  pub from_inside :
      (u : FatUnit) (i : ℕ)
      → Here u
      → i < u.size / 32
      → entry_from errors u.n i f ≡ some (at_entry u i, f)
  unfolding entry_from
  from_inside u i here lt =
      let inside : ltb i (u.size / 32) ≡ true = ground (arith, lt) in
      rw (cached_lem u here, ◌>>=◌, inside) refl

  pub from_last :
      (u : FatUnit) (i : ℕ)
      → Here u
      → u.size / 32 ≤ i
      → ltb_ℤ (v u.n) (pos 2) ≡ true
      → (r : ℤ) × (entry_from errors u.n i f ≡ some (nowhere r, f)) × (eqb_ℤ r (pos 0) ≡ false)
  unfolding entry_from
  from_last u i here le end =
      let outside : ltb i (u.size / 32) ≡ false = ground (arith, le) in
      (
        (if eqb_ℤ (v u.n) fat_eof || eqb_ℤ (v u.n) fat_unused then minus_one else negsuc 1),
        rw (cached_lem u here, ◌>>=◌, outside, here.3, ◌>>=◌, end) refl,
        elim (Bool-cases (eqb_ℤ (v u.n) fat_eof || eqb_ℤ (v u.n) fat_unused)) [
          | inl e ↦ rw e refl
          | inr e ↦ rw e refl
        ],
      )

  pub from_next :
      (u w : FatUnit) (i : ℕ)
      → Here u
      → u.size / 32 ≤ i
      → v u.n ≡ pos w.n
      → 2 ≤ w.n
      → Here w
      → entry_from errors u.n i f ≡ some (at_entry w 0, f)
  unfolding entry_from
  from_next u w i here le at lo there =
      let outside : ltb i (u.size / 32) ≡ false = ground (arith, le) in
      let regular : ltb (w.n + 0) 2 ≡ false = ground (arith, lo) in
      let read : cluster_read errors w.n f ≡ some (some w, f) =
        cluster_read_lem errors f w.n there.0 ∙ ap (λ x. some (some x, f)) there.1 in
      rw
        (
          cached_lem u here,
          ◌>>=◌,
          outside,
          here.3,
          ◌>>=◌,
          at,
          regular,
          if◌then◌else◌,
          pos_part,
          read,
          ◌>>=◌,
        )
        refl

  pub next_lem : (d i : ℕ) → next_entry errors d (pos i) f ≡ entry_from errors d (i + 1) f
  unfolding next_entry ◌+ℤ◌
  next_lem d i = ap (λ (k : ℕ). entry_from errors d k f) (ground arith)

  -- The loop, on the names that are equal to one.
  module _ (case_equal : Bytes → Bytes → Bool) (insensitive : Bool) (name : Bytes) where
    abbrev pub is_named : FatUnit → ℕ → Bool
    is_named u i = fat_cmp case_equal insensitive (get_short_name u i) name

    -- The loop from an entry on finds what the description says.
    abbrev Finds : ℕ → Type 0
    Finds fuel =
        (u : FatUnit) (us : List FatUnit) (left i : ℕ)
        → Here u
        → Follows u us
        → i + suc left ≡ u.size / 32
        → left + entries us + 1 < fuel
        → look_from errors case_equal insensitive fuel name (at_entry u i) f
          ≡ some (find_in is_named u (suc left) i (find_all is_named us), f)

    ended :
        (fuel : ℕ) (r : ℤ)
        → 0 < fuel
        → eqb_ℤ r (pos 0) ≡ false
        → look_from errors case_equal insensitive fuel name (nowhere r) f ≡ some (none, f)
    unfolding look_from
    ended zero r enough nonzero = absurd (omega arith)
    ended (suc fuel) r enough nonzero = rw nonzero refl

    begin :
        (fuel : ℕ) (w : FatUnit) (ws : List FatUnit)
        → Finds fuel
        → Here w
        → Follows w ws
        → entries (w ∷ ws) < fuel
        → look_from errors case_equal insensitive fuel name (at_entry w 0) f
          ≡ some (find_all is_named (w ∷ ws), f)
    begin fuel w ws finds here follows enough =
        let some_entry : 1 ≤ w.size / 32 = here.2 in
        let count : suc (w.size / 32 - 1) ≡ w.size / 32 = omega arith in
        finds w ws (w.size / 32 - 1) 0 here follows (omega arith) (omega arith)
        ∙ ap (λ (k : ℕ). some (find_in is_named w k 0 (find_all is_named ws), f)) count

    further :
        (fuel : ℕ) (u : FatUnit) (us : List FatUnit) (left i : ℕ)
        → Finds fuel
        → Here u
        → Follows u us
        → i + suc left ≡ u.size / 32
        → left + entries us + 1 < suc fuel
        → (entry_from errors u.n (i + 1) >>= λ s.
              look_from errors case_equal insensitive fuel name s)
            f
          ≡ some (find_in is_named u left (i + 1) (find_all is_named us), f)
    further fuel u us (suc left) i finds here follows sum enough =
        rw (from_inside u (i + 1) here (omega arith), ◌>>=◌)
          (finds u us left (i + 1) here follows (omega arith) (omega arith))
    further fuel u [] zero i finds here follows sum enough =
        let (r, run, nonzero) = from_last u (i + 1) here (omega arith) follows in
        rw (run, ◌>>=◌) (ended fuel r (omega arith) nonzero)
    further fuel u (w ∷ ws) zero i finds here (at, lo, there, follows) sum enough =
        rw (from_next u w (i + 1) here (omega arith) at lo there, ◌>>=◌)
          (begin fuel w ws finds there follows (omega arith))

    look_lem : (fuel : ℕ) → Finds fuel
    unfolding look_from
    look_lem zero u us left i here follows sum enough = absurd (omega arith)
    look_lem (suc fuel) u us left i here follows sum enough =
        elim (Bool-cases (entry_end (some u) i)) [
          | inl e ↦ rw e refl
          | inr e ↦
              rw (e, cached_lem u here, ◌>>=◌)
                (elim (Bool-cases (is_named u i)) [
                  | inl found ↦ rw found refl
                  | inr other ↦
                      rw (other, if◌then◌else◌, ◌>>=◌, next_lem u.n i)
                        (further fuel u us left i (look_lem fuel) here follows sum enough)
                ])
        ]

    -- Of a directory whose clusters are all cached, hold an entry each, and follow each other in
    -- the table, which can be read without a change, fatlookupfile of a name that is not a
    -- position ends with as much fuel as one more than there are entries, and changes nothing; it
    -- finds the first entry of that name before the mark of the end of the directory, if there is
    -- one.
    pub lookup_file-first :
        (scan_entry : Bytes → Option (ℕ × ℕ)) (fuel : ℕ) (u : FatUnit) (us : List FatUnit)
        → scan_entry name ≡ none
        → Here u
        → Follows u us
        → entries (u ∷ us) < fuel
        → lookup_file errors case_equal insensitive scan_entry fuel u.n name f
          ≡ some (as_found (find_all is_named (u ∷ us)), f)
    unfolding lookup_file next_entry ◌+ℤ◌
    lookup_file-first scan_entry fuel u us plain here follows enough =
        let read : cluster_read errors u.n f ≡ some (some u, f) =
          cluster_read_lem errors f u.n here.0 ∙ ap (λ x. some (some x, f)) here.1 in
        let first : next_entry errors u.n minus_one f ≡ some (at_entry u 0, f) =
          from_inside u 0 here here.2 in
        rw
          (
            lookup_file,
            plain,
            read,
            ◌>>=◌,
            first,
            ◌>>=◌,
            begin fuel u us (look_lem fuel) here follows enough,
            ◌>>=◌,
          )
          refl
