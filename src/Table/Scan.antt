-- ===== src/Table/Scan.antt =====
-- lib/table.c: intervals of clusters, and the loops over them. The clusters of an interval are
-- numbers; a loop whose fuel runs out gives `none`.
use libllfat.Prelude.{
  ℕ, zero, suc, ◌+◌, ◌-◌, Bool, true, false, not, ◌&&◌, ◌||◌, ◌==◌, ltb, if◌then◌else◌, Option,
  none, some, List,
}
use libllfat.Prelude.Int.{ℤ, pos, minus_one, pos_part, eqb_ℤ, ltb_ℤ}
use libllfat.Units.Host.{Host}
use libllfat.Units.Io.{SimulatedError}
use libllfat.Boot.Root.{fat_err}
use libllfat.Fs.State.{M, pure, exit, ◌>>=◌, ◌>>◌, get_fat, modify}
use libllfat.Fs.Geometry.{last_cluster}
use libllfat.Table.Next.{fat_unused, fat_bad, fat_first, get_next_cluster, set_next_cluster}

unfoldable pub is_between : (cluster begin end : ℕ) → Bool
is_between cluster begin end =
    not (ltb begin end && (ltb cluster begin || ltb end cluster))
    && not (ltb end begin && (ltb cluster begin && ltb end cluster))

-- `last` is the last cluster of the filesystem. The cluster is not 0.
unfoldable pub interval_prev : (last c begin end : ℕ) → ℕ
interval_prev last c begin end =
    let c' = if c == begin then end else c - 1 in if c' == fat_first - 1 then last else c'

unfoldable pub interval_next : (last c begin end : ℕ) → ℕ
interval_next last c begin end =
    let c' = if c == end then begin else c + 1 in if c' == last + 1 then fat_first else c'

-- The cluster that a search begins at; `none` is the argument -1.
unfoldable pub start_from : ℤ → Option ℕ → ℕ
start_from last none = if eqb_ℤ last minus_one then fat_first else pos_part last
start_from last (some start) = start

module _ {h : Host} where
  -- `fatclusterisregular` ends the program for other clusters.
  unfoldable pub is_regular : ℕ → M h (Unit {0})
  is_regular cluster = do
    last ← last_cluster
    if is_between cluster fat_first (pos_part last) then pure tt else exit

module _ {h : Host} (errors : List SimulatedError) where
  -- The loop of `fatclusternumfreebetween`.
  unfoldable pub count_free : (fuel c begin end num : ℕ) → M h ℕ
  count_free zero c begin end num = exit
  count_free (suc fuel) c begin end num = do
    next ← get_next_cluster errors (pos c)
    last ← last_cluster
    let num' = if eqb_ℤ next fat_unused then num + 1 else num
    let c' = interval_next (pos_part last) c begin end
    elim (c' == begin) [ true ↦ pure num' | false ↦ count_free fuel c' begin end num' ]

  unfoldable pub num_free_between : (begin end : ℕ) → M h ℕ
  num_free_between begin end = do
    is_regular begin
    is_regular end
    last ← last_cluster
    count_free (suc (pos_part last)) begin begin end 0

  unfoldable pub num_free : M h ℕ
  num_free = do
    last ← last_cluster
    n ← num_free_between fat_first (pos_part last)
    modify (λ f. record f { free = pos n })
    pure n

  -- The loop of `fatclusterfindfreesequencebetween`; `first` and `count` describe the free clusters
  -- found so far, the last of them just before `cl`.
  unfoldable pub find_free : (fuel cl first count begin end start length : ℕ) → M h ℤ
  find_free zero cl first count begin end start length = exit
  find_free (suc fuel) cl first count begin end start length = do
    next ← get_next_cluster errors (pos cl)
    let first' = if count == 0 then cl else first
    let count' = if ltb cl first' then 0 else count + 1
    let found = eqb_ℤ next fat_unused
    modify (λ f. if found then record f { last = pos cl } else f)
    elim (found && count' == length) [
      | true ↦ pure (pos first')
      | false ↦ (do
        last ← last_cluster
        let cl' = interval_next (pos_part last) cl begin end
        elim (cl' == start) [
          | true ↦ pure fat_err
          | false ↦ elim found [
            | true ↦ find_free fuel cl' first' count' begin end start length
            | false ↦ find_free fuel cl' first 0 begin end start length
          ]
        ])
    ]

  unfoldable pub find_free_sequence_between : (begin end : ℕ) → Option ℕ → (length : ℕ) → M h ℤ
  find_free_sequence_between begin end start zero = pure fat_err
  find_free_sequence_between begin end start (suc length) = do
    f ← get_fat
    let from = start_from f.last start
    is_regular begin
    is_regular end
    is_regular from
    last ← last_cluster
    let start' = if is_between from begin end then from else begin
    find_free (suc (pos_part last)) start' 0 0 begin end start' (suc length)

  unfoldable pub find_free_between : (begin end : ℕ) → Option ℕ → M h ℤ
  find_free_between begin end start = find_free_sequence_between begin end start 1

  unfoldable pub find_free_sequence : ℕ → M h ℤ
  find_free_sequence length = do
    last ← last_cluster
    find_free_sequence_between fat_first (pos_part last) none length

  unfoldable pub find_free_cluster : M h ℤ
  find_free_cluster = do last ← last_cluster; find_free_between fat_first (pos_part last) none

  -- `_fatclusterareabad`; with `stop` the first bad cluster ends the loop with -1.
  unfoldable pub area_bad : (fuel cl begin end count : ℕ) → Bool → M h ℤ
  area_bad zero cl begin end count stop = exit
  area_bad (suc fuel) cl begin end count stop = do
    next ← get_next_cluster errors (pos cl)
    last ← last_cluster
    let bad = eqb_ℤ next fat_bad
    let count' = if bad then count + 1 else count
    let cl' = interval_next (pos_part last) cl begin end
    elim (bad && stop) [
      | true ↦ pure minus_one
      | false ↦ elim (cl' == begin) [
        | true ↦ pure (pos count')
        | false ↦ area_bad fuel cl' begin end count' stop
      ]
    ]

  unfoldable pub area_is_bad : (begin end : ℕ) → M h ℤ
  area_is_bad begin end = do
    last ← last_cluster
    area_bad (suc (pos_part last)) begin begin end 0 true

  unfoldable pub num_bad_between : (begin end : ℕ) → M h ℤ
  num_bad_between begin end = do
    last ← last_cluster
    area_bad (suc (pos_part last)) begin begin end 0 false

  -- The loop of `fatclusterfindallocatedbetween`.
  unfoldable pub find_allocated : (fuel c begin end start : ℕ) → M h ℤ
  find_allocated zero c begin end start = exit
  find_allocated (suc fuel) c begin end start = do
    next ← get_next_cluster errors (pos c)
    last ← last_cluster
    let c' = interval_next (pos_part last) c begin end
    elim (not (eqb_ℤ next fat_unused) && not (eqb_ℤ next fat_bad)) [
      | true ↦ pure (pos c)
      | false ↦ elim (c' == start) [
        | true ↦ pure fat_err
        | false ↦ find_allocated fuel c' begin end start
      ]
    ]

  unfoldable pub find_allocated_between : (begin end start : ℕ) → M h ℤ
  find_allocated_between begin end start = do
    is_regular begin
    is_regular end
    is_regular start
    last ← last_cluster
    let start' = if is_between start begin end then start else begin
    find_allocated (suc (pos_part last)) start' begin end start'

  unfoldable pub find_first_allocated : (begin end : ℕ) → M h ℤ
  find_first_allocated begin end = find_allocated_between begin end begin

  -- The loop of `fatclusterfreechain`.
  unfoldable pub free_chain : (fuel : ℕ) → ℤ → M h ℤ
  free_chain zero current = exit
  free_chain (suc fuel) current = if ltb_ℤ current (pos fat_first) then pure (pos 0) else (do
    next ← get_next_cluster errors current
    _ ← set_next_cluster errors current fat_unused
    free_chain fuel next)
