-- ===== src/Long/Walk.antt =====
-- lib/long.c: the walk over a directory by long names. tolower(3) is a parameter.
use libllfat.Prelude.{
  ℕ, zero, suc, ◌+◌, ◌/◌, ◌%◌, Bool, false, not, ◌&&◌, ◌||◌, ◌==◌, if◌then◌else◌, Option, none,
  some, List,
}
use libllfat.Prelude.Int.{ℤ, pos, minus_one, eqb_ℤ}
use libllfat.Units.Host.{Host}
use libllfat.Units.Io.{SimulatedError}
use libllfat.Fs.State.{M, pure, exit, ◌>>=◌}
use libllfat.Reference.Target.{cached_cluster}
use libllfat.Directory.Walk.{next_entry}
use libllfat.Long.Scan.{
  fat_end, fat_short, fat_long_all, fat_long_some, fat_long_first, fat_long_err, LongScan,
  long_init, long_end, long_scan,
}

-- The bits `FAT_SHORT`, `FAT_LONG_ALL` and `FAT_LONG_FIRST` of a result.
abbrev pub has_bit : ℕ → ℕ → Bool
has_bit res bit = res / bit % 2 == 1

-- Where a scan ends: its position, its state and its result.
pub record LongStep : Type 0 where
  pub directory : ℕ
  pub index : ℕ
  pub scan : LongScan
  pub result : ℕ

module _ {h : Host} (errors : List SimulatedError) (to_lower : ℕ → ℕ) where
  -- The loop of `fatlongnext`. Its end is that of the directory, or a short entry; behind the last
  -- cluster `directory` is NULL, of which `fatlongscan` says that the directory is finished.
  unfoldable pub long_next_from : (fuel : ℕ) → LongScan → (directory index : ℕ) → M h LongStep
  long_next_from zero s directory index = exit
  long_next_from (suc fuel) s directory index = do
    u ← cached_cluster directory
    let (s', res) = long_scan to_lower h.garbage u index s
    let ended : LongStep = record { directory = directory; index = index; scan = s'; result = res }
    let beyond : LongStep = record {
      directory = 0;
      index = 0;
      scan = long_end s';
      result = fat_end;
    }
    let more = λ (d i : ℕ). long_next_from fuel s' d i
    if res == fat_end || has_bit res fat_short then pure ended else (do
      step ← next_entry errors directory (pos index)
      elim step.directory [ none ↦ pure beyond | some d ↦ more d step.index ])

  -- `*longdirectory`, `*longindex` and `*name` are those of the scan.
  unfoldable pub long_next : (fuel directory index : ℕ) → M h LongStep
  long_next fuel directory index = do
    e ← long_next_from fuel long_init directory index
    pure (record e { result = e.result + (if eqb_ℤ e.scan.err (pos 0) then 0 else fat_long_err) })

  unfoldable pub next_name : (fuel directory index : ℕ) → M h (LongStep × ℤ)
  next_name fuel directory index = do
    e ← long_next fuel directory index
    pure (e, if e.result == fat_end then minus_one else pos 0)

  -- The loop of `fatlongentrytoshort`; `first` is whether a first part was seen, `none` its early return.
  unfoldable pub entry_to_short_from :
      (fuel : ℕ) → Bool → LongScan → (directory index : ℕ) → M h (Option (LongStep × Bool))
  entry_to_short_from zero first s directory index = exit
  entry_to_short_from (suc fuel) first s directory index = do
    u ← cached_cluster directory
    let (s', res) = long_scan to_lower h.garbage u index s
    let is_first = has_bit res fat_long_first
    let ended : LongStep = record { directory = directory; index = index; scan = s'; result = res }
    let beyond : LongStep = record {
      directory = 0;
      index = 0;
      scan = long_end s';
      result = fat_end;
    }
    let more = λ (d i : ℕ). entry_to_short_from fuel (first || is_first) s' d i
    if not (res == fat_long_some || res == fat_long_some + fat_long_first)
        then pure (some (ended, first))
        else if is_first && first
        then pure none
        else (do
          step ← next_entry errors directory (pos index)
          elim step.directory [
            | none ↦ pure (some (beyond, first || is_first))
            | some d ↦ more d step.index
          ])

  unfoldable pub long_entry_to_short : (fuel directory index : ℕ) → M h (Option LongStep × ℕ)
  long_entry_to_short fuel directory index = do
    e ← entry_to_short_from fuel false long_init directory index
    elim e [
      | none ↦ pure (none, fat_long_err)
      | some (step, first) ↦
          let bad_text = not (eqb_ℤ step.scan.err (pos 0)) in
          let unfinished = first && not (has_bit step.result fat_long_all) in
          pure (some step, step.result + (if bad_text || unfinished then fat_long_err else 0))
    ]
