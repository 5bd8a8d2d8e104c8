-- ===== src/Directory/Free.antt =====
-- lib/directory.c: finding or making a free entry.
use libllfat.Prelude.{
  ℕ, zero, suc, ◌+◌, ◌-◌, ◌/◌, not, ◌==◌, if◌then◌else◌, Option, none, some, List, replicate,
}
use libllfat.Prelude.Int.{ℤ, pos, minus_one, pos_part, eqb_ℤ}
use libllfat.Units.{FatUnit, store_bytes, mark_dirty}
use libllfat.Units.Host.{Host}
use libllfat.Units.Io.{SimulatedError}
use libllfat.Boot.Root.{fat_err}
use libllfat.Entry.Fields.{entry_exists, get_size}
use libllfat.Fs.State.{M, pure, exit, ◌>>=◌, ◌>>◌, get_fat}
use libllfat.Fs.Setters.{bytes_per_cluster}
use libllfat.Table.Next.{fat_eof, set_next_cluster}
use libllfat.Table.Scan.{find_free_cluster}
use libllfat.Table.Position.{cluster_read, cluster_create}
use libllfat.Reference.Target.{cached_cluster, put_cluster}
use libllfat.Directory.Walk.{next_entry}

-- `bpc` is not 0.
unfoldable pub entry_num_clusters : FatUnit → ℕ → (bpc : ℕ) → ℕ
entry_num_clusters directory index bpc = (get_size directory index + bpc - 1) / bpc

-- A position where a function leaves `*directory`, which is a cached cluster or NULL, and `*index`, with
-- its result.
pub record Position : Type 0 where
  pub directory : Option ℕ
  pub index : ℕ
  pub result : ℤ

abbrev pub at_position : ℕ → ℕ → Position
at_position d i = record { directory = some d; index = i; result = pos 0 }

abbrev pub no_position : ℤ → Position
no_position r = record { directory = none; index = 0; result = r }

module _ {h : Host} (errors : List SimulatedError) where
  -- `fatclustercreate`, or else `fatclusterread`; a NULL is used all the same.
  unfoldable pub make_cluster : ℕ → M h FatUnit
  make_cluster n = do
    made ← cluster_create errors n
    elim made [
      | some u ↦ pure u
      | none ↦ (do read ← cluster_read errors n; elim read [ none ↦ exit | some u ↦ pure u ])
    ]

  -- The end of `fatfindfreeentry`: a new cluster behind the last one, which is `directory`.
  unfoldable pub extend_directory : (directory : ℕ) → M h Position
  extend_directory directory = if directory == 1 then pure (no_position minus_one) else (do
    new ← find_free_cluster errors
    if eqb_ℤ new fat_err then pure (no_position minus_one) else (do
      _ ← set_next_cluster errors new fat_eof
      _ ← set_next_cluster errors (pos directory) new
      u ← make_cluster (pos_part new)
      f ← get_fat
      put_cluster (mark_dirty (store_bytes u 0 (replicate (bytes_per_cluster f) 0)))
      pure (at_position u.n 0)))

  -- The loop of `fatfindfreeentry`. When it ends at an entry that a step found, `*directory` is still
  -- where the step began.
  unfoldable pub find_free_entry : (fuel directory : ℕ) → (index : ℤ) → M h Position
  find_free_entry zero directory index = exit
  find_free_entry (suc fuel) directory index = do
    s ← next_entry errors directory index
    let more = λ (d : ℕ). find_free_entry fuel d (pos s.index)
    elim s.directory [
      | none ↦ extend_directory directory
      | some d ↦
          if eqb_ℤ s.result (pos 0)
          then (do
            u ← cached_cluster d
            if not (entry_exists u s.index) then pure (at_position directory s.index) else more d)
          else pure (at_position directory s.index)
    ]
