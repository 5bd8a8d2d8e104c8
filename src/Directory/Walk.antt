-- ===== src/Directory/Walk.antt =====
-- lib/directory.c: the walk over the entries of a directory, and the search for a name. sscanf(3) and
-- strcasecmp(3) are parameters.
use libllfat.Prelude.{ℕ, zero, suc, ◌/◌, Bool, ◌||◌, ltb, if◌then◌else◌, Option, none, some, List}
use libllfat.Prelude.Int.{ℤ, pos, negsuc, minus_one, pos_part, eqb_ℤ, ltb_ℤ, ◌+ℤ◌}
use libllfat.Bytes.{Bytes}
use libllfat.Units.{FatUnit}
use libllfat.Units.Host.{Host}
use libllfat.Units.Io.{SimulatedError}
use libllfat.Boot.Root.{fat_err}
use libllfat.Entry.Fields.{entry_end, get_first_cluster}
use libllfat.Entry.Names.{get_short_name, same_string}
use libllfat.Fs.State.{M, pure, exit, ◌>>=◌}
use libllfat.Fs.Geometry.{fat_bits, get_root_begin}
use libllfat.Table.Next.{fat_unused, fat_eof, get_next_cluster}
use libllfat.Table.Position.{cluster_read}
use libllfat.Reference.Target.{cached_cluster}

-- What `fatnextentry` returns, and where it leads: the number of a cached cluster, or NULL, and an index.
pub record Step : Type 0 where
  pub directory : Option ℕ
  pub index : ℕ
  pub result : ℤ

abbrev pub at_entry : FatUnit → ℕ → Step
at_entry u i = record {
  directory = some u.n;
  index = i;
  result = if entry_end (some u) i then pos 1 else pos 0;
}

abbrev pub nowhere : ℤ → Step
nowhere r = record { directory = none; index = 0; result = r }

unfoldable pub fat_cmp : (Bytes → Bytes → Bool) → Bool → Bytes → Bytes → Bool
fat_cmp case_equal insensitive a b = if insensitive then case_equal a b else same_string a b

module _ {h : Host} (errors : List SimulatedError) where
  -- The entry of an index, or the first of the next cluster.
  unfoldable pub entry_from : (directory i : ℕ) → M h Step
  entry_from directory i = do
    u ← cached_cluster directory
    if ltb i (u.size / 32) then pure (at_entry u i) else (do
      cn ← get_next_cluster errors (pos u.n)
      if ltb_ℤ cn (pos 2)
          then pure
              (nowhere (if eqb_ℤ cn fat_eof || eqb_ℤ cn fat_unused then minus_one else negsuc 1))
          else (do
            read ← cluster_read errors (pos_part cn)
            elim read [ none ↦ pure (nowhere (negsuc 2)) | some w ↦ pure (at_entry w 0) ]))

  -- The index is -1 before the first entry.
  unfoldable pub next_entry : (directory : ℕ) → (index : ℤ) → M h Step
  next_entry directory index = entry_from directory (pos_part (index +ℤ pos 1))

  module _ (case_equal : Bytes → Bytes → Bool) (insensitive : Bool) where
    -- The loop of `fatlookupfile`, after a step: the position of the entry, if it is found.
    unfoldable pub look_from : (fuel : ℕ) → Bytes → Step → M h (Option (ℕ × ℕ))
    look_from zero name s = exit
    look_from (suc fuel) name s =
        let more = λ (d : ℕ). (do s' ← next_entry d (pos s.index); look_from fuel name s') in
        if eqb_ℤ s.result (pos 0)
        then elim s.directory [
          | none ↦ exit
          | some d ↦ do
            u ← cached_cluster d
            if fat_cmp case_equal insensitive (get_short_name u s.index) name
                then pure (some (d, s.index))
                else more d
        ]
        else pure none

    -- A directory that cannot be read is a fault; of an entry that is named by its position, the
    -- cluster that cannot be read is NULL.
    unfoldable pub lookup_file :
        (scan_entry : Bytes → Option (ℕ × ℕ)) → (fuel : ℕ) → ℕ → Bytes → M h (Option (Option ℕ × ℕ))
    lookup_file scan_entry fuel dir name = elim (scan_entry name) [
      | some (cl, index) ↦ do
        root ← get_root_begin
        read ← cluster_read errors (if ltb 0 cl then cl else pos_part root)
        pure (some (elim read [ none ↦ none | some u ↦ some u.n ], index))
      | none ↦ do
        read ← cluster_read errors dir
        elim read [
          | none ↦ exit
          | some u ↦ do
            s ← next_entry u.n minus_one
            found ← look_from fuel name s
            pure (elim found [ none ↦ none | some (d, i) ↦ some (some d, i) ])
        ]
    ]

    -- sscanf(3) of a cluster is a parameter too.
    unfoldable pub lookup_first_cluster :
        (scan_entry : Bytes → Option (ℕ × ℕ))
        → (scan_cluster : Bytes → Option ℤ) → (fuel : ℕ) → ℕ
        → Bytes
        → M h ℤ
    lookup_first_cluster scan_entry scan_cluster fuel dir name = elim (scan_cluster name) [
      | some cl ↦ pure cl
      | none ↦ do
        found ← lookup_file scan_entry fuel dir name
        elim found [
          | none ↦ pure fat_err
          | some (none, index) ↦ exit
          | some (some d, index) ↦ do
            u ← cached_cluster d
            bits ← fat_bits
            pure (get_first_cluster u index bits)
        ]
    ]
