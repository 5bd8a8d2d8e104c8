-- ===== src/Directory/Created.antt =====
-- A file that is created is found.
use libllfat.Prelude.{
  ℕ, suc, ◌/◌, ◌<◌, ◌≤◌, ◌≡◌, refl, ap, ◌∙◌, arith, Bool, true, false, if◌then◌else◌, Option, none,
  some, List, [], ◌∷◌, ◌++◌, length,
}
use libllfat.Prelude.Int.{ℤ, pos, minus_one}
use libllfat.Bytes.{Bytes, IsBytes}
use libllfat.Units.{FatUnit}
use libllfat.Units.Host.{Host}
use libllfat.Units.Io.{SimulatedError}
use libllfat.Fs.State.{Fat, ◌>>=◌, ◌>>◌}
use libllfat.Entry.Fields.{entry_exists, zero_entry}
use libllfat.Entry.Names.{is_empty, trim, set_short_name, index_of}
use libllfat.Entry.NameTrip.{Plain, joined, trim-first}
use libllfat.Entry.FieldTrip.{Holds}
use libllfat.Table.Place.{Layout}
use libllfat.Table.Position.{cluster_read}
use libllfat.Table.Succ.{Represents}
use libllfat.Table.Frame.{with_clusters}
use libllfat.Reference.Target.{cached_cluster, put_cluster}
use libllfat.Reference.Renames.{cluster_read_lem}
use libllfat.Directory.Walk.{lookup_file}
use libllfat.Directory.Free.{at_position, find_free_entry}
use libllfat.Directory.Create.{
  split_path, last_slash, slash, directory_cluster, find_free_entry_path_dir, write_new_entry,
  create_file_dir,
}
use libllfat.Directory.Found.{Here, Follows, entries, cached_lem, is_named}
use libllfat.Directory.FreeFound.{settled, last_of, find_free_entry-first}
use libllfat.Directory.NewEntry.{IsNew, new_entry, new_entry-IsNew}
use libllfat.Directory.Firsts.{last_slash-none, free_from-start}
use libllfat.Directory.Grown.{Elsewhere, finds_new}

is_empty-append : (xs ys : Bytes) (k : ℕ) → length xs ≡ suc k → is_empty (xs ++ ys) ≡ false
is_empty-append [] ys k e = absurd (omega arith)
is_empty-append (x ∷ xs) ys k e = refl

is_empty-joined : (name ext : Bytes) → Plain name ext → is_empty (joined name ext) ≡ false
is_empty-joined name ext plain =
    let (k, long) = trim-first name plain.name_length plain.name_first in
    is_empty-append (trim name) _ k long

module _ {h : Host} (errors : List SimulatedError) (f : Fat h) where
  write_run :
      (u : FatUnit) (i b : ℕ) (file : Bytes)
      → cached_cluster u.n f ≡ some (u, f)
      → (set_short_name (zero_entry u i) i file).1 ≡ pos 0
      → f.bits ≡ pos b
      → write_new_entry u.n i file f
        ≡ some (pos 0, with_clusters f (h.put (new_entry u i file (pos b)).0 f.clusters) f.disk)
  unfolding write_new_entry put_cluster
  write_run u i b file cached taken bits =
      rw (write_new_entry, ◌>>=◌, cached, taken, bits, ◌>>◌) refl

  module _ (case_equal : Bytes → Bytes → Bool) (insensitive : Bool)
      (scan_entry : Bytes → Option (ℕ × ℕ)) (scan_cluster : Bytes → Option ℤ) (fuel d i : ℕ) where
    path_run :
        (u : FatUnit)
        → cluster_read errors d f ≡ some (some u, f)
        → find_free_entry errors fuel u.n minus_one f ≡ some (at_position d i, f)
        → find_free_entry_path_dir errors case_equal insensitive scan_entry scan_cluster fuel
            (pos d)
            none
            f
          ≡ some ((pos d, at_position d i), f)
    unfolding find_free_entry_path_dir directory_cluster
    path_run u read free = rw (find_free_entry_path_dir, ◌>>=◌, read, free) refl

    create_run :
        (file : Bytes) (u : FatUnit) (f' : Fat h)
        → last_slash file ≡ none
        → is_empty file ≡ false
        → cluster_read errors d f ≡ some (some u, f)
        → find_free_entry errors fuel u.n minus_one f ≡ some (at_position d i, f)
        → write_new_entry d i file f ≡ some (pos 0, f')
        → create_file_dir errors case_equal insensitive scan_entry scan_cluster fuel (pos d) file f
          ≡ some ((pos d, at_position d i), f')
    unfolding create_file_dir split_path
    create_run file u f' whole full read free run =
        let split : split_path file ≡ (none, file) = rw (split_path, whole) refl in
        rw
          (
            create_file_dir,
            split,
            full,
            if◌then◌else◌,
            ◌>>=◌,
            path_run u read free,
            split,
            ◌>>=◌,
            run,
          )
          refl

-- The name of a file, with no slash and with an entry's name and extension, that no entry before
-- the first free one has, in a directory that begins at a cluster (which the fixed root directory
-- of FAT12 and FAT16 does not), whose clusters are cached, as are the sectors of the table, and
-- whose first cluster has a free entry: fatcreatefiledir makes the first free entry that of an
-- empty file of this name, and fatlookupfile of the name then finds it; nothing else of the
-- cluster changes.
pub create_file_dir-found :
    {h : Host} (errors : List SimulatedError) (l : Layout) (nfat last : ℕ) (v : ℕ → ℤ) (f : Fat h)
    (u : FatUnit) (us : List FatUnit) (i fuel : ℕ) (name ext : Bytes)
    (case_equal : Bytes → Bytes → Bool) (insensitive : Bool) (scan_entry : Bytes → Option (ℕ × ℕ))
    (scan_cluster : Bytes → Option ℤ)
    → Represents errors l nfat last v f
    → Here errors v f u
    → Follows errors v f u us
    → 2 ≤ u.n
    → u.n ≤ last
    → Elsewhere u.n last us
    → Holds u i
    → entry_exists u i ≡ false
    → ((j : ℕ)
        → j < i
        → (entry_exists u j ≡ true)
          × (is_named errors v f case_equal insensitive (joined name ext) u j ≡ false))
    → entries (u ∷ us) < fuel
    → Plain name ext
    → IsBytes (name ++ ext)
    → index_of slash (joined name ext) ≡ none
    → scan_entry (joined name ext) ≡ none
    → ((xs : Bytes) → case_equal xs xs ≡ true)
    → (u' : FatUnit) × (f' : Fat h) × (create_file_dir errors case_equal insensitive scan_entry
          scan_cluster fuel
          (pos u.n)
          (joined name ext)
          f
        ≡ some ((pos u.n, at_position u.n i), f'))
      × (f' ≡ record f { clusters = h.put u' f.clusters })
      × IsNew u i l.bits name ext u'
      × (lookup_file errors case_equal insensitive scan_entry fuel u.n (joined name ext) f'
          ≡ some (some (some u.n, i), f'))
create_file_dir-found {h} errors l nfat last v f u us i fuel name ext case_equal insensitive
      scan_entry scan_cluster r here follows lo hi far holds free before enough plain bytes whole
      unscanned reflexive =
    let file = joined name ext in
    let (taken, new) = new_entry-IsNew u i l.bits name ext holds plain bytes l.width in
    let inside : i < u.size / 32 = omega (arith, holds.sized) in
    let u' = (new_entry u i file (pos l.bits)).0 in
    let f' = with_clusters f (h.put u' f.clusters) f.disk in
    let read : cluster_read errors u.n f ≡ some (some u, f) =
      cluster_read_lem errors f u.n here.0 ∙ ap (λ x. some (some x, f)) here.1 in
    let found : find_free_entry errors fuel u.n minus_one f ≡ some (at_position u.n i, f) =
      find_free_entry-first errors v f fuel u us here follows enough
      ∙ ap (settled errors v f (last_of u us))
          (free_from-start u us (u.size / 32) i (λ j lt. (before j lt).0) free inside) in
    (
      u',
      f',
      create_run errors f case_equal insensitive scan_entry scan_cluster fuel u.n i file u f'
          (last_slash-none file whole) (is_empty-joined name ext plain) read found
          (write_run errors f u i l.bits file (cached_lem errors v f u here) taken
            r.uses.ready.bits),
      refl,
      new,
      finds_new errors l nfat last v f r u here lo hi i name ext u' new case_equal insensitive
          reflexive scan_entry fuel us plain far follows unscanned inside enough before,
    )
