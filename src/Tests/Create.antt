-- ===== src/Tests/Create.antt =====
-- The theorems on free entries, on paths and on creating a file, at directories in the clusters 3 and 4 of the FAT
-- of 12 bits.
use libllfat.Prelude.{
  ℕ, zero, suc, ◌<◌, ◌≡◌, refl, arith, true, false, none, some, [], ◌∷◌, ◌++◌, replicate,
}
use libllfat.Prelude.Int.{pos, minus_one}
use libllfat.Bytes.{Bytes, get8, read_bytes}
use libllfat.Units.{FatUnit}
use libllfat.Fs.State.{Fat}
use libllfat.Entry.Fields.{entry_byte, entry_exists}
use libllfat.Entry.Names.{get_short_name, short_to_string, trim, until_nul, same_string, index_of}
use libllfat.Entry.NameTrip.{joined}
use libllfat.Table.Succ.{Represents}
use libllfat.Table.Frame.{with_clusters, Represents-frame}
use libllfat.Table.SiteFrame.{cluster_position_frame}
use libllfat.Reference.Renames.{IsHeld}
use libllfat.Directory.Walk.{lookup_file, fat_cmp}
use libllfat.Directory.Free.{at_position, find_free_entry}
use libllfat.Directory.Create.{create_file_dir, slash}
use libllfat.Directory.FreeFound.{find_free_entry-first, find_free_entry-taken}
use libllfat.Directory.NewEntry.{IsNew}
use libllfat.Directory.Created.{create_file_dir-found}
use libllfat.Tests.Host.{list_host, tfind}
use libllfat.Tests.Table.{layout, sector}
use libllfat.Tests.Reference.{v, place}
use libllfat.Tests.Walk.{
  dirs, dirs-Represents, placed_3, placed_4, three, four, entry_of, no_position,
}
use libllfat.Tests.Entry.{readme, txt, readme-txt-Plain, readme-txt-IsBytes}

-- Cluster 3 is full; the first entry of cluster 4 is free.
abbrev empty_four : FatUnit
empty_four = record (sector 4 (replicate 64 0)) { size = 64 }

abbrev full_dir : Fat list_host
full_dir = with_clusters dirs (three ∷ empty_four ∷ []) dirs.disk

-- The second entry of cluster 3 is free.
abbrev half_three : FatUnit
half_three = record (sector 3 (entry_of b'A' ++ replicate 32 0)) { size = 64 }

abbrev half_dir : Fat list_host
half_dir = with_clusters dirs (half_three ∷ four ∷ []) dirs.disk

module _ (a b : FatUnit) where
  abbrev two : Fat list_host
  two = with_clusters dirs (a ∷ b ∷ []) dirs.disk

  two-Represents : Represents [] layout 0 7 v two
  two-Represents = Represents-frame [] layout 0 7 v dirs dirs-Represents (a ∷ b ∷ []) dirs.disk

  abbrev first_held : (tfind 3 (a ∷ b ∷ []) ≡ some a) → a.loaded ≡ true → IsHeld two 3
  first_held found loaded = record {
    u = a;
    found = found;
    loaded = loaded;
    place = place;
    placed =
        cluster_position_frame layout dirs dirs-Represents.uses.ready (a ∷ b ∷ []) dirs.disk (pos 3)
          place placed_3;
  }

  abbrev second_held : (tfind 4 (a ∷ b ∷ []) ≡ some b) → b.loaded ≡ true → IsHeld two 4
  second_held found loaded = record {
    u = b;
    found = found;
    loaded = loaded;
    place = place;
    placed =
        cluster_position_frame layout dirs dirs-Represents.uses.ready (a ∷ b ∷ []) dirs.disk (pos 4)
          place placed_4;
  }

three_used : (j : ℕ) → j < 2 → entry_exists three j ≡ true
unfolding entry_exists entry_byte get8
three_used zero lt = refl
three_used (suc zero) lt = refl
three_used (suc (suc j)) lt = absurd (omega arith)

find_free_entry-taken_example :
    (find_free_entry [] 5 3 minus_one full_dir ≡ some (at_position 3 0, full_dir))
    × (entry_exists three 0 ≡ true)
unfolding tfind entry_exists entry_byte get8
find_free_entry-taken_example =
    find_free_entry-taken [] v full_dir 5 three empty_four []
      (
        first_held three empty_four refl refl,
        refl,
        omega arith,
        (two-Represents three empty_four).reads 3 (omega arith) (omega arith),
      )
      (
        refl,
        omega arith,
        (
          second_held three empty_four refl refl,
          refl,
          omega arith,
          (two-Represents three empty_four).reads 4 (omega arith) (omega arith),
        ),
        refl,
      )
      (omega arith) three_used refl

find_free_entry-first_example :
    find_free_entry [] 6 3 minus_one half_dir ≡ some (at_position 3 1, half_dir)
unfolding tfind entry_exists entry_byte get8
find_free_entry-first_example =
    find_free_entry-first [] v half_dir 6 half_three (four ∷ [])
      (
        first_held half_three four refl refl,
        refl,
        omega arith,
        (two-Represents half_three four).reads 3 (omega arith) (omega arith),
      )
      (
        refl,
        omega arith,
        (
          second_held half_three four refl refl,
          refl,
          omega arith,
          (two-Represents half_three four).reads 4 (omega arith) (omega arith),
        ),
        refl,
      )
      (omega arith)

same_string_same : (xs : Bytes) → same_string xs xs ≡ true
unfolding same_string
same_string_same [] = refl
same_string_same (x ∷ xs) = ground (arith, same_string_same xs)

before_one :
    (j : ℕ)
    → j < 1
    → (entry_exists half_three j ≡ true)
      × (fat_cmp same_string false (get_short_name half_three j) (joined readme txt) ≡ false)
unfolding entry_exists entry_byte get8 fat_cmp get_short_name short_to_string trim until_nul
    same_string read_bytes
before_one zero lt = (refl, refl)
before_one (suc j) lt = absurd (omega arith)

create_file_dir-found_example :
    (u' : FatUnit) × (f' : Fat list_host) × (create_file_dir [] same_string false no_position
        (λ name. none)
        6
        (pos 3)
        (joined readme txt)
        half_dir
      ≡ some ((pos 3, at_position 3 1), f'))
    × (f' ≡ record half_dir { clusters = u' ∷ half_dir.clusters })
    × IsNew half_three 1 12 readme txt u'
    × (lookup_file [] same_string false no_position 6 3 (joined readme txt) f'
        ≡ some (some (some 3, 1), f'))
unfolding tfind entry_exists entry_byte get8 trim index_of
create_file_dir-found_example =
    create_file_dir-found [] layout 0 7 v half_dir half_three (four ∷ []) 1 6 readme txt same_string
      false no_position (λ name. none) (two-Represents half_three four)
      (
        first_held half_three four refl refl,
        refl,
        omega arith,
        (two-Represents half_three four).reads 3 (omega arith) (omega arith),
      )
      (
        refl,
        omega arith,
        (
          second_held half_three four refl refl,
          refl,
          omega arith,
          (two-Represents half_three four).reads 4 (omega arith) (omega arith),
        ),
        refl,
      )
      (omega arith) (omega arith) (omega arith, omega arith, tt)
      record { inside = omega arith; sized = omega arith } refl before_one (omega arith)
      readme-txt-Plain readme-txt-IsBytes refl refl same_string_same

-- The path `a/b`.
abbrev two_parts : Bytes
two_parts = b'a' ∷ slash ∷ b'b' ∷ []
