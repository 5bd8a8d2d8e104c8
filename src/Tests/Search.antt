-- ===== src/Tests/Search.antt =====
-- Searches and chains in the FAT of 12 bits in the tests of the table.
use libllfat.Prelude.{◌≡◌, refl, arith, false, some, [], ◌∷◌, inr}
use libllfat.Prelude.Int.{pos, ◌*ℤ◌, ◌+ℤ◌}
use libllfat.Bytes.{get8, get16, get32}
use libllfat.Boot.Fields.{
  get_bytes_per_sector, get_sectors_per_cluster, get_reserved_sectors, get_num_fats, get_fatsize16,
  get_fatsize32,
}
use libllfat.Boot.Size.{
  known_bits, data_clusters_of, num_sectors_any, root_sectors_of, conditional_minus, division,
  get_num_sectors, get_fatsize, num_data_clusters, get_root_entries, root_entries_any, fatsize_any,
}
use libllfat.Fs.State.{Fat}
use libllfat.Fs.Geometry
use libllfat.Table.Next.{fat_bad, set_next_cluster}
use libllfat.Table.Scan.{find_free_between, free_chain}
use libllfat.Table.View.{with_last}
use libllfat.Table.Succ.{Represents, SameRest, update, set_next_cluster-Represents}
use libllfat.Table.Find.{first_free, find_free_between-first}
use libllfat.Table.Free.{IsChain, freed, free_chain-freed}
use libllfat.Table.Areas.{Best, Linear, most_free, longest_linear}
use libllfat.Table.BestWindow.{IsBest, most_free-IsBest}
use libllfat.Table.Linear.{run_length, longest_run, longest_linear-longest}
use libllfat.Reference.Target.{chain, last_reference}
use libllfat.Reference.Follow.{last_reference-length}
use libllfat.Tests.Host.{list_host}
use libllfat.Tests.Table.{fs, layout}
use libllfat.Tests.Reference.{v, fs-Represents, view}

-- From cluster 4, which is in use, the first free cluster is 5.
find_free_between-first_example :
    find_free_between [] 2 7 (some 4) fs ≡ some (pos 5, with_last fs (pos 5))
unfolding first_free
find_free_between-first_example =
    find_free_between-first [] 7 v fs view 2 7 4 (omega arith) (omega arith) (omega arith)
      (omega arith)

IsChain-example : IsChain 7 v 2 (3 ∷ 4 ∷ [])
IsChain-example = ground arith

free_chain-freed_example :
    (f' : Fat list_host) × (free_chain [] 4 (pos 2) fs ≡ some (pos 0, f'))
    × Represents [] layout 0 7 (freed v (2 ∷ 3 ∷ 4 ∷ [])) f'
    × SameRest fs f'
free_chain-freed_example =
    free_chain-freed [] layout 0 7 v fs 2 (3 ∷ 4 ∷ []) 4 fs-Represents IsChain-example (omega arith)

last_reference-length_example :
    last_reference [] 3 (chain (pos 2)) fs ≡ some ((chain (pos 4), 2), fs)
last_reference-length_example =
    last_reference-length [] layout 0 7 v fs fs-Represents 2 3 (3 ∷ 4 ∷ []) IsChain-example
      (omega arith)

longest_linear-longest_example :
    (s : Linear) × (longest_linear [] 3 (pos 2) fs ≡ some (s, fs)) × (s.max_len ≡ 3)
unfolding longest_run run_length
longest_linear-longest_example =
    longest_linear-longest [] layout 0 7 v fs fs-Represents 2 3 (3 ∷ 4 ∷ []) IsChain-example refl
      (omega arith)

-- The table with cluster 4 marked bad.
marked :
    (f' : Fat list_host) × (set_next_cluster [] (pos 4) fat_bad fs ≡ some (pos 0, f'))
    × Represents [] layout 0 7 (update v 4 fat_bad) f'
    × SameRest fs f'
marked =
    set_next_cluster-Represents [] layout 0 7 v fs 4 fat_bad fs-Represents (omega arith)
      (omega arith) (inr (inr refl))

six_clusters : Geometry.num_data_clusters fs ≡ some (pos 6, fs)
unfolding Geometry.num_data_clusters Geometry.with_bits num_data_clusters data_clusters_of
    get_num_sectors get_fatsize get_fatsize16 get_fatsize32 get_root_entries root_sectors_of
    conditional_minus division known_bits get_bytes_per_sector get_sectors_per_cluster
    get_reserved_sectors get_num_fats num_sectors_any root_entries_any fatsize_any get8 get16 get32
    ◌*ℤ◌ ◌+ℤ◌
six_clusters = refl

most_free-IsBest_example :
    (best : Best) × (most_free [] 2 false fs ≡ some (best, fs)) × IsBest v 2 false 7 best
most_free-IsBest_example = most_free-IsBest [] 7 v fs view 1 false six_clusters (omega arith)
