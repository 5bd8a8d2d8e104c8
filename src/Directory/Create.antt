-- ===== src/Directory/Create.antt =====
-- lib/directory.c: looking up a path, and creating a file.
use libllfat.Prelude.{
  ℕ, zero, suc, ◌+◌, Bool, false, ◌&&◌, ◌||◌, ◌==◌, if◌then◌else◌, Option, none, some, List, [],
  ◌∷◌, length, take, drop,
}
use libllfat.Prelude.Int.{ℤ, pos, minus_one, pos_part, eqb_ℤ}
use libllfat.Bytes.{Bytes}
use libllfat.Units.Host.{Host}
use libllfat.Units.Io.{SimulatedError}
use libllfat.Boot.Root.{fat_err}
use libllfat.Entry.Fields.{get_first_cluster, zero_entry, set_size, set_first_cluster}
use libllfat.Entry.Names.{is_empty, index_of, set_short_name}
use libllfat.Fs.State.{M, pure, exit, ◌>>=◌, ◌>>◌, get_fat}
use libllfat.Fs.Geometry.{fat_bits, get_root_begin}
use libllfat.Table.Next.{fat_unused}
use libllfat.Table.Position.{cluster_read}
use libllfat.Reference.Target.{cached_cluster, put_cluster}
use libllfat.Directory.Walk.{lookup_file, lookup_first_cluster}
use libllfat.Directory.Free.{Position, no_position, find_free_entry}

-- `for (last = end; *last == '/'; last++)`
abbrev pub slash : ℕ
slash = b'/'

unfoldable pub skip_slashes : Bytes → Bytes
skip_slashes [] = []
skip_slashes (x ∷ xs) = let rest = skip_slashes xs in if x == slash then rest else x ∷ xs

unfoldable pub is_slash_path : Bytes → Bool
is_slash_path [] = false
is_slash_path (x ∷ []) = x == slash
is_slash_path (x ∷ y ∷ xs) = false

-- `strrchr`, as an index.
unfoldable pub last_slash : Bytes → Option ℕ
last_slash [] = none
last_slash (x ∷ xs) = elim (last_slash xs) [
  | some k ↦ some (suc k)
  | none ↦ if x == slash then some 0 else none
]

-- The loop of `fatcreatefiledir` over `scan`: the slashes at the end are cut.
unfoldable pub cut_slashes : Bytes → Bytes
cut_slashes [] = []
cut_slashes (x ∷ xs) =
    let rest = cut_slashes xs in if x == slash && is_empty rest then [] else x ∷ rest

-- The path of the directory, NULL if there is no slash, and the name of the file.
unfoldable pub split_path : Bytes → Option Bytes × Bytes
split_path path = elim (last_slash path) [
  | none ↦ (none, path)
  | some k ↦
      let before = cut_slashes (take k path) in
      (some (if is_empty before then slash ∷ [] else before), drop (suc k) path)
]

module _ {h : Host} where
  -- The new entry at a position; a name that is refused leaves it overwritten.
  unfoldable pub write_new_entry : (directory index : ℕ) → Bytes → M h ℤ
  write_new_entry directory index file = do
    u ← cached_cluster directory
    let (named, r) = set_short_name (zero_entry u index) index file
    f ← get_fat
    let sized = set_size named index 0
    let (linked, _) = set_first_cluster sized (pos index) f.bits fat_unused
    put_cluster (if eqb_ℤ r (pos 0) then linked else named)
    pure (if eqb_ℤ r (pos 0) then pos 0 else minus_one)

module _ {h : Host} (errors : List SimulatedError) (case_equal : Bytes → Bytes → Bool)
    (insensitive : Bool) (scan_entry : Bytes → Option (ℕ × ℕ)) (scan_cluster : Bytes → Option ℤ)
    (fuel : ℕ) where
  -- `*dir` with the position of the file; `none` is the result -1. The first argument is at least
  -- one more than the length of the path; `fuel` is that of each search.
  unfoldable pub lookup_path_dir : ℕ → ℤ → Bytes → M h (ℤ × Option (Option ℕ × ℕ))
  lookup_path_dir zero dir path = exit
  lookup_path_dir (suc left) dir path =
      let more = lookup_path_dir left in
      elim (index_of slash path) [
        | none ↦ (do
          found ← lookup_file errors case_equal insensitive scan_entry fuel (pos_part dir) path
          pure (dir, found))
        | some zero ↦ more dir (drop 1 path)
        | some (suc k) ↦ elim (skip_slashes (drop (suc k) path)) [
          | [] ↦ more dir (take (suc k) path)
          | x ∷ xs ↦ (do
            cl ←
                lookup_first_cluster errors case_equal insensitive scan_entry scan_cluster fuel
                  (pos_part dir) (take (suc k) path)
            dir' ← if eqb_ℤ cl (pos 0) then get_root_begin else pure cl
            if eqb_ℤ dir' fat_err then pure (dir', none) else more dir' (x ∷ xs))
        ]
      ]

  -- `*dir` with the first cluster.
  unfoldable pub lookup_path_first_cluster_dir : ℤ → Bytes → M h (ℤ × ℤ)
  lookup_path_first_cluster_dir dir path =
      if is_slash_path path
      then (do root ← get_root_begin; pure (dir, root))
      else elim (index_of slash path) [
        | none ↦ (do
          cl ←
              lookup_first_cluster errors case_equal insensitive scan_entry scan_cluster fuel
                (pos_part dir) path
          pure (dir, cl))
        | some k ↦ (do
          (dir', found) ← lookup_path_dir (length path + 1) dir path
          elim found [
            | none ↦ pure (dir', fat_err)
            | some (none, i) ↦ exit
            | some (some d, i) ↦ (do
              u ← cached_cluster d
              bits ← fat_bits
              pure (dir', get_first_cluster u i bits))
          ])
      ]

  -- The first cluster of the directory, or `none` where it is not found.
  unfoldable pub directory_cluster : ℤ → Option Bytes → M h (ℤ × Option ℤ)
  directory_cluster dir none = pure (dir, some dir)
  directory_cluster dir (some []) = do root ← get_root_begin; pure (dir, some root)
  directory_cluster dir (some (x ∷ xs)) = do
    root ← get_root_begin
    if is_slash_path (x ∷ xs) then pure (dir, some root) else (do
      (dir', cl) ← lookup_path_first_cluster_dir (if x == slash then root else dir) (x ∷ xs)
      pure
          (dir', (if eqb_ℤ cl fat_err then none else some (if eqb_ℤ cl (pos 0) then root else cl))))

  unfoldable pub find_free_entry_path_dir : ℤ → Option Bytes → M h (ℤ × Position)
  find_free_entry_path_dir dir path = do
    (dir', cl) ← directory_cluster dir path
    elim cl [
      | none ↦ pure (dir', no_position fat_err)
      | some c ↦ (do
        read ← cluster_read errors (pos_part c)
        elim read [
          | none ↦ pure (dir', no_position minus_one)
          | some u ↦ (do p ← find_free_entry errors fuel u.n minus_one; pure (dir', p))
        ])
    ]

  -- `*dir` with the position of the new file.
  unfoldable pub create_file_dir : ℤ → Bytes → M h (ℤ × Position)
  create_file_dir dir path =
      let (dirname, file) = split_path path in
      if is_empty path || is_empty file then pure (dir, no_position minus_one) else (do
        (dir', p) ← find_free_entry_path_dir dir dirname
        elim p.directory [
          | none ↦ pure (dir', no_position minus_one)
          | some d ↦ (do
            r ← write_new_entry d p.index file
            pure (dir', record { directory = some d; index = p.index; result = r }))
        ])

  -- The functions that take `dir` by value.
  unfoldable pub lookup_path : ℤ → Bytes → M h (Option (Option ℕ × ℕ))
  lookup_path dir path = do (dir', found) ← lookup_path_dir (length path + 1) dir path; pure found

  unfoldable pub lookup_path_first_cluster : ℤ → Bytes → M h ℤ
  lookup_path_first_cluster dir path = do
    (dir', cl) ← lookup_path_first_cluster_dir dir path
    pure cl

  unfoldable pub find_free_entry_path : ℤ → Option Bytes → M h Position
  find_free_entry_path dir path = do (dir', p) ← find_free_entry_path_dir dir path; pure p

  unfoldable pub create_file : ℤ → Bytes → M h Position
  create_file dir path = do (dir', p) ← create_file_dir dir path; pure p
