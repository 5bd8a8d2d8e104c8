-- ===== src/Directory/Paths.antt =====
-- lib/directory.c: `fatlookuppathdir` along the parts of a path.
use libllfat.Prelude.{ℕ, ◌<◌, ◌≡◌, Bool, if◌then◌else◌, Option, none, List, [], ◌∷◌, length}
use libllfat.Prelude.Int.{ℤ, pos, pos_part, eqb_ℤ}
use libllfat.Bytes.{Bytes}
use libllfat.Units.Host.{Host}
use libllfat.Units.Io.{SimulatedError}
use libllfat.Boot.Root.{fat_err}
use libllfat.Fs.State.{M, pure, ◌>>=◌}
use libllfat.Fs.Geometry.{get_root_begin}
use libllfat.Directory.Walk.{lookup_file, lookup_first_cluster}
use libllfat.Directory.Create.{lookup_path_dir}
use libllfat.Directory.Parts.{parts}

module _ {h : Host} (errors : List SimulatedError) (case_equal : Bytes → Bytes → Bool)
    (insensitive : Bool) (scan_entry : Bytes → Option (ℕ × ℕ)) (scan_cluster : Bytes → Option ℤ)
    (fuel : ℕ) where
  -- From directory to directory by the parts but the last, which is looked up in the last one.
  unfoldable pub follow_parts : Bytes → List Bytes → ℤ → M h (ℤ × Option (Option ℕ × ℕ))
  follow_parts p [] dir = do
    found ← lookup_file errors case_equal insensitive scan_entry fuel (pos_part dir) p
    pure (dir, found)
  follow_parts [] (q ∷ qs) dir = follow_parts q qs dir
  follow_parts (x ∷ xs) (q ∷ qs) dir = do
    cl ←
        lookup_first_cluster errors case_equal insensitive scan_entry scan_cluster fuel
          (pos_part dir) (x ∷ xs)
    dir' ← if eqb_ℤ cl (pos 0) then get_root_begin else pure cl
    if eqb_ℤ dir' fat_err then pure (dir', none) else follow_parts q qs dir'

module _ (h : Host) (errors : List SimulatedError) (case_equal : Bytes → Bytes → Bool)
    (insensitive : Bool) (scan_entry : Bytes → Option (ℕ × ℕ)) (scan_cluster : Bytes → Option ℤ)
    (fuel : ℕ) where
  abbrev Walk : Type 0
  Walk = M h (ℤ × Option (Option ℕ × ℕ))

  abbrev walk : ℕ → ℤ → Bytes → Walk
  walk = lookup_path_dir errors case_equal insensitive scan_entry scan_cluster fuel

  abbrev follow : Bytes → List Bytes → ℤ → Walk
  follow = follow_parts errors case_equal insensitive scan_entry scan_cluster fuel

  abbrev Walks : ℕ → Type 0
  Walks left =
      (dir : ℤ) (path : Bytes)
      → length path < left
      → walk left dir path ≡ follow (parts path).0 (parts path).1 dir

  -- A directory is looked up in another, and the walk goes on in it.
  abbrev into : ℤ → Bytes → (ℤ → Walk) → Walk
  into dir name more = do
    cl ←
        lookup_first_cluster errors case_equal insensitive scan_entry scan_cluster fuel
          (pos_part dir) name
    dir' ← if eqb_ℤ cl (pos 0) then get_root_begin else pure cl
    if eqb_ℤ dir' fat_err then pure (dir', none) else more dir'
