-- ===== src/Long/Names.antt =====
-- lib/long.c: which long names are valid, their legal form, and the form that is stored. The bytes of a
-- `char` from 0x80 on are negative, as on the hosts where `char` has a sign.
use libllfat.Prelude.{
  ℕ, zero, suc, ◌+◌, ◌-◌, ◌/◌, ◌%◌, Bool, true, not, ◌&&◌, ◌||◌, ◌==◌, ltb, if◌then◌else◌, none,
  some, [], ◌∷◌, ◌++◌, take, drop,
}
use libllfat.Prelude.Int.{ℤ, pos, minus_one, eqb_ℤ}
use libllfat.Bytes.{Bytes}
use libllfat.Entry.Names.{is_empty, index_of, same_string, space}
use libllfat.Directory.Names.{dot, is_in}
use libllfat.Directory.Create.{slash, last_slash}

abbrev pub forbidden : Bytes
forbidden = b'"' ∷ b'*' ∷ b':' ∷ b'<' ∷ b'>' ∷ b'?' ∷ b'\\' ∷ b'|' ∷ []

-- `*scan < 32`
abbrev pub is_low : ℕ → Bool
is_low c = ltb c 32 || not (ltb c 128)

unfoldable pub all_legal : Bytes → Bool
all_legal [] = true
all_legal (x ∷ xs) = not (is_in forbidden x) && (not (is_low x) && all_legal xs)

abbrev pub is_dots : Bytes → Bool
is_dots name = same_string name (dot ∷ []) || same_string name (dot ∷ dot ∷ [])

unfoldable pub last_part : Bytes → Bytes
last_part path = elim (last_slash path) [ none ↦ path | some k ↦ drop (suc k) path ]

unfoldable pub invalid_path_long : Bytes → ℤ
invalid_path_long path =
    if not (all_legal path) then minus_one else if is_dots (last_part path) then pos 1 else pos 0

unfoldable pub invalid_name_long : Bytes → ℤ
invalid_name_long name =
    if not (eqb_ℤ (invalid_path_long name) (pos 0)) || is_in name slash
    then minus_one
    else if is_dots name
    then pos 1
    else pos 0

-- `%X` of a byte that is not 0: of a negative `char`, the `int` has six more digits F.
unfoldable pub hex_digit : ℕ → ℕ
hex_digit d = if ltb d 10 then b'0' + d else b'A' + (d - 10)

unfoldable pub hex : ℕ → Bytes
hex c =
    let low = hex_digit (c % 16) ∷ [] in
    if ltb c 16
    then low
    else if ltb c 128
    then hex_digit (c / 16) ∷ low
    else b'F' ∷ b'F' ∷ b'F' ∷ b'F' ∷ b'F' ∷ b'F' ∷ hex_digit (c / 16) ∷ low

-- `_fatlegalize`
unfoldable pub legalize : Bytes → Bytes → Bytes
legalize illegal [] = []
legalize illegal (x ∷ xs) =
    let rest = legalize illegal xs in
    if is_in illegal x || is_low x then (b'[' ∷ hex x) ++ (b']' ∷ rest) else x ∷ rest

unfoldable pub legalize_name_long : Bytes → Bytes
legalize_name_long = legalize (forbidden ++ (b'[' ∷ b']' ∷ slash ∷ []))

unfoldable pub legalize_path_long : Bytes → Bytes
legalize_path_long = legalize (forbidden ++ (b'[' ∷ b']' ∷ []))

unfoldable pub skip_spaces : Bytes → Bytes
skip_spaces [] = []
skip_spaces (x ∷ xs) = let rest = skip_spaces xs in if x == space then rest else x ∷ xs

-- The part before the slash, and what begins with it.
unfoldable pub before_slash : Bytes → Bytes × Bytes
before_slash path = elim (index_of slash path) [
  | none ↦ (path, [])
  | some k ↦ (take k path, drop k path)
]

-- The spaces and the dots at the end are cut.
unfoldable pub cut_end : Bytes → Bytes
cut_end [] = []
cut_end (x ∷ xs) =
    let rest = cut_end xs in if is_empty rest && (x == space || x == dot) then [] else x ∷ rest

-- `_fatstoragepartlong`: what it writes, and what is left of the source. Of the parts `.` and `..`
-- nothing is cut.
unfoldable pub storage_part_long : Bytes → Bytes × Bytes
storage_part_long src =
    let (part, left) = before_slash (skip_spaces src) in
    ((if is_dots part then part else cut_end part), left)

-- The `char` behind the part is the one behind it in the source: the slash of a path stays, with no
-- final 0.
unfoldable pub storage_name_long : Bytes → Bytes
storage_name_long name = let (part, left) = storage_part_long name in part ++ take 1 left

-- `fuel` is more than the number of slashes.
unfoldable pub storage_path_long : (fuel : ℕ) → Bytes → Bytes
storage_path_long zero path = []
storage_path_long (suc fuel) path =
    let (part, behind) = storage_part_long path in
    elim behind [ [] ↦ part | x ∷ left ↦ part ++ (x ∷ storage_path_long fuel left) ]
