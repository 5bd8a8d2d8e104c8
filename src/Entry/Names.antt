-- ===== src/Entry/Names.antt =====
-- lib/entry.c: short names. A string of C is the list of its bytes, without the final 0.
use libllfat.Prelude.{
  ℕ, zero, suc, ◌*◌, Bool, true, false, ◌&&◌, ◌||◌, ◌==◌, ltb, if◌then◌else◌, Option, none, some,
  [], ◌∷◌, ◌++◌, length, take, drop, get_or,
}
use mathlib.Core.Option
use libllfat.Prelude.Int.{ℤ, pos, minus_one, eqb_ℤ}
use libllfat.Bytes.{Bytes, read_bytes}
use libllfat.Units.{FatUnit, store_bytes, mark_dirty}

abbrev pub space : ℕ
space = b' '

abbrev pub is_empty : Bytes → Bool
is_empty [] = true
is_empty (x ∷ xs) = false

-- The bytes before a 0, or before the end of the array.
unfoldable pub until_nul : Bytes → Bytes
until_nul [] = []
until_nul (x ∷ xs) = let rest = until_nul xs in if x == 0 then [] else x ∷ rest

-- Without the spaces at the end.
unfoldable pub trim : Bytes → Bytes
trim [] = []
trim (x ∷ xs) = let rest = trim xs in if x == space && is_empty rest then [] else x ∷ rest

-- With spaces at the end, up to a length.
unfoldable pub pad : ℕ → Bytes → Bytes
pad zero xs = []
pad (suc n) [] = space ∷ pad n []
pad (suc n) (x ∷ xs) = x ∷ pad n xs

-- `strchr`, as an index.
unfoldable pub index_of : ℕ → Bytes → Option ℕ
index_of c [] = none
index_of c (x ∷ xs) = if x == c then some 0 else Option.map suc (index_of c xs)

-- The string that `fatshortnametostring` leaves in its array.
unfoldable pub short_to_string : Bytes → Bytes
short_to_string src =
    until_nul
      (trim (take 8 src) ++ (if get_or src 8 0 == space then [] else b'.' ∷ trim (drop 8 src)))

-- The array is filled with spaces first, also where the name is refused. The second argument is where
-- the first dot is.
unfoldable pub split_name : Bytes → Option ℕ → Bytes × ℤ
split_name src none = if ltb 8 (length src) then (pad 11 [], minus_one) else (pad 11 src, pos 0)
split_name src (some zero) = (pad 11 src, pos 0)
split_name src (some (suc k)) =
    let base = take (suc k) src in
    let ext = drop (suc (suc k)) src in
    if ltb 8 (suc k)
    then (pad 11 [], minus_one)
    else if ltb 3 (length ext)
    then (pad 11 base, minus_one)
    else (pad 8 base ++ pad 3 ext, pos 0)

unfoldable pub string_to_short : Bytes → Bytes × ℤ
string_to_short src = split_name src (index_of b'.' src)

unfoldable pub get_short_name : FatUnit → ℕ → Bytes
get_short_name directory index = short_to_string (read_bytes directory.data_bytes (index * 32) 11)

-- The entry is overwritten in any case, and marked dirty if the name is taken.
unfoldable pub set_short_name : FatUnit → ℕ → Bytes → FatUnit × ℤ
set_short_name directory index name =
    let (short, res) = string_to_short name in
    let stored = store_bytes directory (index * 32) short in
    (if eqb_ℤ res (pos 0) then mark_dirty stored else stored, res)

-- Strings are equal, as strcmp(3) tells.
unfoldable pub same_string : Bytes → Bytes → Bool
same_string [] [] = true
same_string [] (y ∷ ys) = false
same_string (x ∷ xs) [] = false
same_string (x ∷ xs) (y ∷ ys) = x == y && same_string xs ys

-- The macros `DOTFILE` and `DOTDOTFILE` hold a 0 behind the dots, so that as strings they are the dots.
unfoldable pub is_dotfile : FatUnit → ℕ → Bool
is_dotfile directory index =
    let name = get_short_name directory index in
    same_string (b'.' ∷ []) name || same_string (b'.' ∷ b'.' ∷ []) name
