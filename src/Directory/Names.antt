-- ===== src/Directory/Names.antt =====
-- lib/directory.c: which names are valid, and the form that is stored. isalnum(3) and toupper(3) are
-- parameters.
use libllfat.Prelude.{
  ℕ, ◌+◌, Bool, true, false, not, ◌&&◌, ◌||◌, ◌==◌, ltb, if◌then◌else◌, Option, none, some, List,
  [], ◌∷◌, ◌++◌, length, take, drop, get_or,
}
use libllfat.Prelude.Int.{ℤ, pos, minus_one, ltb_ℤ}
use libllfat.Bytes.{Bytes}
use libllfat.Entry.Names.{space, is_empty, index_of, same_string}

abbrev pub dot : ℕ
dot = b'.'

-- A byte that is found in a list.
abbrev pub is_in : Bytes → ℕ → Bool
is_in [] x = false
is_in (y ∷ ys) x = y == x || is_in ys x

abbrev pub punctuation : Bytes
punctuation =
    b'.' ∷ b' ' ∷ b'$' ∷ b'%' ∷ b'\'' ∷ b'-' ∷ b'_' ∷ b'@' ∷ b'~' ∷ b'`' ∷ b'!' ∷ b'(' ∷ b')' ∷ b'{'
    ∷ b'}' ∷ b'^' ∷ b'#' ∷ b'&' ∷ []

abbrev pub begins_with : ℕ → Bytes → Bool
begins_with c xs = not (is_empty xs) && get_or xs 0 0 == c

-- Whether the first dot, if any, is at a place for one; the argument is what follows it.
unfoldable pub dot_fits : Bytes → Option ℕ → Bool
dot_fits name none = not (ltb 8 (length name))
dot_fits name (some k) =
    let ext = drop (k + 1) name in
    not (k == 0)
    && (not (is_in ext dot)
        && (not (ltb 8 k || ltb 3 (length ext)) && not (is_empty ext || begins_with space ext)))

module _ (is_alnum : ℕ → Bool) where
  unfoldable pub is_allowed : ℕ → Bool
  is_allowed c = is_alnum c || (is_in punctuation c || ltb 127 c)

  unfoldable pub all_allowed : Bytes → Bool
  all_allowed [] = true
  all_allowed (x ∷ xs) = is_allowed x && all_allowed xs

  -- 0 for a valid name, 1 for the dots, -1 for a name that is not valid.
  unfoldable pub invalid_name : Bytes → ℤ
  invalid_name name =
      if is_empty name || begins_with space name
      then minus_one
      else if same_string name (dot ∷ []) || same_string name (dot ∷ dot ∷ [])
      then pos 1
      else if dot_fits name (index_of dot name) && all_allowed name
      then pos 0
      else minus_one

-- What `_fatstoragepart` has written, and the place behind the last byte that is no space, if any.
pub record Written : Type 0 where
  pub dst : Bytes
  pub nonspace : Option ℕ

-- `*dst = nonspace`
abbrev pub cut : Bytes → Option ℕ → Bytes
cut dst none = dst
cut dst (some k) = take k dst

module _ (upper : ℕ → ℕ) where
  unfoldable pub write_char : ℕ → Written → Written
  write_char c w =
      let dst = if c == dot then cut w.dst w.nonspace else w.dst in
      let nonspace = if c == dot then none else w.nonspace in
      let dst' = dst ++ upper c ∷ [] in
      record { dst = dst'; nonspace = if upper c == space then nonspace else some (length dst') }

  -- The loop of `_fatstoragepart`: the part up to a slash, and the rest.
  unfoldable pub storage_loop : Bytes → Written → Bytes × Bytes
  storage_loop [] w = (cut w.dst w.nonspace, [])
  storage_loop (c ∷ src) w =
      let rest = storage_loop src (write_char c w) in
      if c == b'/' then (cut w.dst w.nonspace, c ∷ src) else rest

  unfoldable pub storage_part : Bytes → Bytes × Bytes
  storage_part src = storage_loop src (record { dst = []; nonspace = none })

  -- With a slash in the name the code writes no end of the string.
  unfoldable pub storage_name : Bytes → Option Bytes
  storage_name name =
      let (part, rest) = storage_part name in if is_empty rest then some part else none

  -- The loop of `fatstoragepath`, with that of `_fatstoragepart` in it.
  unfoldable pub path_loop : Bytes → Written → Bytes
  path_loop [] w = cut w.dst w.nonspace
  path_loop (c ∷ src) w =
      let next = path_loop src (record { dst = []; nonspace = none }) in
      let rest = path_loop src (write_char c w) in
      if c == b'/' then cut w.dst w.nonspace ++ c ∷ next else rest

  unfoldable pub storage_path : Bytes → Bytes
  storage_path path = path_loop path (record { dst = []; nonspace = none })

-- The parts of a path between slashes; `part` is what is read of the first one.
unfoldable pub parts_from : Bytes → Bytes → List Bytes
parts_from part [] = if is_empty part then [] else part ∷ []
parts_from part (x ∷ xs) =
    let rest = parts_from (if x == b'/' then [] else part ++ (x ∷ [])) xs in
    if x == b'/' && not (is_empty part) then part ∷ rest else rest

-- The loop of `fatinvalidpath`: the result is that of the last part, or of the first that is not valid.
unfoldable pub invalid_parts : (Bytes → ℤ) → List Bytes → ℤ → ℤ
invalid_parts invalid [] res = res
invalid_parts invalid (p ∷ ps) res =
    let rest = invalid_parts invalid ps (invalid p) in
    if ltb_ℤ (invalid p) (pos 0) then invalid p else rest

unfoldable pub invalid_path : (ℕ → Bool) → Bytes → ℤ
invalid_path is_alnum path = invalid_parts (invalid_name is_alnum) (parts_from [] path) (pos 0)
