-- ===== src/Entry/NameTrip.antt =====
-- Short names: from the eleven bytes of an entry to a string and back.
use libllfat.Prelude.{
  append_nil, ℕ, length-append, suc, ◌+◌, ◌*◌, ◌≤◌, ◌<◌, ◌≡◌, refl, ap, sym, ◌∙◌, arith, true,
  false, ◌⊎◌, ◌==◌, ltb, if◌then◌else◌, some, [], ◌∷◌, ◌++◌, length, get_or, Bool-cases, inl, inr,
}
use libllfat.Prelude.Int.{pos}
use libllfat.Entry.Names.{
  split_name, get_short_name, set_short_name, space, until_nul, trim, pad, short_to_string,
  string_to_short,
}
use libllfat.Bytes.{Bytes, IsBytes, get8, read_bytes}
use libllfat.Bytes.Laws.{read_bytes-write_bytes, get8-write_bytes-apart}
use libllfat.Units.{FatUnit, store_bytes, mark_dirty}
use libllfat.Entry.FieldTrip.{Holds}
use libllfat.Entry.Padding.{
  all_of, is_plain, pad-trim, trim-all, length-trim, until_nul-plain, index_of-plain,
  index_of-append, pad-append, take_first, take_name, drop_name, get_name, until_nul-append,
}

-- A name of eight bytes and an extension of three, as they lie in an entry, that make a string: their bytes
-- are plain, the name does not begin with a space, and the extension only if it is empty.
pub record Plain (name ext : Bytes) : Type 0 where
  pub name_length : length name ≡ 8
  pub ext_length : length ext ≡ 3
  pub name_plain : all_of is_plain name ≡ true
  pub ext_plain : all_of is_plain ext ≡ true
  pub name_first : (get_or name 0 0 == space) ≡ false
  pub ext_first : (get_or ext 0 0 == space) ≡ true → ext ≡ pad 3 []

pub trim-first :
    (xs : Bytes)
    → length xs ≡ 8
    → (get_or xs 0 0 == space) ≡ false
    → (k : ℕ) × length (trim xs) ≡ suc k
unfolding trim
trim-first [] h k = absurd (omega arith)
trim-first (x ∷ xs) h k = (length (trim xs), ground arith)

dotted :
    (name ext : Bytes)
    → Plain name ext
    → string_to_short (trim name ++ b'.' ∷ trim ext) ≡ (name ++ ext, pos 0)
unfolding string_to_short split_name
dotted name ext h =
    let (k, long) = trim-first name h.name_length h.name_first in
    let (base, rest) = take_first k (trim name) (trim ext) long in
    let dot =
      index_of-append (trim name) (trim ext) (trim-all is_plain name h.name_plain) ∙ ap some long in
    let short : ltb 8 (suc k) ≡ false = ground (arith, length-trim name, h.name_length, long) in
    let short_ext : ltb 3 (length (trim ext)) ≡ false =
      ground (arith, length-trim ext, h.ext_length) in
    rw
      (
        dot,
        base,
        rest,
        short,
        short_ext,
        pad-trim 8 name h.name_length,
        pad-trim 3 ext h.ext_length,
      )
      refl

undotted :
    (name ext : Bytes)
    → Plain name ext
    → ext ≡ pad 3 []
    → string_to_short (trim name) ≡ (name ++ ext, pos 0)
unfolding string_to_short split_name
undotted name ext h e =
    let dot = index_of-plain (trim name) (trim-all is_plain name h.name_plain) in
    let bound : length (trim name) ≤ 8 = omega (arith, length-trim name, h.name_length) in
    let short : ltb 8 (length (trim name)) ≡ false = ground (arith, bound) in
    rw (dot, short, pad-append 8 3 (trim name) bound, pad-trim 8 name h.name_length, e) refl

-- The string: the name, and the extension behind a dot.
abbrev pub joined : Bytes → Bytes → Bytes
joined name ext = trim name ++ (if get_or ext 0 0 == space then [] else b'.' ∷ trim ext)

joined-Plain : (name ext : Bytes) → Plain name ext → until_nul (joined name ext) ≡ joined name ext
unfolding until_nul
joined-Plain name ext h =
    until_nul-append (trim name) _ (trim-all is_plain name h.name_plain)
    ∙ ap (λ (r : Bytes). trim name ++ r)
        (elim (Bool-cases (get_or ext 0 0 == space)) [
          | inl e ↦ rw e refl
          | inr e ↦ rw (e, until_nul-plain (trim ext) (trim-all is_plain ext h.ext_plain)) refl
        ])

pub short_to_string_lem :
    (name ext : Bytes) → Plain name ext → short_to_string (name ++ ext) ≡ joined name ext
unfolding short_to_string
short_to_string_lem name ext h =
    rw
      (
        take_name 8 name ext h.name_length,
        drop_name 8 name ext h.name_length,
        get_name 8 name ext h.name_length,
      )
      (joined-Plain name ext h)

joined_trip :
    (name ext : Bytes) → Plain name ext → string_to_short (joined name ext) ≡ (name ++ ext, pos 0)
joined_trip name ext h = elim (Bool-cases (get_or ext 0 0 == space)) [
  | inl e ↦ rw (e, append_nil (trim name)) (undotted name ext h (h.ext_first e))
  | inr e ↦ rw e (dotted name ext h)
]

module _ (directory : FatUnit) (index : ℕ) (name ext : Bytes) (holds : Holds directory index)
    (plain : Plain name ext) (bytes : IsBytes (name ++ ext)) where
  stored : FatUnit
  stored = mark_dirty (store_bytes directory (index * 32) (name ++ ext))

  set_run : set_short_name directory index (joined name ext) ≡ (stored, pos 0)
  unfolding set_short_name stored
  set_run = rw (joined_trip name ext plain) refl

  fits : index * 32 + length (name ++ ext) ≤ length directory.data_bytes
  fits = omega (arith, holds.inside, length-append name ext, plain.name_length, plain.ext_length)

  eleven : length (name ++ ext) ≡ 11
  eleven = omega (arith, length-append name ext, plain.name_length, plain.ext_length)

  read_lem : read_bytes stored.data_bytes (index * 32) 11 ≡ name ++ ext
  unfolding stored
  read_lem =
      ap (λ (k : ℕ). read_bytes stored.data_bytes (index * 32) k) (sym eleven)
      ∙ read_bytes-write_bytes directory.data_bytes (index * 32) (name ++ ext) fits bytes

  -- The string of eleven bytes, where name and extension are plain and neither is preceded by a space, is
  -- taken by `fatentrysetshortname`, which stores these bytes, marks the unit dirty and changes no other
  -- byte; `fatentrygetshortname` then returns the string.
  pub get_short_name-set :
      (directory' : FatUnit) × (set_short_name directory index (joined name ext)
        ≡ (directory', pos 0))
      × (read_bytes directory'.data_bytes (index * 32) 11 ≡ name ++ ext)
      × (get_short_name directory' index ≡ joined name ext)
      × (directory'.dirty ≡ true)
      × ((j : ℕ)
          → (j < index * 32) ⊎ (index * 32 + 11 ≤ j)
          → get8 directory'.data_bytes j ≡ get8 directory.data_bytes j)
  unfolding stored get_short_name
  get_short_name-set = (
    stored,
    set_run,
    read_lem,
    rw read_lem (short_to_string_lem name ext plain),
    refl,
    λ (j : ℕ) apart.
        get8-write_bytes-apart directory.data_bytes (index * 32) (name ++ ext) j fits
          (elim apart [ inl h ↦ inl h | inr h ↦ inr (omega (arith, eleven)) ]),
  )
