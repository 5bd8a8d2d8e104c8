-- ===== src/Tests/Directory.antt =====
-- The theorems on the names of files at one name.
use libllfat.Prelude.{ℕ, ◌≡◌, ◌-◌, refl, arith, Bool, ◌&&◌, ◌||◌, leb, if◌then◌else◌, some, [], ◌∷◌}
use libllfat.Prelude.Int.{pos}
use libllfat.Bytes.{Bytes}
use libllfat.Entry.Names.{string_to_short, short_to_string, index_of, same_string}
use libllfat.Directory.Names.{invalid_name, storage_name, all_allowed, is_allowed, dot_fits}
use libllfat.Directory.Tidy.{KeepsMarks, storage_name-tidy}
use libllfat.Directory.Valid.{invalid_name-stored}

-- isalnum(3) and toupper(3) on ASCII.
abbrev is_alnum : ℕ → Bool
is_alnum c =
    (leb b'0' c && leb c b'9') || ((leb b'A' c && leb c b'Z') || (leb b'a' c && leb c b'z'))

abbrev upper : ℕ → ℕ
upper c = if leb b'a' c && leb c b'z' then c - 32 else c

upper-KeepsMarks : KeepsMarks upper
upper-KeepsMarks = record {
  dot_is = refl;
  space_is = refl;
  dot_from = λ c e. ground arith;
  space_from = λ c e. ground arith;
}

-- "a .c "
abbrev name : Bytes
name = b'a' ∷ b' ' ∷ b'.' ∷ b'c' ∷ b' ' ∷ []

storage_name-tidy_example : storage_name upper name ≡ some (b'A' ∷ b'.' ∷ b'C' ∷ [])
storage_name-tidy_example =
    storage_name-tidy upper upper-KeepsMarks b'a' (b' ' ∷ b'.' ∷ b'c' ∷ b' ' ∷ []) (ground arith)
      refl

-- "A.C"
abbrev stored : Bytes
stored = b'A' ∷ b'.' ∷ b'C' ∷ []

stored-valid : invalid_name is_alnum stored ≡ pos 0
unfolding invalid_name all_allowed is_allowed dot_fits index_of same_string
stored-valid = refl

invalid_name-stored_example :
    (short : Bytes) × (string_to_short stored ≡ (short, pos 0)) × (short_to_string short ≡ stored)
invalid_name-stored_example = invalid_name-stored is_alnum refl stored stored-valid refl
