-- ===== src/Tests/Ucs2.antt =====
-- The theorem on lib/ucs2conv.c at a string with characters of one, two and three bytes.
use libllfat.Prelude.{ℕ, ◌≡◌, arith, false, none, some, refl, List, [], ◌∷◌, ◌++◌}
use libllfat.Prelude.Int.{pos}
use libllfat.Bytes.{Bytes}
use libllfat.Entry.Names.{until_nul}
use libllfat.Ucs2.Encode.{fat_ucs2_to_utf8}
use libllfat.Ucs2.Decoded.{decode, fat_ucs2_to_utf8-decoded}

-- What follows the 0 is not part of the string.
abbrev price : List ℕ
price = 0x41 ∷ 0xe9 ∷ 0x20ac ∷ 0 ∷ 7 ∷ []

fat_ucs2_to_utf8-decoded_example :
    (out : Bytes) × (fat_ucs2_to_utf8 false price none ≡ (out ++ 0 ∷ [], pos 0))
    × (decode out ≡ some (until_nul price))
unfolding until_nul
fat_ucs2_to_utf8-decoded_example =
    fat_ucs2_to_utf8-decoded price (omega arith, refl, (omega arith, refl, (omega arith, refl, tt)))
      (omega arith)
