-- ===== src/Tests/Long.antt =====
-- The theorems on long names at a part of a name, and at a name.
use libllfat.Prelude.{
  ℕ, zero, suc, ◌≤◌, ◌≡◌, refl, ap, arith, some, [], ◌∷◌, ◌++◌, length, replicate,
}
use libllfat.Prelude.Int.{pos, ◌-ℤ◌}
use libllfat.Bytes.{Bytes, IsBytes, get8, get16}
use libllfat.Units.{FatUnit}
use libllfat.Entry.Fields.{entry_byte, entry_exists, entry_end, is_long_part, get_attributes}
use libllfat.Entry.Names.{until_nul, same_string}
use libllfat.Long.Scan.{LongScan, long_scan, scan_part}
use libllfat.Directory.Create.{slash}
use libllfat.Long.Names.{invalid_name_long, legalize_name_long}
use libllfat.Long.Legal.{legalize_name_long-valid}
use libllfat.Long.Cut.{long_scan-cut}
use libllfat.Tests.Table.{sector}

-- The first thirteen letters of a name, all A.
abbrev first_part : Bytes
first_part =
    1
    ∷ ((b'A' ∷ 0 ∷ b'A' ∷ 0 ∷ b'A' ∷ 0 ∷ b'A' ∷ 0 ∷ b'A' ∷ 0 ∷ 0x0f ∷ 0 ∷ 77 ∷ [])
        ++ ((b'A' ∷ 0 ∷ b'A' ∷ 0 ∷ b'A' ∷ 0 ∷ b'A' ∷ 0 ∷ b'A' ∷ 0 ∷ b'A' ∷ 0 ∷ [])
            ++ (0 ∷ 0 ∷ b'A' ∷ 0 ∷ b'A' ∷ 0 ∷ [])))

abbrev directory : FatUnit
directory = record (sector 4 first_part) { size = 32 }

-- "BC" was read.
abbrev scan : LongScan
scan = record {
  n = pos 2;
  checksum_read = 77;
  long_directory = 4;
  long_index = 0;
  name = some (b'B' ∷ b'C' ∷ 0 ∷ []);
  len = 3;
  err = pos 0;
}

length-zeros : (n : ℕ) → length {A = ℕ} (replicate n 0) ≡ n
length-zeros zero = refl
length-zeros (suc n) = ap suc (length-zeros n)

long_scan-cut_example :
    (name : Bytes) × ((long_scan (λ c. c) (λ n. replicate n 0) directory 0 scan).0.name ≡ some name)
    × (length (until_nul name) ≤ 13)
unfolding long_scan scan_part entry_end entry_exists is_long_part get_attributes entry_byte get8
    get16 ◌-ℤ◌
long_scan-cut_example =
    long_scan-cut (λ c. c) (λ n. replicate n 0) length-zeros directory 0 (omega arith) (omega arith)
      scan refl

-- The name `a/b`.
abbrev slashed : Bytes
slashed = b'a' ∷ slash ∷ b'b' ∷ []

slashed-IsBytes : IsBytes slashed
slashed-IsBytes zero = omega arith
slashed-IsBytes (suc zero) = omega arith
slashed-IsBytes (suc (suc zero)) = omega arith
slashed-IsBytes (suc (suc (suc i))) = omega arith

legalize_name_long-valid_example :
    (invalid_name_long (legalize_name_long slashed) ≡ pos 0)
    × (length (legalize_name_long slashed) ≤ 30)
unfolding same_string
legalize_name_long-valid_example = legalize_name_long-valid slashed slashed-IsBytes refl
