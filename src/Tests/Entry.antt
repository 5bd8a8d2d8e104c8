-- ===== src/Tests/Entry.antt =====
-- The theorems on lib/entry.c at the second entry of a directory of two.
use libllfat.Prelude.{
  ◌<◌, ◌≤◌, ◌⊎◌, [], ◌∷◌, ◌++◌, ℕ, ◌≡◌, ◌≢◌, refl, arith, true, false, replicate, inr,
}
use libllfat.Prelude.Int.{pos}
use libllfat.Bytes.{Bytes, IsBytes, read_bytes, get8}
use libllfat.Entry.Names.{get_short_name, set_short_name}
use libllfat.Entry.NameTrip.{Plain, joined, get_short_name-set}
use libllfat.Units.{FatUnit}
use libllfat.Tests.Host.{all_bytes, all_bytes-IsBytes}
use libllfat.Entry.Fields.{get_first_cluster, set_first_cluster}
use libllfat.Entry.FieldTrip.{Holds, get_first_cluster-set}
use libllfat.Entry.Time.{
  Tm, get_write_time, set_write_time, get_create_time, set_create_time, get_read_time,
  set_read_time,
}
use libllfat.Entry.TimeTrip.{IsMoment, moment, get_time-set}

abbrev directory : FatUnit
directory = record {
  fd = pos 3;
  n = 2;
  size = 64;
  origin = 0;
  loaded = true;
  data_bytes = replicate 64 0;
  error = 0;
  dirty = false;
  refer = 0;
}

directory-Holds : Holds directory 1
directory-Holds = record { inside = omega arith; sized = omega arith }

get_first_cluster-set_example :
    (directory' : FatUnit) × (set_first_cluster directory (pos 1) (pos 32) (pos 0x12_3456)
      ≡ (directory', pos 0))
    × (get_first_cluster directory' 1 (pos 32) ≡ pos 0x12_3456)
    × (directory'.dirty ≡ true)
    × ((i : ℕ)
        → i ≢ 58
        → i ≢ 59
        → (◌≡◌ {A = ℕ} 32 32 → (i ≢ 52) × (i ≢ 53))
        → get8 directory'.data_bytes i ≡ get8 directory.data_bytes i)
get_first_cluster-set_example =
    get_first_cluster-set directory 1 32 0x12_3456 directory-Holds (inr (inr refl)) (omega arith)

-- The 28th of February 2024, 13:45:59, on a Wednesday.
february : IsMoment 59 45 13 28 1 124
february = record {
  sec_lt = omega arith;
  min_lt = omega arith;
  hour_lt = omega arith;
  mday_le = omega arith;
  mon_lt = omega arith;
  year_ge = omega arith;
  year_lt = omega arith;
}

-- mktime(3) on a date that exists, but for the day of the week.
abbrev same_day : Tm → Tm
same_day tm = record tm { wday = pos 3 }

get_time-set_example :
    (get_write_time same_day (set_write_time directory 1 (moment 59 45 13 28 1 124 (pos 3))) 1
      ≡ moment 58 45 13 28 1 124 (pos 3))
    × (get_create_time same_day (set_create_time directory 1 (moment 59 45 13 28 1 124 (pos 3))) 1
        ≡ moment 58 45 13 28 1 124 (pos 3))
    × (get_read_time same_day (set_read_time directory 1 (moment 59 45 13 28 1 124 (pos 3))) 1
        ≡ moment 0 0 0 28 1 124 (pos 3))
get_time-set_example =
    get_time-set same_day directory 1 59 45 13 28 1 124 (pos 3) directory-Holds february

abbrev pub readme : Bytes
readme = b'R' ∷ b'E' ∷ b'A' ∷ b'D' ∷ b'M' ∷ b'E' ∷ b' ' ∷ b' ' ∷ []

abbrev pub txt : Bytes
txt = b'T' ∷ b'X' ∷ b'T' ∷ []

pub readme-txt-Plain : Plain readme txt
readme-txt-Plain = record {
  name_length = refl;
  ext_length = refl;
  name_plain = refl;
  ext_plain = refl;
  name_first = refl;
  ext_first = λ e. absurd (ground (arith, e));
}

pub readme-txt-IsBytes : IsBytes (readme ++ txt)
unfolding all_bytes
readme-txt-IsBytes = all_bytes-IsBytes (readme ++ txt) refl

get_short_name-set_example :
    (directory' : FatUnit) × (set_short_name directory 1 (joined readme txt) ≡ (directory', pos 0))
    × (read_bytes directory'.data_bytes 32 11 ≡ readme ++ txt)
    × (get_short_name directory' 1 ≡ joined readme txt)
    × (directory'.dirty ≡ true)
    × ((j : ℕ) → (j < 32) ⊎ (43 ≤ j) → get8 directory'.data_bytes j ≡ get8 directory.data_bytes j)
get_short_name-set_example =
    get_short_name-set directory 1 readme txt directory-Holds readme-txt-Plain readme-txt-IsBytes
