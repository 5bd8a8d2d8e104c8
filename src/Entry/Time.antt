-- ===== src/Entry/Time.antt =====
-- lib/entry.c: the dates and times of an entry.
use Prim.Native.Nat.{bit_or}
use libllfat.Prelude.{ℕ, ◌+◌, ◌*◌, ◌/◌, ◌%◌, Option, none, some}
use libllfat.Prelude.Int.{ℤ, pos, negsuc, minus_one, u16, ◌+ℤ◌, ◌-ℤ◌, ◌*ℤ◌}
use libllfat.Bytes.{get16}
use libllfat.Units.{FatUnit, store16, mark_dirty}

-- The fields of `struct tm` that the library reads or writes.
pub record Tm : Type 0 where
  pub sec : ℤ
  pub min : ℤ
  pub hour : ℤ
  pub mday : ℤ
  pub mon : ℤ
  pub year : ℤ
  pub wday : ℤ

-- `z >> 1`
unfoldable pub half : ℤ → ℤ
half (pos n) = pos (n / 2)
half (negsuc n) = negsuc (n / 2)

unfoldable pub tm_init : Tm
tm_init = record {
  sec = pos 0;
  min = pos 0;
  hour = pos 0;
  mday = pos 0;
  mon = pos 0;
  year = pos 0;
  wday = pos 0;
}

unfoldable pub date_to_tm : ℕ → Tm → Tm
date_to_tm d tm = record tm {
  mday = pos (d % 0x20);
  mon = pos (d / 32 % 0x10) -ℤ pos 1;
  year = pos (80 + d / 512);
  wday = minus_one;
}

unfoldable pub time_to_tm : ℕ → Tm → Tm
time_to_tm d tm = record tm {
  sec = pos (2 * (d % 0x20));
  min = pos (d / 32 % 0x40);
  hour = pos (d / 2048);
}

unfoldable pub tm_to_date : Tm → ℕ
tm_to_date tm =
    bit_or (bit_or (bit_or 0 (u16 tm.mday)) (u16 ((tm.mon +ℤ pos 1) *ℤ pos 32)))
      (u16 ((tm.year -ℤ pos 80) *ℤ pos 512))

unfoldable pub tm_to_time : Tm → ℕ
tm_to_time tm =
    bit_or (bit_or (bit_or 0 (u16 (half tm.sec))) (u16 (tm.min *ℤ pos 32)))
      (u16 (tm.hour *ℤ pos 2048))

-- A position may be missing: reads have a date and no time.
unfoldable pub set_time : FatUnit → ℕ → Option ℕ → ℕ → Tm → FatUnit
set_time directory index none date_pos tm =
    mark_dirty (store16 directory (32 * index + date_pos) (tm_to_date tm))
set_time directory index (some time_pos) date_pos tm = mark_dirty (
    store16 (store16 directory (32 * index + time_pos) (tm_to_time tm)) (32 * index + date_pos)
      (tm_to_date tm))

unfoldable pub set_write_time : FatUnit → ℕ → Tm → FatUnit
set_write_time directory index = set_time directory index (some 22) 24

unfoldable pub set_create_time : FatUnit → ℕ → Tm → FatUnit
set_create_time directory index = set_time directory index (some 14) 16

unfoldable pub set_read_time : FatUnit → ℕ → Tm → FatUnit
set_read_time directory index = set_time directory index none 18

-- `mktime` stands for mktime(3) under an empty TZ, as `_fattmfixday` calls it.
module _ (mktime : Tm → Tm) where
  unfoldable pub get_time : FatUnit → ℕ → Option ℕ → ℕ → Tm
  get_time directory index none date_pos =
      mktime (date_to_tm (get16 directory.data_bytes (32 * index + date_pos)) tm_init)
  get_time directory index (some time_pos) date_pos = mktime (
      date_to_tm (get16 directory.data_bytes (32 * index + date_pos))
        (time_to_tm (get16 directory.data_bytes (32 * index + time_pos)) tm_init))

  unfoldable pub get_write_time : FatUnit → ℕ → Tm
  get_write_time directory index = get_time directory index (some 22) 24

  unfoldable pub get_create_time : FatUnit → ℕ → Tm
  get_create_time directory index = get_time directory index (some 14) 16

  unfoldable pub get_read_time : FatUnit → ℕ → Tm
  get_read_time directory index = get_time directory index none 18
