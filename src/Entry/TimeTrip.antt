-- ===== src/Entry/TimeTrip.antt =====
-- Round trips of the dates and times of an entry.
use Prim.Native.Nat.{bit_or, bit_or-bitwise, digits, max}
use mathlib.Core.Path.{ap₂}
use libllfat.Prelude.{
  ℕ, zero, suc, ◌+◌, ◌-◌, ◌*◌, ◌/◌, ◌%◌, ◌<◌, ◌≤◌, ◌≡◌, ◌∙◌, refl, ap, arith, length,
}
use libllfat.Prelude.Int.{ℤ, pos, minus_one, u16, ◌+ℤ◌, ◌-ℤ◌, ◌*ℤ◌, pos-*ℤ}
use libllfat.Bytes.{get16, put16}
use libllfat.Bytes.Laws.{get16-put16, get8-put16, get16-Agree, Agree, length-put16}
use libllfat.Units.{FatUnit, store16}
use libllfat.Entry.FieldTrip.{Holds}
use libllfat.Entry.Time.{
  Tm, half, tm_init, date_to_tm, time_to_tm, tm_to_date, tm_to_time, get_time, set_time,
  get_write_time, set_write_time, get_create_time, set_create_time, get_read_time, set_read_time,
}

-- Doubled `k` times.
abbrev shift : ℕ → ℕ → ℕ
shift zero b = b
shift (suc k) b = 2 * shift k b

digits_disjoint :
    (k n a c : ℕ) → a ≤ n → a < shift k 1 → digits (λ b. b) max n a (shift k c) ≡ a + shift k c
digits_disjoint k zero a c le lt = omega arith
digits_disjoint k (suc n) zero c le lt = omega arith
digits_disjoint zero (suc n) (suc a) c le lt = absurd (omega arith)
digits_disjoint (suc k) (suc n) (suc a) c le lt =
    let below = digits_disjoint k n (suc a / 2) c (omega arith) (omega arith) in
    let whole : 2 * shift k c / 2 ≡ shift k c = omega arith in
    let even : 2 * shift k c % 2 ≡ 0 = omega arith in rw (whole, even, below) (ground arith)

-- Where the digits of `a` end before those of `b` begin, `|` is addition.
bit_or_disjoint : (k a c : ℕ) → a < shift k 1 → bit_or a (shift k c) ≡ a + shift k c
bit_or_disjoint k a c lt = bit_or-bitwise a (shift k c) ∙ digits_disjoint k a a c (omega arith) lt

or_5 : (a c : ℕ) → a < 32 → bit_or a (c * 32) ≡ a + c * 32
or_5 a c lt = let e : shift 5 c ≡ c * 32 = omega arith in rw (← e) (bit_or_disjoint 5 a c lt)

or_9 : (a c : ℕ) → a < 512 → bit_or a (c * 512) ≡ a + c * 512
or_9 a c lt = let e : shift 9 c ≡ c * 512 = omega arith in rw (← e) (bit_or_disjoint 9 a c lt)

or_11 : (a c : ℕ) → a < 2048 → bit_or a (c * 2048) ≡ a + c * 2048
or_11 a c lt = let e : shift 11 c ≡ c * 2048 = omega arith in rw (← e) (bit_or_disjoint 11 a c lt)

zero_or : (a : ℕ) → bit_or 0 a ≡ a
zero_or a = bit_or-bitwise 0 a

-- A date and time of a file system: the years 1980 to 2107, as `struct tm` counts them.
pub record IsMoment (sec min hour mday mon year : ℕ) : Type 0 where
  pub sec_lt : sec < 60
  pub min_lt : min < 60
  pub hour_lt : hour < 24
  pub mday_le : mday ≤ 31
  pub mon_lt : mon < 12
  pub year_ge : 80 ≤ year
  pub year_lt : year < 208

abbrev pub moment : (sec min hour mday mon year : ℕ) → ℤ → Tm
moment s m h d n y w = record {
  sec = pos s;
  min = pos m;
  hour = pos h;
  mday = pos d;
  mon = pos n;
  year = pos y;
  wday = w;
}

module _ (s m h d n y : ℕ) (w : ℤ) (at : IsMoment s m h d n y) where
  time_lem : tm_to_time (moment s m h d n y w) ≡ s / 2 + m * 32 + h * 2048
  unfolding tm_to_time half
  time_lem =
      let a : u16 (pos (s / 2)) ≡ s / 2 = omega (arith, at.sec_lt) in
      let b : u16 (pos m *ℤ pos 32) ≡ m * 32 = rw (pos-*ℤ m 32) (omega (arith, at.min_lt)) in
      let c : u16 (pos h *ℤ pos 2048) ≡ h * 2048 = rw (pos-*ℤ h 2048) (omega (arith, at.hour_lt)) in
      rw
        (
          a,
          b,
          c,
          zero_or,
          or_5 (s / 2) m (omega (arith, at.sec_lt)),
          or_11 (s / 2 + m * 32) h (omega (arith, at.sec_lt, at.min_lt)),
        )
        refl

  date_lem : tm_to_date (moment s m h d n y w) ≡ d + (n + 1) * 32 + (y - 80) * 512
  unfolding tm_to_date
  date_lem =
      let next : pos n +ℤ pos 1 ≡ pos (n + 1) = unfold ◌+ℤ◌ in ground arith in
      let years : pos y -ℤ pos 80 ≡ pos (y - 80) = unfold ◌-ℤ◌ in ground (arith, at.year_ge) in
      let a : u16 (pos d) ≡ d = omega (arith, at.mday_le) in
      let b : u16 (pos (n + 1) *ℤ pos 32) ≡ (n + 1) * 32 =
        rw (pos-*ℤ (n + 1) 32) (omega (arith, at.mon_lt)) in
      let c : u16 (pos (y - 80) *ℤ pos 512) ≡ (y - 80) * 512 =
        rw (pos-*ℤ (y - 80) 512) (omega (arith, at.year_lt)) in
      rw
        (
          next,
          years,
          a,
          b,
          c,
          zero_or,
          or_5 d (n + 1) (omega (arith, at.mday_le)),
          or_9 (d + (n + 1) * 32) (y - 80) (omega (arith, at.mday_le, at.mon_lt)),
        )
        refl

  -- Taken apart again, with the seconds rounded to an even number.
  back :
      date_to_tm
        (tm_to_date (moment s m h d n y w) % 0x1_0000)
        (time_to_tm (tm_to_time (moment s m h d n y w) % 0x1_0000) tm_init)
      ≡ moment (s / 2 * 2) m h d n y minus_one
  unfolding date_to_tm time_to_tm tm_init
  back =
      let time = s / 2 + m * 32 + h * 2048 in
      let date = d + (n + 1) * 32 + (y - 80) * 512 in
      let e₁ : 2 * (time % 65536 % 32) ≡ s / 2 * 2 =
        omega (arith, at.sec_lt, at.min_lt, at.hour_lt) in
      let e₂ : time % 65536 / 32 % 64 ≡ m = omega (arith, at.sec_lt, at.min_lt, at.hour_lt) in
      let e₃ : time % 65536 / 2048 ≡ h = omega (arith, at.sec_lt, at.min_lt, at.hour_lt) in
      let e₄ : date % 65536 % 32 ≡ d = omega (arith, at.mday_le, at.mon_lt, at.year_lt) in
      let e₅ : date % 65536 / 32 % 16 ≡ n + 1 = omega (arith, at.mday_le, at.mon_lt, at.year_lt) in
      let e₆ : 80 + date % 65536 / 512 ≡ y =
        omega (arith, at.mday_le, at.mon_lt, at.year_lt, at.year_ge) in
      let e₇ : pos (n + 1) -ℤ pos 1 ≡ pos n = unfold ◌-ℤ◌ in ground arith in
      rw (time_lem, date_lem, e₁, e₂, e₃, e₄, e₅, e₆, e₇) refl

  back_date :
      date_to_tm (tm_to_date (moment s m h d n y w) % 0x1_0000) tm_init
      ≡ moment 0 0 0 d n y minus_one
  unfolding date_to_tm tm_init
  back_date =
      let date = d + (n + 1) * 32 + (y - 80) * 512 in
      let e₄ : date % 65536 % 32 ≡ d = omega (arith, at.mday_le, at.mon_lt, at.year_lt) in
      let e₅ : date % 65536 / 32 % 16 ≡ n + 1 = omega (arith, at.mday_le, at.mon_lt, at.year_lt) in
      let e₆ : 80 + date % 65536 / 512 ≡ y =
        omega (arith, at.mday_le, at.mon_lt, at.year_lt, at.year_ge) in
      let e₇ : pos (n + 1) -ℤ pos 1 ≡ pos n = unfold ◌-ℤ◌ in ground arith in
      rw (date_lem, e₄, e₅, e₆, e₇) refl

-- Two fields next to each other, stored one after the other.
two_fields :
    (directory : FatUnit) (i j t e : ℕ)
    → j ≡ i + 2
    → i + 3 < length directory.data_bytes
    → (get16 (store16 (store16 directory i t) j e).data_bytes i ≡ t % 0x1_0000)
      × (get16 (store16 (store16 directory i t) j e).data_bytes j ≡ e % 0x1_0000)
two_fields directory i j t e next h = (
  get16-Agree (put16 (put16 directory.data_bytes i t) j e) (put16 directory.data_bytes i t) i i
        (i + 2) kept (omega arith) (omega arith)
      ∙ get16-put16 directory.data_bytes i t (omega arith),
  get16-put16 (put16 directory.data_bytes i t) j e (omega (arith, wide)),
)
  where
    wide : i + 3 < length (put16 directory.data_bytes i t)
    wide = omega (arith, length-put16 directory.data_bytes i t)

    kept :
        Agree i
          (i + 2)
          (put16 (put16 directory.data_bytes i t) j e)
          (put16 directory.data_bytes i t)
    kept k lo hi = ground (arith, get8-put16 (put16 directory.data_bytes i t) j k e, wide)

-- For an entry that lies in the unit and a moment from 1980 to 2107: what is stored as time of
-- writing, creation or reading is read back by the matching function: of
-- the seconds the even part, of the time of reading the date alone. As `mktime` is given these, with
-- no day of the week, a day that the month does not have comes out as `mktime` makes it.
pub get_time-set :
    (mktime : Tm → Tm) (directory : FatUnit) (index s m h d n y : ℕ) (w : ℤ)
    → Holds directory index
    → IsMoment s m h d n y
    → (get_write_time mktime (set_write_time directory index (moment s m h d n y w)) index
        ≡ mktime (moment (s / 2 * 2) m h d n y minus_one))
      × (get_create_time mktime (set_create_time directory index (moment s m h d n y w)) index
          ≡ mktime (moment (s / 2 * 2) m h d n y minus_one))
      × (get_read_time mktime (set_read_time directory index (moment s m h d n y w)) index
          ≡ mktime (moment 0 0 0 d n y minus_one))
unfolding get_write_time set_write_time get_create_time set_create_time get_read_time set_read_time
    get_time set_time
get_time-set mktime directory index s m h d n y w holds at =
    let time = tm_to_time (moment s m h d n y w) in
    let date = tm_to_date (moment s m h d n y w) in
    let both = λ (v t : ℕ). date_to_tm v (time_to_tm t tm_init) in
    let whole = back s m h d n y w at in
    let (a, a') =
      two_fields directory (32 * index + 22) (32 * index + 24) time date (omega arith)
        (omega (arith, holds.inside)) in
    let (c, c') =
      two_fields directory (32 * index + 14) (32 * index + 16) time date (omega arith)
        (omega (arith, holds.inside)) in
    let r = get16-put16 directory.data_bytes (32 * index + 18) date (omega (arith, holds.inside)) in
    (
      ap mktime (ap₂ both a' a ∙ whole),
      ap mktime (ap₂ both c' c ∙ whole),
      ap mktime (ap (λ (v : ℕ). date_to_tm v tm_init) r ∙ back_date s m h d n y w at),
    )
