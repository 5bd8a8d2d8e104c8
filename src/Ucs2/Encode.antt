-- ===== src/Ucs2/Encode.antt =====
-- lib/ucs2conv.c: from UCS-2 to UTF-8, and ASCII. A string of UCS-2 is the list of its numbers.
use libllfat.Prelude.{
  ℕ, ◌+◌, ◌-◌, ◌/◌, ◌%◌, Bool, true, false, ◌==◌, ltb, if◌then◌else◌, Option, none, some, List, [],
  ◌∷◌, ◌++◌, length, take,
}
use libllfat.Prelude.Int.{ℤ, pos, minus_one, i32, u32, wrap, ◌*ℤ◌}
use libllfat.Bytes.{Bytes}
use libllfat.Entry.Names.{until_nul}

-- One, two or three bytes. The bits that are put together do not overlap, so that `|` is addition.
abbrev pub encode_unit : ℕ → Bytes
encode_unit u =
    if ltb u 0x80
    then u ∷ []
    else if ltb u 0x800
    then (0xc0 + u / 0x40) ∷ (0x80 + u % 0x40) ∷ []
    else (0xe0 + u / 0x1000) ∷ (0x80 + u / 0x40 % 0x40) ∷ (0x80 + u % 0x40) ∷ []

-- What is written to the buffer, how long the result is, and whether it fits.
pub record Output : Type 0 where
  pub written : Bytes
  pub outlen : ℕ
  pub fits : Bool

-- A unit of the result goes into the buffer, whose size is `room`; without a buffer it is only counted.
unfoldable pub put_unit : Option ℕ → Bytes → Output → Output
put_unit none c o = record o { outlen = o.outlen + length c }
put_unit (some m) c o =
    if ltb (o.outlen + (length c - 1)) m
    then record { written = o.written ++ c; outlen = o.outlen + length c; fits = o.fits }
    else record o { fits = false }

-- The loop ends at the first unit that does not fit.
unfoldable pub convert : (ℕ → Bytes) → Option ℕ → List ℕ → Output → Output
convert encode room [] o = o
convert encode room (u ∷ us) o =
    let o' = put_unit room (encode u) o in
    let rest = convert encode room us o' in if o'.fits then rest else o'

-- The final 0, if there is room.
abbrev pub terminated : Option ℕ → Output → Output
terminated none o = o
terminated (some m) o = if ltb o.outlen m then record o { written = o.written ++ 0 ∷ [] } else o

abbrev pub start : Output
start = record { written = []; outlen = 0; fits = true }

-- A length of 0 stands for all up to the first 0.
abbrev pub units : List ℕ → ℕ → List ℕ
units src len = if len == 0 then until_nul src else take len src

unfoldable pub ucs2_to_utf8 : Option ℕ → List ℕ → ℕ → Output
ucs2_to_utf8 room src len =
    let o = convert encode_unit room (units src len) start in
    if o.fits then terminated room o else o

unfoldable pub ascii_to_utf8 : Option ℕ → Bytes → ℕ → Output
ascii_to_utf8 room src len =
    let o = convert (λ c. c ∷ []) room (units src len) start in
    if o.fits then terminated room o else o

-- A length that is absent, which the code says by -1, is counted up to the first 0; it is an `int`.
abbrev pub source_length : List ℕ → Option ℕ → ℤ
source_length src none = i32 (length (until_nul src) % 0x1_0000_0000)
source_length src (some n) = i32 (n % 0x1_0000_0000)

-- An `int` as a `size_t`.
abbrev pub as_size : ℤ → ℕ
as_size = wrap 0x1_0000_0000_0000_0000

-- A block that is allocated has one more byte.
abbrev pub with_end : Bool → ℕ → ℕ
with_end given n = if given then n else (n + 1) % 0x1_0000_0000_0000_0000

-- Three bytes a unit, in `int`.
abbrev pub room_for : ℤ → ℕ
room_for srclen = as_size (i32 (u32 (pos 3 *ℤ srclen)))

-- `fatucs2toutf8`: what is in the result, and what is added to `*err`. `given` is whether the caller gave a
-- buffer; malloc(3) gives the one that is asked for. A failure is a number of the width of size_t, which the
-- test `res > 0` takes for a number of characters, so that -1 is added.
unfoldable pub fat_ucs2_to_utf8 : (given : Bool) → List ℕ → Option ℕ → Bytes × ℤ
fat_ucs2_to_utf8 given src srclen =
    let len = source_length src srclen in
    let o = ucs2_to_utf8 (some (with_end given (room_for len))) src (as_size len) in
    (o.written, if o.fits then pos 0 else minus_one)

unfoldable pub fat_char_to_utf8 : (given : Bool) → Bytes → Option ℕ → Bytes × ℤ
fat_char_to_utf8 given src srclen =
    let len = source_length src srclen in
    let o = ascii_to_utf8 (some (with_end given (as_size len))) src (as_size len) in
    (o.written, if o.fits then pos 0 else minus_one)
