-- ===== src/Ucs2/Decoded.antt =====
-- What `fatucs2toutf8` makes of a string is read back by the rules of UTF-8.
use libllfat.Prelude.{
  append_nil, append_assoc, ℕ, ◌+◌, ◌-◌, ◌*◌, ◌/◌, ◌%◌, ◌≡◌, ◌≤◌, ◌<◌, refl, ap, sym, ◌∙◌, arith,
  true, false, ◌==◌, leb, not, ◌&&◌, Bool, Option, ltb, if◌then◌else◌, none, some, List, [], ◌∷◌,
  ◌++◌, length, take, Bool-cases, inl, inr,
}
use libllfat.Prelude.Int.{ℤ, pos, i32, u32, i32-u32, pos-*ℤ}
use libllfat.Bytes.{Bytes}
use libllfat.Entry.Names.{until_nul}
use libllfat.Ucs2.Encode.{
  encode_unit, Output, put_unit, convert, units, source_length, as_size, with_end, room_for,
  ucs2_to_utf8, fat_ucs2_to_utf8,
}

-- The numbers that UTF-16 takes for pairs, and UTF-8 refuses.
abbrev pub is_surrogate : ℕ → Bool
is_surrogate u = leb 0xd800 u && ltb u 0xe000

abbrev is_tail : ℕ → Bool
is_tail b = leb 0x80 b && ltb b 0xc0

abbrev of_two : ℕ → ℕ → ℕ
of_two a b = (a - 0xc0) * 0x40 + (b - 0x80)

abbrev two_fit : ℕ → ℕ → Bool
two_fit a b = leb 0xc2 a && is_tail b

abbrev of_three : ℕ → ℕ → ℕ → ℕ
of_three a b c = (a - 0xe0) * 0x1000 + (b - 0x80) * 0x40 + (c - 0x80)

abbrev three_fit : ℕ → ℕ → ℕ → Bool
three_fit a b c =
    ltb a 0xf0
    && (is_tail b
        && (is_tail c && (leb 0x800 (of_three a b c) && not (is_surrogate (of_three a b c)))))

abbrev accept : Bool → ℕ → Option (List ℕ) → Option (List ℕ)
accept ok u none = none
accept ok u (some us) = if ok then some (u ∷ us) else none

-- A reader of UTF-8, as RFC 3629 defines it, up to three bytes a character: the first byte tells how many
-- follow, each with six bits. It refuses a character that is not written in its shortest form, and the
-- surrogates.
abbrev pub decode : Bytes → Option (List ℕ)
decode [] = some []
decode (a ∷ []) = accept (ltb a 0x80) a (some [])
decode (a ∷ b ∷ []) =
    if ltb a 0x80
    then accept true a (decode (b ∷ []))
    else accept (ltb a 0xe0 && two_fit a b) (of_two a b) (some [])
decode (a ∷ b ∷ c ∷ rest) =
    if ltb a 0x80
    then accept true a (decode (b ∷ c ∷ rest))
    else if ltb a 0xe0
    then accept (two_fit a b) (of_two a b) (decode (c ∷ rest))
    else accept (three_fit a b c) (of_three a b c) (decode rest)

-- The bytes of a string.
abbrev pub encoded : List ℕ → Bytes
encoded [] = []
encoded (u ∷ us) = encode_unit u ++ encoded us

-- All numbers are of 16 bits, and no surrogates.
abbrev pub IsUcs2 : List ℕ → Type 0
IsUcs2 [] = Unit {0}
IsUcs2 (u ∷ us) = (u < 0x1_0000) × (is_surrogate u ≡ false) × IsUcs2 us

decode-one : (u : ℕ) (xs : Bytes) → ltb u 0x80 ≡ true → decode (u ∷ xs) ≡ accept true u (decode xs)
decode-one u [] h = rw h refl
decode-one u (b ∷ []) h = rw h refl
decode-one u (b ∷ c ∷ rest) h = rw h refl

decode-two :
    (u : ℕ) (xs : Bytes)
    → ltb u 0x80 ≡ false
    → u < 0x800
    → decode ((0xc0 + u / 0x40) ∷ (0x80 + u % 0x40) ∷ xs) ≡ accept true u (decode xs)
decode-two u xs h lt =
    let a = 0xc0 + u / 0x40 in
    let b = 0x80 + u % 0x40 in
    let long : ltb a 0x80 ≡ false = ground arith in
    let two : ltb a 0xe0 ≡ true = ground (arith, lt) in
    let fit : two_fit a b ≡ true = ground (arith, lt, h) in
    let back : of_two a b ≡ u = omega arith in go xs long two fit back
  where
    go :
        (xs : Bytes)
        → ltb (0xc0 + u / 0x40) 0x80 ≡ false
        → ltb (0xc0 + u / 0x40) 0xe0 ≡ true
        → two_fit (0xc0 + u / 0x40) (0x80 + u % 0x40) ≡ true
        → of_two (0xc0 + u / 0x40) (0x80 + u % 0x40) ≡ u
        → decode ((0xc0 + u / 0x40) ∷ (0x80 + u % 0x40) ∷ xs) ≡ accept true u (decode xs)
    go [] long two fit back = rw (long, two, fit, back) refl
    go (c ∷ rest) long two fit back = rw (long, two, fit, back) refl

decode-three :
    (u : ℕ) (xs : Bytes)
    → u < 0x1_0000
    → ltb u 0x800 ≡ false
    → is_surrogate u ≡ false
    → decode ((0xe0 + u / 0x1000) ∷ (0x80 + u / 0x40 % 0x40) ∷ (0x80 + u % 0x40) ∷ xs)
      ≡ accept true u (decode xs)
decode-three u xs lt big plain =
    let a = 0xe0 + u / 0x1000 in
    let b = 0x80 + u / 0x40 % 0x40 in
    let c = 0x80 + u % 0x40 in
    let long : ltb a 0x80 ≡ false = ground arith in
    let three : ltb a 0xe0 ≡ false = ground arith in
    let back : of_three a b c ≡ u = omega arith in
    let fit : three_fit a b c ≡ true = rw (back, plain) (ground (arith, lt, big)) in
    rw (long, three, fit, back) refl

decode-encoded : (us : List ℕ) → IsUcs2 us → decode (encoded us) ≡ some us
decode-encoded [] h = refl
decode-encoded (u ∷ us) (lt, plain, h) = elim (Bool-cases (ltb u 0x80)) [
  | inl one ↦ rw (one, decode-one u (encoded us) one, decode-encoded us h) refl
  | inr more ↦ elim (Bool-cases (ltb u 0x800)) [
    | inl two ↦
        rw (more, two, decode-two u (encoded us) more (ground (arith, two)), decode-encoded us h)
          refl
    | inr three ↦
        rw (more, three, decode-three u (encoded us) lt three plain, decode-encoded us h) refl
  ]
]

length-encode_unit : (u : ℕ) → (1 ≤ length (encode_unit u)) × (length (encode_unit u) ≤ 3)
length-encode_unit u = ground arith

abbrev output : Bytes → ℕ → Output
output w n = record { written = w; outlen = n; fits = true }

put-fits :
    (m u : ℕ) (w : Bytes) (n : ℕ)
    → n + 3 ≤ m
    → put_unit (some m) (encode_unit u) (output w n)
      ≡ output (w ++ encode_unit u) (n + length (encode_unit u))
unfolding put_unit
put-fits m u w n room =
    let (lo, hi) = length-encode_unit u in
    let inside : ltb (n + (length (encode_unit u) - 1)) m ≡ true = ground (arith, hi, room) in
    rw inside refl

-- With room for three bytes a number, all of them fit.
convert-fits :
    (m : ℕ) (us : List ℕ) (w : Bytes) (n : ℕ)
    → n + 3 * length us ≤ m
    → (n' : ℕ) × (n' ≤ n + 3 * length us)
      × (convert encode_unit (some m) us (output w n) ≡ output (w ++ encoded us) n')
unfolding convert
convert-fits m [] w n room = (n, omega arith, ap (λ (r : Bytes). output r n) (sym (append_nil w)))
convert-fits m (u ∷ us) w n room =
    let (lo, hi) = length-encode_unit u in
    let (n', le, run) =
      convert-fits m us (w ++ encode_unit u) (n + length (encode_unit u)) (omega (arith, hi)) in
    (
      n',
      omega (arith, hi),
      rw (put-fits m u w n (omega arith))
          (run ∙ ap (λ (r : Bytes). output r n') (append_assoc w (encode_unit u) (encoded us))),
    )

take-until_nul : (src : List ℕ) → take (length (until_nul src)) src ≡ until_nul src
unfolding until_nul
take-until_nul [] = refl
take-until_nul (x ∷ xs) = ground (arith, take-until_nul xs)

units_lem : (src : List ℕ) → units src (length (until_nul src)) ≡ until_nul src
units_lem src = elim (Bool-cases (length (until_nul src) == 0)) [
  | inl e ↦ rw e refl
  | inr e ↦ rw e (take-until_nul src)
]

length_lem : (n : ℕ) → n < 0x8000_0000 → i32 (n % 0x1_0000_0000) ≡ pos n
length_lem n h = ground arith

room_lem : (n : ℕ) → 3 * n < 0x8000_0000 → room_for (pos n) ≡ 3 * n
room_lem n h =
    ap (λ (z : ℤ). as_size (i32 (u32 z))) (pos-*ℤ 3 n)
    ∙ ap as_size (i32-u32 (pos (3 * n)) (h, omega arith))
    ∙ size_lem (3 * n) (omega arith)
  where
    size_lem : (n : ℕ) → n < 0x1_0000_0000 → as_size (pos n) ≡ n
    size_lem n h = ground arith

-- Of a string of 16-bit numbers without surrogates (0xd800 to 0xdfff), of which three bytes each
-- are an int, fatucs2toutf8 that allocates the result writes the bytes of all of them and the
-- final 0, and counts no error; the bytes are well-formed UTF-8 by RFC 3629, and are read back as
-- the string.
pub fat_ucs2_to_utf8-decoded :
    (src : List ℕ)
    → IsUcs2 (until_nul src)
    → 3 * length (until_nul src) < 0x8000_0000
    → (out : Bytes) × (fat_ucs2_to_utf8 false src none ≡ (out ++ 0 ∷ [], pos 0))
      × (decode out ≡ some (until_nul src))
unfolding fat_ucs2_to_utf8 ucs2_to_utf8
fat_ucs2_to_utf8-decoded src h short =
    let s = until_nul src in
    let m = 3 * length s + 1 in
    let (n, le, run) = convert-fits m s [] 0 (omega arith) in
    let inside : ltb n m ≡ true = ground (arith, le) in
    let len : source_length src none ≡ pos (length s) = length_lem (length s) (omega arith) in
    let size : as_size (pos (length s)) ≡ length s = ground (arith, short) in
    let room : with_end false (room_for (pos (length s))) ≡ m =
      ap (with_end false) (room_lem (length s) short) ∙ ground (arith, short) in
    (encoded s, rw (len, room, size, units_lem src, run, inside) refl, decode-encoded s h)
