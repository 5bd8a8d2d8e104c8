-- ===== src/Bytes/Laws.antt =====
-- What the little-endian accessors of `Bytes` read back after a write, at the same place and beside
-- it.
use libllfat.Prelude.{
  ℕ, ◌+◌, ◌/◌, ◌%◌, ◌<◌, ◌≤◌, ◌≡◌, refl, ◌⊎◌, arith, ◌==◌, if◌then◌else◌, length, length-set,
  get_or-set, suc, [], ◌∷◌, ◌∙◌,
}
use libllfat.Bytes.{Bytes, IsBytes, get8, put8, get16, put16, get32, put32, read_bytes, write_bytes}

pub length-put8 : (d : Bytes) (i v : ℕ) → length (put8 d i v) ≡ length d
unfolding put8
length-put8 d i v = length-set d i (v % 256)

pub length-put16 : (d : Bytes) (i v : ℕ) → length (put16 d i v) ≡ length d
unfolding put16
length-put16 d i v = omega (arith, length-put8 (put8 d i v) (i + 1) (v / 256), length-put8 d i v)

pub length-put32 : (d : Bytes) (i v : ℕ) → length (put32 d i v) ≡ length d
unfolding put32
length-put32 d i v =
    omega (arith, length-put16 (put16 d i v) (i + 2) (v / 65536), length-put16 d i v)

-- A write shows at its own place alone.
pub get8-put8 :
    (d : Bytes) (i j v : ℕ)
    → i < length d
    → get8 (put8 d i v) j ≡ (if i == j then v % 256 else get8 d j)
unfolding get8 put8
get8-put8 d i j v h = ground (arith, get_or-set d i j (v % 256) 0)

pub get8-put16 :
    (d : Bytes) (i j v : ℕ)
    → i + 1 < length d
    → get8 (put16 d i v) j
      ≡ (if i == j then v % 256 else if i + 1 == j then v / 256 % 256 else get8 d j)
unfolding put16
get8-put16 d i j v h =
    ground (arith, get8-put8 (put8 d i v) (i + 1) j (v / 256), length-put8 d i v, get8-put8 d i j v)

pub get8-put32-apart :
    (d : Bytes) (i j v : ℕ)
    → i + 3 < length d
    → (j < i) ⊎ (i + 4 ≤ j)
    → get8 (put32 d i v) j ≡ get8 d j
unfolding put32
get8-put32-apart d i j v h apart =
    ground (
      arith,
      get8-put16 (put16 d i v) (i + 2) j (v / 65536),
      length-put16 d i v,
      get8-put16 d i j v,
    )

pub get16-put16 : (d : Bytes) (i v : ℕ) → i + 1 < length d → get16 (put16 d i v) i ≡ v % 65536
unfolding get16
get16-put16 d i v h = ground (arith, get8-put16 d i i v, get8-put16 d i (i + 1) v)

pub get32-put32 :
    (d : Bytes) (i v : ℕ) → i + 3 < length d → get32 (put32 d i v) i ≡ v % 0x1_0000_0000
unfolding get32 put32
get32-put32 d i v h = ground (
  arith,
  get16-put16 (put16 d i v) (i + 2) (v / 65536),
  length-put16 d i v,
  lower,
  get16-put16 d i v,
)
  where
    lower : get16 (put16 (put16 d i v) (i + 2) (v / 65536)) i ≡ get16 (put16 d i v) i
    lower =
        unfold get16 in
        ground (
          arith,
          get8-put16 (put16 d i v) (i + 2) i (v / 65536),
          get8-put16 (put16 d i v) (i + 2) (i + 1) (v / 65536),
          length-put16 d i v,
        )

-- Two arrays that agree on a range read alike there.
abbrev pub Agree : ℕ → ℕ → Bytes → Bytes → Type 0
Agree lo hi d e = (j : ℕ) → lo ≤ j → j < hi → get8 d j ≡ get8 e j

pub get16-Agree :
    (d e : Bytes) (i lo hi : ℕ) → Agree lo hi d e → lo ≤ i → i + 1 < hi → get16 d i ≡ get16 e i
unfolding get16
get16-Agree d e i lo hi a p q = omega (arith, a i, a (i + 1))

pub get32-Agree :
    (d e : Bytes) (i lo hi : ℕ) → Agree lo hi d e → lo ≤ i → i + 3 < hi → get32 d i ≡ get32 e i
unfolding get32
get32-Agree d e i lo hi a p q =
    omega (arith, get16-Agree d e i lo hi a, get16-Agree d e (i + 2) lo hi a)

-- The values that are read.
pub get8-lt : (d : Bytes) (i : ℕ) → IsBytes d → get8 d i < 256
unfolding get8
get8-lt d i b = b i

pub get16-lt : (d : Bytes) (i : ℕ) → IsBytes d → get16 d i < 65536
unfolding get16
get16-lt d i b = omega (arith, get8-lt d i b, get8-lt d (i + 1) b)

pub get32-lt : (d : Bytes) (i : ℕ) → IsBytes d → get32 d i < 0x1_0000_0000
unfolding get32
get32-lt d i b = omega (arith, get16-lt d i b, get16-lt d (i + 2) b)

-- Writes keep an array of bytes one.
pub put8-IsBytes : (d : Bytes) (i v : ℕ) → IsBytes d → IsBytes (put8 d i v)
unfolding put8
put8-IsBytes d i v b j = ground (arith, get_or-set d i j (v % 256) 0, b j)

pub put16-IsBytes : (d : Bytes) (i v : ℕ) → IsBytes d → IsBytes (put16 d i v)
unfolding put16
put16-IsBytes d i v b = put8-IsBytes _ (i + 1) (v / 256) (put8-IsBytes d i v b)

pub put32-IsBytes : (d : Bytes) (i v : ℕ) → IsBytes d → IsBytes (put32 d i v)
unfolding put32
put32-IsBytes d i v b = put16-IsBytes _ (i + 2) (v / 65536) (put16-IsBytes d i v b)

pub length-write_bytes : (d : Bytes) (i : ℕ) (xs : Bytes) → length (write_bytes d i xs) ≡ length d
unfolding write_bytes
length-write_bytes d i [] = refl
length-write_bytes d i (x ∷ xs) = length-write_bytes (put8 d i x) (i + 1) xs ∙ length-put8 d i x

pub get8-write_bytes-apart :
    (d : Bytes) (i : ℕ) (xs : Bytes) (j : ℕ)
    → i + length xs ≤ length d
    → (j < i) ⊎ (i + length xs ≤ j)
    → get8 (write_bytes d i xs) j ≡ get8 d j
unfolding write_bytes
get8-write_bytes-apart d i [] j h apart = refl
get8-write_bytes-apart d i (x ∷ xs) j h apart =
    ground (
      arith,
      length-put8 d i x,
      get8-write_bytes-apart (put8 d i x) (i + 1) xs j,
      get8-put8 d i j x,
    )

-- What was written is read back.
pub read_bytes-write_bytes :
    (d : Bytes) (i : ℕ) (xs : Bytes)
    → i + length xs ≤ length d
    → IsBytes xs
    → read_bytes (write_bytes d i xs) i (length xs) ≡ xs
unfolding read_bytes write_bytes
read_bytes-write_bytes d i [] h b = refl
read_bytes-write_bytes d i (x ∷ xs) h b = ground (
  arith,
  length-put8 d i x,
  read_bytes-write_bytes (put8 d i x) (i + 1) xs,
  λ (k : ℕ). b (suc k),
  get8-write_bytes-apart (put8 d i x) (i + 1) xs i,
  get8-put8 d i i x,
  b 0,
)

pub get8-put32 :
    (d : Bytes) (i j v : ℕ)
    → i + 3 < length d
    → get8 (put32 d i v) j ≡ (
        if i == j
        then v % 256
        else if i + 1 == j
        then v / 256 % 256
        else if i + 2 == j
        then v / 65536 % 256
        else if i + 3 == j
        then v / 16777216 % 256
        else get8 d j)
unfolding put32
get8-put32 d i j v h =
    ground (
      arith,
      get8-put16 (put16 d i v) (i + 2) j (v / 65536),
      length-put16 d i v,
      get8-put16 d i j v,
    )
