-- ===== src/Long/Legal.antt =====
-- lib/long.c: the legal form of a name is valid.
use libllfat.Prelude.{
  ℕ, zero, suc, ◌*◌, ◌/◌, ◌%◌, ◌<◌, ◌≤◌, ◌≡◌, refl, ap, arith, Bool, true, false, not, ◌&&◌, ◌||◌,
  ◌==◌, none, [], ◌∷◌, ◌++◌, length, length-append, replicate, Bool-cases, inl, inr, ◌∙◌,
}
use libllfat.Prelude.Int.{pos}
use libllfat.Bytes.{Bytes, IsBytes}
use libllfat.Entry.Names.{same_string}
use libllfat.Directory.Names.{dot, is_in}
use libllfat.Directory.Create.{slash, last_slash}
use libllfat.Long.Names.{
  forbidden, is_low, all_legal, is_dots, last_part, invalid_path_long, invalid_name_long, hex_digit,
  hex, legalize, legalize_name_long,
}

-- What may stand in a name.
abbrev is_plain : ℕ → Bool
is_plain x = not (is_in forbidden x) && (not (is_low x) && not (x == slash))

abbrev all_plain : Bytes → Bool
all_plain [] = true
all_plain (x ∷ xs) = is_plain x && all_plain xs

hex_digit-plain : (d : ℕ) → d < 16 → is_plain (hex_digit d) ≡ true
unfolding hex_digit
hex_digit-plain d h = ground arith

all_plain-append : (xs ys : Bytes) → all_plain (xs ++ ys) ≡ all_plain xs && all_plain ys
all_plain-append [] ys = refl
all_plain-append (x ∷ xs) ys = ground (arith, all_plain-append xs ys)

hex-plain : (c : ℕ) → c < 256 → all_plain (hex c) ≡ true
unfolding hex
hex-plain c h =
    ground (arith, hex_digit-plain (c % 16) (omega arith), hex_digit-plain (c / 16) (omega arith))

length-hex : (c : ℕ) → length (hex c) ≤ 8
unfolding hex
length-hex c = ground arith

abbrev illegal : Bytes
illegal = forbidden ++ (b'[' ∷ b']' ∷ slash ∷ [])

-- A byte that is kept is one that may stand in a name.
kept-plain : (x : ℕ) → is_in illegal x || is_low x ≡ false → is_plain x ≡ true
kept-plain x h = ground arith

legalize-plain : (path : Bytes) → IsBytes path → all_plain (legalize illegal path) ≡ true
unfolding legalize
legalize-plain [] bytes = refl
legalize-plain (x ∷ xs) bytes =
    let rest = legalize-plain xs (λ i. bytes (suc i)) in
    elim (Bool-cases (is_in illegal x || is_low x)) [
      | inl bad ↦
          rw
            (
              bad,
              all_plain-append (b'[' ∷ hex x) (b']' ∷ legalize illegal xs),
              hex-plain x (bytes 0),
              rest,
            )
            refl
      | inr fine ↦ rw (fine, kept-plain x fine, rest) refl
    ]

length-legalize : (path : Bytes) → length (legalize illegal path) ≤ 10 * length path
unfolding legalize
length-legalize [] = omega arith
length-legalize (x ∷ xs) =
    let rest = length-legalize xs in
    let whole = length-append (hex x) (b']' ∷ legalize illegal xs) in
    elim (Bool-cases (is_in illegal x || is_low x)) [
      | inl bad ↦ rw bad (omega (arith, rest, whole, length-hex x))
      | inr fine ↦ rw fine (omega (arith, rest))
    ]

plain-legal : (xs : Bytes) → all_plain xs ≡ true → all_legal xs ≡ true
unfolding all_legal
plain-legal [] h = refl
plain-legal (x ∷ xs) h = ground (arith, plain-legal xs)

plain-slash : (xs : Bytes) → all_plain xs ≡ true → is_in xs slash ≡ false
plain-slash [] h = refl
plain-slash (x ∷ xs) h = ground (arith, plain-slash xs)

plain-last : (xs : Bytes) → all_plain xs ≡ true → last_slash xs ≡ none
unfolding last_slash
plain-last [] h = refl
plain-last (x ∷ xs) h = rw (plain-last xs (ground arith)) (ground arith)

-- A dot is kept, and nothing else becomes one.
bad-dot : (x : ℕ) → is_in illegal x || is_low x ≡ true → (x == dot) ≡ false
bad-dot x h = ground arith

dots-legalize :
    (path : Bytes) (n : ℕ)
    → same_string (legalize illegal path) (replicate n dot) ≡ same_string path (replicate n dot)
unfolding legalize same_string
dots-legalize [] n = refl
dots-legalize (x ∷ xs) zero = elim (Bool-cases (is_in illegal x || is_low x)) [
  | inl bad ↦ rw bad refl
  | inr fine ↦ rw fine refl
]
dots-legalize (x ∷ xs) (suc n) = elim (Bool-cases (is_in illegal x || is_low x)) [
  | inl bad ↦ rw (bad, bad-dot x bad) refl
  | inr fine ↦ rw (fine, dots-legalize xs n) refl
]

plain-last_part : (xs : Bytes) → all_plain xs ≡ true → last_part xs ≡ xs
unfolding last_part
plain-last_part xs plain = rw (last_part, plain-last xs plain) refl

plain-valid : (xs : Bytes) → all_plain xs ≡ true → is_dots xs ≡ false → invalid_name_long xs ≡ pos 0
unfolding invalid_name_long invalid_path_long
plain-valid xs plain other =
    rw (plain-legal xs plain, plain-last_part xs plain, plain-slash xs plain, other) refl

-- Of a string of bytes that is neither `.' nor `..', `fatlegalizenamelong' makes a name that
-- `fatinvalidnamelong' finds valid, and at most ten times as long.
pub legalize_name_long-valid :
    (name : Bytes)
    → IsBytes name
    → is_dots name ≡ false
    → (invalid_name_long (legalize_name_long name) ≡ pos 0)
      × (length (legalize_name_long name) ≤ 10 * length name)
unfolding legalize_name_long
legalize_name_long-valid name bytes other =
    let same : is_dots (legalize illegal name) ≡ false =
      ap (λ b. b || same_string (legalize illegal name) (dot ∷ dot ∷ [])) (dots-legalize name 1)
      ∙ ap (λ b. same_string name (dot ∷ []) || b) (dots-legalize name 2)
      ∙ other in
    (plain-valid (legalize illegal name) (legalize-plain name bytes) same, length-legalize name)
