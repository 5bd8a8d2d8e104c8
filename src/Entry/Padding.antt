-- ===== src/Entry/Padding.antt =====
-- Lemmas on names that are filled with spaces, and on where their first dot is.
use libllfat.Prelude.{
  ℕ, zero, suc, ◌+◌, ◌≤◌, ◌≡◌, refl, ap, sym, ◌∙◌, arith, Bool, true, false, not, ◌&&◌, ◌==◌,
  if◌then◌else◌, none, some, List, [], ◌∷◌, ◌++◌, length, take, drop, get_or,
}
use libllfat.Bytes.{Bytes}
use libllfat.Entry.Names.{space, is_empty, until_nul, trim, pad, index_of}

abbrev pub all_of : (ℕ → Bool) → Bytes → Bool
all_of p [] = true
all_of p (x ∷ xs) = p x && all_of p xs

-- A byte of a name: neither 0 nor a dot.
abbrev pub is_plain : ℕ → Bool
is_plain x = not (x == 0) && not (x == b'.')

abbrev is_space : ℕ → Bool
is_space x = x == space

pad-trim_step :
    (n x : ℕ) (xs ys : Bytes)
    → pad n ys ≡ xs
    → pad (suc n) (if x == space && is_empty ys then [] else x ∷ ys) ≡ x ∷ xs
unfolding pad
pad-trim_step n x xs [] e = ground (arith, e)
pad-trim_step n x xs (y ∷ ys) e = ground (arith, e)

pub pad-trim : (n : ℕ) (xs : Bytes) → length xs ≡ n → pad n (trim xs) ≡ xs
unfolding pad trim
pad-trim zero [] e = refl
pad-trim zero (x ∷ xs) e = absurd (omega arith)
pad-trim (suc n) [] e = absurd (omega arith)
pad-trim (suc n) (x ∷ xs) e = pad-trim_step n x xs (trim xs) (pad-trim n xs (omega arith))

pub trim-all : (p : ℕ → Bool) (xs : Bytes) → all_of p xs ≡ true → all_of p (trim xs) ≡ true
unfolding trim
trim-all p [] h = refl
trim-all p (x ∷ xs) h = let ih = trim-all p xs in ground (arith, ih)

pub length-trim : (xs : Bytes) → length (trim xs) ≤ length xs
unfolding trim
length-trim [] = omega arith
length-trim (x ∷ xs) = ground (arith, length-trim xs)

pub until_nul-plain : (xs : Bytes) → all_of is_plain xs ≡ true → until_nul xs ≡ xs
unfolding until_nul
until_nul-plain [] h = refl
until_nul-plain (x ∷ xs) h = ground (arith, until_nul-plain xs)

not_dot :
    (x : ℕ) (xs : Bytes)
    → all_of is_plain (x ∷ xs) ≡ true
    → (x == b'.') ≡ false × all_of is_plain xs ≡ true
not_dot x xs h = ground arith

pub index_of-plain : (xs : Bytes) → all_of is_plain xs ≡ true → index_of b'.' xs ≡ none
unfolding index_of
index_of-plain [] h = refl
index_of-plain (x ∷ xs) h =
    let (now, later) = not_dot x xs h in rw (now, index_of-plain xs later) refl

pub index_of-append :
    (xs ys : Bytes) → all_of is_plain xs ≡ true → index_of b'.' (xs ++ b'.' ∷ ys) ≡ some (length xs)
unfolding index_of
index_of-append [] ys h = refl
index_of-append (x ∷ xs) ys h =
    let (now, later) = not_dot x xs h in rw (now, index_of-append xs ys later) refl

module _ {ℓ} {A : Type ℓ} where
  pub take-append : (xs ys : List A) → take (length xs) (xs ++ ys) ≡ xs
  take-append [] ys = refl
  take-append (x ∷ xs) ys = ground (arith, take-append xs ys)

  drop-append : (xs ys : List A) → drop (length xs) (xs ++ ys) ≡ ys
  drop-append [] ys = refl
  drop-append (x ∷ xs) ys = drop-append xs ys

all_of-append :
    (p : ℕ → Bool) (xs ys : Bytes)
    → all_of p xs ≡ true
    → all_of p ys ≡ true
    → all_of p (xs ++ ys) ≡ true
all_of-append p [] ys h k = k
all_of-append p (x ∷ xs) ys h k = ground (arith, all_of-append p xs ys)

suc_add : (n m : ℕ) → suc n + m ≡ suc (n + m)
suc_add n m = omega arith

zero_add : (m : ℕ) → zero + m ≡ m
zero_add m = omega arith

pub pad-append : (n m : ℕ) (xs : Bytes) → length xs ≤ n → pad (n + m) xs ≡ pad n xs ++ pad m []
unfolding pad
pad-append zero m [] h = ap (λ (k : ℕ). pad k []) (zero_add m)
pad-append zero m (x ∷ xs) h = absurd (omega arith)
pad-append (suc n) m [] h =
    rw (suc_add n m) (ap (λ (r : Bytes). space ∷ r) (pad-append n m [] (omega arith)))
pad-append (suc n) m (x ∷ xs) h =
    rw (suc_add n m) (ap (λ (r : Bytes). x ∷ r) (pad-append n m xs (omega arith)))

pub take_first :
    (k : ℕ) (xs ys : Bytes)
    → length xs ≡ suc k
    → take (suc k) (xs ++ b'.' ∷ ys) ≡ xs × drop (suc (suc k)) (xs ++ b'.' ∷ ys) ≡ ys
take_first k [] ys e = absurd (omega arith)
take_first k (x ∷ []) ys e = ground (arith, e)
take_first zero (x ∷ z ∷ xs) ys e = absurd (omega arith)
take_first (suc k) (x ∷ z ∷ xs) ys e = ground (arith, take_first k (z ∷ xs) ys)

pub take_name : (n : ℕ) (xs ys : Bytes) → length xs ≡ n → take n (xs ++ ys) ≡ xs
take_name n xs ys e = ap (λ (k : ℕ). take k (xs ++ ys)) (sym e) ∙ take-append xs ys

pub drop_name : (n : ℕ) (xs ys : Bytes) → length xs ≡ n → drop n (xs ++ ys) ≡ ys
drop_name n xs ys e = ap (λ (k : ℕ). drop k (xs ++ ys)) (sym e) ∙ drop-append xs ys

pub get_name : (n : ℕ) (xs ys : Bytes) → length xs ≡ n → get_or (xs ++ ys) n 0 ≡ get_or ys 0 0
get_name n [] ys e = ground (arith, e)
get_name zero (x ∷ xs) ys e = absurd (omega arith)
get_name (suc n) (x ∷ xs) ys e = get_name n xs ys (omega arith)

pub until_nul-append :
    (xs ys : Bytes) → all_of is_plain xs ≡ true → until_nul (xs ++ ys) ≡ xs ++ until_nul ys
unfolding until_nul
until_nul-append [] ys h = refl
until_nul-append (x ∷ xs) ys h = ground (arith, until_nul-append xs ys)
