-- ===== src/Directory/Valid.antt =====
-- A valid name is stored in an entry and read back.
use libllfat.Prelude.{
  append_nil, ℕ, zero, suc, ◌+◌, ◌≡◌, ◌≤◌, refl, ap, sym, subst, ◌∙◌, arith, Bool, true, false, not,
  ◌&&◌, ◌||◌, ◌==◌, ltb, Option, none, some, [], ◌∷◌, ◌++◌, length, take, drop, get_or, Bool-cases,
  inl, inr,
}
use mathlib.Core.Option
use mathlib.Core.Option.{some-injective}
use libllfat.Prelude.Int.{pos}
use libllfat.Bytes.{Bytes}
use libllfat.Entry.Names.{
  space, is_empty, until_nul, trim, pad, index_of, split_name, string_to_short, short_to_string,
}
use libllfat.Entry.Padding.{take_name, drop_name, get_name, pad-append}
use libllfat.Directory.Names.{
  dot, is_in, begins_with, is_allowed, all_allowed, dot_fits, invalid_name,
}
use libllfat.Directory.Tidy.{tight}

length-pad : (n : ℕ) (xs : Bytes) → length (pad n xs) ≡ n
unfolding pad
length-pad zero xs = refl
length-pad (suc n) [] = omega (arith, length-pad n [])
length-pad (suc n) (x ∷ xs) = omega (arith, length-pad n xs)

trim-pad-nil : (n : ℕ) → trim (pad n []) ≡ []
unfolding trim pad
trim-pad-nil zero = refl
trim-pad-nil (suc n) = ground (arith, trim-pad-nil n)

trim-pad : (n : ℕ) (xs : Bytes) → length xs ≤ n → trim (pad n xs) ≡ trim xs
unfolding trim pad
trim-pad n [] h = trim-pad-nil n
trim-pad zero (x ∷ xs) h = absurd (omega arith)
trim-pad (suc n) (x ∷ xs) h = rw (trim-pad n xs (omega arith)) refl

tight-trim : (xs : Bytes) → tight xs ≡ true → trim xs ≡ xs
unfolding trim
tight-trim [] h = refl
tight-trim (x ∷ xs) h = ground (arith, tight-trim xs)

tight-prefix : (xs ys : Bytes) → tight (xs ++ dot ∷ ys) ≡ true → tight xs ≡ true
tight-prefix [] ys h = refl
tight-prefix (x ∷ []) ys h = ground arith
tight-prefix (x ∷ y ∷ xs) ys h = ground (arith, tight-prefix (y ∷ xs) ys)

tight-suffix : (xs ys : Bytes) → tight (xs ++ dot ∷ ys) ≡ true → tight ys ≡ true
tight-suffix [] ys h = ground arith
tight-suffix (x ∷ xs) ys h = tight-suffix xs ys (ground arith)

-- Where the first dot is.
abbrev Splits : Bytes → ℕ → Type 0
Splits xs k = (xs ≡ take k xs ++ dot ∷ drop (suc k) xs) × (length (take k xs) ≡ k)

later :
    (x : ℕ) (xs : Bytes) (k : ℕ) (o : Option ℕ)
    → ((j : ℕ) → o ≡ some j → Splits xs j)
    → Option.map suc o ≡ some k
    → Splits (x ∷ xs) k
later x xs k none h e = absurd (ground (arith, e))
later x xs k (some j) h e =
    let (at, long) = h j refl in
    subst (Splits (x ∷ xs)) (some-injective _ _ e)
      (ap (λ (r : Bytes). x ∷ r) at, omega (arith, long))

index_of-Splits : (xs : Bytes) (k : ℕ) → index_of dot xs ≡ some k → Splits xs k
unfolding index_of
index_of-Splits [] k e = absurd (ground (arith, e))
index_of-Splits (x ∷ xs) k e = elim (Bool-cases (x == dot)) [
  | inl d ↦
      let at : x ≡ dot = ground (arith, d) in
      let found : some 0 ≡ some k = sym (rw d refl) ∙ e in
      subst (Splits (x ∷ xs)) (some-injective _ _ found) (rw at (refl, refl))
  | inr d ↦
      let found : Option.map suc (index_of dot xs) ≡ some k = sym (rw d refl) ∙ e in
      later x xs k (index_of dot xs) (index_of-Splits xs) found
]

first_pad_nil : (get_or (pad 3 []) 0 0 == space) ≡ true
unfolding pad
first_pad_nil = refl

first_pad :
    (ext : Bytes)
    → is_empty ext ≡ false
    → begins_with space ext ≡ false
    → (get_or (pad 3 ext) 0 0 == space) ≡ false
unfolding pad
first_pad [] full first = absurd (ground (arith, full))
first_pad (x ∷ xs) full first = first

-- The string of a name without extension, and of one with.
undotted :
    (xs : Bytes)
    → length xs ≤ 8
    → trim xs ≡ xs
    → until_nul xs ≡ xs
    → short_to_string (pad 11 xs) ≡ xs
unfolding short_to_string
undotted xs short whole ends =
    let length_8 = length-pad 8 xs in
    rw
      (
        pad-append 8 3 xs short,
        take_name 8 (pad 8 xs) (pad 3 []) length_8,
        get_name 8 (pad 8 xs) (pad 3 []) length_8,
        trim-pad 8 xs short,
        whole,
      )
      (rw (first_pad_nil, append_nil xs) ends)

dotted :
    (base ext : Bytes)
    → length base ≤ 8
    → length ext ≤ 3
    → trim base ≡ base
    → trim ext ≡ ext
    → is_empty ext ≡ false
    → begins_with space ext ≡ false
    → until_nul (base ++ dot ∷ ext) ≡ base ++ dot ∷ ext
    → short_to_string (pad 8 base ++ pad 3 ext) ≡ base ++ dot ∷ ext
unfolding short_to_string
dotted base ext short short_ext whole whole_ext full first ends =
    let length_8 = length-pad 8 base in
    rw
      (
        take_name 8 (pad 8 base) (pad 3 ext) length_8,
        get_name 8 (pad 8 base) (pad 3 ext) length_8,
        drop_name 8 (pad 8 base) (pad 3 ext) length_8,
        trim-pad 8 base short,
        whole,
        trim-pad 3 ext short_ext,
        whole_ext,
      )
      (rw (first_pad ext full first) ends)

abbrev ext_fits : ℕ → Bytes → Bool
ext_fits k ext =
    not (k == 0)
    && (not (is_in ext dot)
        && (not (ltb 8 k || ltb 3 (length ext)) && not (is_empty ext || begins_with space ext)))

bounds :
    (k : ℕ) (ext : Bytes)
    → ext_fits k ext ≡ true
    → (k ≤ 8) × (length ext ≤ 3) × (is_empty ext ≡ false) × (begins_with space ext ≡ false)
bounds k ext h = ground arith

-- isalnum(3) is false of 0, the end of a string.
module _ (is_alnum : ℕ → Bool) (end_is : is_alnum 0 ≡ false) where
  is_allowed-nonzero : (x : ℕ) → is_allowed is_alnum x ≡ true → (x == 0) ≡ false
  unfolding is_allowed
  is_allowed-nonzero x h = elim (Bool-cases (x == 0)) [
    | inl e ↦
        let at : x ≡ 0 = ground (arith, e) in
        absurd (ground (arith, sym (ap (is_allowed is_alnum) at) ∙ h, end_is))
    | inr e ↦ e
  ]

  all_allowed-until_nul : (xs : Bytes) → all_allowed is_alnum xs ≡ true → until_nul xs ≡ xs
  unfolding all_allowed until_nul
  all_allowed-until_nul [] h = refl
  all_allowed-until_nul (x ∷ xs) h = ground (arith, is_allowed-nonzero x, all_allowed-until_nul xs)

  Stored : Bytes → Type 0
  Stored name =
      (short : Bytes) × (string_to_short name ≡ (short, pos 0)) × (short_to_string short ≡ name)

  parts :
      (name : Bytes)
      → invalid_name is_alnum name ≡ pos 0
      → (dot_fits name (index_of dot name) ≡ true) × (all_allowed is_alnum name ≡ true)
  unfolding invalid_name
  parts name valid = ground arith

  fitting :
      (name : Bytes) (o : Option ℕ)
      → index_of dot name ≡ o
      → dot_fits name o ≡ true
      → tight name ≡ true
      → until_nul name ≡ name
      → Stored name
  unfolding dot_fits Stored string_to_short split_name
  fitting name none at fits tidied ends =
      let short : ltb 8 (length name) ≡ false = ground (arith, fits) in
      (
        pad 11 name,
        rw (at, short) refl,
        undotted name (ground (arith, fits)) (tight-trim name tidied) ends,
      )
  fitting name (some zero) at fits tidied ends = absurd (ground (arith, fits))
  fitting name (some (suc k)) at fits tidied ends =
      let (splits, long) = index_of-Splits name (suc k) at in
      let base = take (suc k) name in
      let ext = drop (suc (suc k)) name in
      let tidied' : tight (base ++ dot ∷ ext) ≡ true = ap tight (sym splits) ∙ tidied in
      let ends' : until_nul (base ++ dot ∷ ext) ≡ base ++ dot ∷ ext =
        ap until_nul (sym splits) ∙ ends ∙ splits in
      let step : suc k + 1 ≡ suc (suc k) = omega arith in
      let fits' : ext_fits (suc k) ext ≡ true =
        ap (λ (j : ℕ). ext_fits (suc k) (drop j name)) (sym step) ∙ fits in
      let (short, short_ext, full, first) = bounds (suc k) ext fits' in
      let within : ltb 8 (suc k) ≡ false = ground (arith, short) in
      let within' : ltb 3 (length ext) ≡ false = ground (arith, short_ext) in
      (
        pad 8 base ++ pad 3 ext,
        rw (at, within, within') refl,
        dotted base ext (omega (arith, long, short)) short_ext
              (tight-trim base (tight-prefix base ext tidied'))
              (tight-trim ext (tight-suffix base ext tidied')) full first ends'
            ∙ sym splits,
      )

  -- A name that `fatinvalidname` finds valid, and in which no space stands before the dot or at the end,
  -- is taken by `fatstringtoshortname`, and `fatshortnametostring` gives it back.
  pub invalid_name-stored :
      (name : Bytes)
      → invalid_name is_alnum name ≡ pos 0
      → tight name ≡ true
      → (short : Bytes) × (string_to_short name ≡ (short, pos 0)) × (short_to_string short ≡ name)
  unfolding Stored
  invalid_name-stored name valid tidied =
      let (fits, allowed) = parts name valid in
      fitting name (index_of dot name) refl fits tidied (all_allowed-until_nul name allowed)
