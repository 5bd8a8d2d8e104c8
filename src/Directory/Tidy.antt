-- ===== src/Directory/Tidy.antt =====
-- The stored form of a name, described from its end.
use libllfat.Prelude.{
  append_nil, append_assoc, ℕ, zero, suc, ◌≡◌, ◌≢◌, refl, ap, ◌∙◌, arith, Bool, true, false, not,
  ◌&&◌, ◌||◌, ◌==◌, if◌then◌else◌, none, some, [], ◌∷◌, ◌++◌, length, replicate, Bool-cases, inl,
  inr,
}
use libllfat.Bytes.{Bytes}
use libllfat.Entry.Names.{space, is_empty}
use libllfat.Entry.Padding.{take-append}
use libllfat.Directory.Names.{
  dot, begins_with, Written, write_char, storage_loop, storage_part, storage_name,
}

-- toupper(3) leaves dots and spaces as they are, and makes no other byte one of them.
pub record KeepsMarks (upper : ℕ → ℕ) : Type 0 where
  pub dot_is : upper dot ≡ dot
  pub space_is : upper space ≡ space
  pub dot_from : (c : ℕ) → upper c ≡ dot → c ≡ dot
  pub space_from : (c : ℕ) → upper c ≡ space → c ≡ space

-- Without the spaces before a dot and at the end, in upper case.
abbrev pub tidy : (ℕ → ℕ) → Bytes → Bytes
tidy upper [] = []
tidy upper (x ∷ xs) =
    let rest = tidy upper xs in
    if x == space && (is_empty rest || begins_with dot rest) then rest else upper x ∷ rest

abbrev pub no_slash : Bytes → Bool
no_slash [] = true
no_slash (x ∷ xs) = not (x == b'/') && no_slash xs

snoc-space : (n : ℕ) → replicate n space ++ space ∷ [] ≡ replicate (suc n) space
snoc-space zero = refl
snoc-space (suc n) = ap (λ (r : Bytes). space ∷ r) (snoc-space n)

eqb-false : {x y : ℕ} → x ≢ y → (x == y) ≡ false
eqb-false {x} {y} h = ground (arith, h)

-- No space stands before a dot or at the end.
abbrev pub tight : Bytes → Bool
tight [] = true
tight (x ∷ xs) = not (x == space && (is_empty xs || begins_with dot xs)) && tight xs

module _ (upper : ℕ → ℕ) (keeps : KeepsMarks upper) where
  tidy-spaces : (n : ℕ) → tidy upper (replicate n space) ≡ []
  tidy-spaces zero = refl
  tidy-spaces (suc n) = ground (arith, tidy-spaces n)

  tidy-spaces-dot :
      (n : ℕ) (xs : Bytes) → tidy upper (replicate n space ++ dot ∷ xs) ≡ dot ∷ tidy upper xs
  tidy-spaces-dot zero xs = ground (arith, keeps.dot_is)
  tidy-spaces-dot (suc n) xs = ground (arith, tidy-spaces-dot n xs)

  not_marked :
      (n y : ℕ) (rest : Bytes)
      → y ≢ dot
      → (is_empty (replicate n space ++ y ∷ rest)
          || begins_with dot (replicate n space ++ y ∷ rest))
        ≡ false
  not_marked zero y rest nd = ground (arith, nd)
  not_marked (suc n) y rest nd = refl

  tidy-spaces-byte :
      (n x : ℕ) (xs : Bytes)
      → x ≢ space
      → x ≢ dot
      → tidy upper (replicate n space ++ x ∷ xs) ≡ replicate n space ++ upper x ∷ tidy upper xs
  tidy-spaces-byte zero x xs ns nd = ground (arith, ns)
  tidy-spaces-byte (suc n) x xs ns nd =
      rw
        (
          tidy-spaces-byte n x xs ns nd,
          not_marked n (upper x) (tidy upper xs) (λ e. nd (keeps.dot_from x e)),
          keeps.space_is,
        )
        refl

  shift : (n : ℕ) (xs : Bytes) → replicate (suc n) space ++ xs ≡ replicate n space ++ space ∷ xs
  shift zero xs = refl
  shift (suc n) xs = ap (λ (r : Bytes). space ∷ r) (shift n xs)

  pair : {a b : Bytes} → a ≡ b → ◌≡◌ {A = Bytes × Bytes} (a, []) (b, [])
  pair e = ap (λ (r : Bytes). (r, [])) e

  -- The state of the loop: `n` spaces behind what is kept.
  written : Bytes → ℕ → Written
  written d n = record { dst = d ++ replicate n space; nonspace = some (length d) }

  write-dot : (d : Bytes) (n : ℕ) → write_char upper dot (written d n) ≡ written (d ++ dot ∷ []) 0
  unfolding write_char written
  write-dot d n =
      rw (take-append d (replicate n space), keeps.dot_is, append_nil (d ++ dot ∷ [])) refl

  write-space : (d : Bytes) (n : ℕ) → write_char upper space (written d n) ≡ written d (suc n)
  unfolding write_char written
  write-space d n =
      rw (keeps.space_is, append_assoc d (replicate n space) (space ∷ []), snoc-space n) refl

  write-byte :
      (d : Bytes) (n x : ℕ)
      → x ≢ space
      → x ≢ dot
      → write_char upper x (written d n) ≡ written (d ++ (replicate n space ++ upper x ∷ [])) 0
  unfolding write_char written
  write-byte d n x ns nd =
      let not_dot : (x == dot) ≡ false = ground (arith, nd) in
      let not_space : (upper x == space) ≡ false = eqb-false (λ e. ns (keeps.space_from x e)) in
      rw
        (
          not_dot,
          not_space,
          append_assoc d (replicate n space) (upper x ∷ []),
          append_nil (d ++ (replicate n space ++ upper x ∷ [])),
        )
        refl

  write-first :
      (x : ℕ)
      → x ≢ space
      → write_char upper x (record { dst = []; nonspace = none }) ≡ written (upper x ∷ []) 0
  unfolding write_char written
  write-first x ns =
      let not_space : (upper x == space) ≡ false = eqb-false (λ e. ns (keeps.space_from x e)) in
      elim (Bool-cases (x == dot)) [
        | inl e ↦ rw (e, not_space) refl
        | inr e ↦ rw (e, not_space) refl
      ]

  loop_lem :
      (xs : Bytes) (n : ℕ) (d : Bytes)
      → no_slash xs ≡ true
      → storage_loop upper xs (written d n) ≡ (d ++ tidy upper (replicate n space ++ xs), [])
  unfolding storage_loop written
  loop_lem [] n d h =
      rw
        (
          take-append d (replicate n space),
          append_nil (replicate n space),
          tidy-spaces n,
          append_nil d,
        )
        refl
  loop_lem (x ∷ xs) n d h =
      let slash : (x == b'/') ≡ false = ground (arith, h) in
      let later : no_slash xs ≡ true = ground (arith, h) in
      rw slash (elim (Bool-cases (x == dot)) [
        | inl e ↦
            let at : x ≡ dot = ground (arith, e) in
            rw (at, write-dot d n, loop_lem xs 0 (d ++ dot ∷ []) later, tidy-spaces-dot n xs)
              (pair (append_assoc d (dot ∷ []) (tidy upper xs)))
        | inr not_dot ↦ elim (Bool-cases (x == space)) [
          | inl e ↦
              let at : x ≡ space = ground (arith, e) in
              rw (at, write-space d n, loop_lem xs (suc n) d later)
                (pair (ap (λ (r : Bytes). d ++ tidy upper r) (shift n xs)))
          | inr not_space ↦
              let nd : x ≢ dot = λ e. ground (arith, e) in
              let ns : x ≢ space = λ e. ground (arith, e) in
              let u = replicate n space ++ upper x ∷ [] in
              rw
                (
                  write-byte d n x ns nd,
                  loop_lem xs 0 (d ++ u) later,
                  tidy-spaces-byte n x xs ns nd,
                )
                (pair (
                  append_assoc d u (tidy upper xs)
                  ∙ ap (λ (r : Bytes). d ++ r)
                      (append_assoc (replicate n space) (upper x ∷ []) (tidy upper xs))))
        ]
      ])

  -- `fatstoragename` of a name without a slash that does not begin with a space is the name in upper
  -- case without the spaces before a dot and at the end.
  pub storage_name-tidy :
      (x : ℕ) (xs : Bytes)
      → x ≢ space
      → no_slash (x ∷ xs) ≡ true
      → storage_name upper (x ∷ xs) ≡ some (tidy upper (x ∷ xs))
  unfolding storage_name storage_part storage_loop
  storage_name-tidy x xs ns h =
      let slash : (x == b'/') ≡ false = ground (arith, h) in
      let later : no_slash xs ≡ true = ground (arith, h) in
      let not_space : (x == space) ≡ false = eqb-false ns in
      rw (slash, write-first x ns, loop_lem xs 0 (upper x ∷ []) later, not_space) refl

  pub tidy-tight : (xs : Bytes) → tight (tidy upper xs) ≡ true
  tidy-tight [] = refl
  tidy-tight (x ∷ xs) = elim (Bool-cases (x == space)) [
    | inl e ↦ ground (arith, e, tidy-tight xs)
    | inr e ↦
        let not_space : (upper x == space) ≡ false =
          eqb-false (λ (s : upper x ≡ space). ground (arith, e, keeps.space_from x s)) in
        rw (e, not_space) (tidy-tight xs)
  ]
