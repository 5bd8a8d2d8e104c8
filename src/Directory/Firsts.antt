-- ===== src/Directory/Firsts.antt =====
-- The first entry of a kind, and strings without a slash.
use libllfat.Prelude.{
  ℕ, zero, suc, ◌+◌, ◌<◌, ◌≡◌, refl, sym, ap, ◌∙◌, arith, Bool, true, false, ◌==◌, Option, none,
  some, List, [], ◌∷◌, Bool-cases, Option-cases, inl, inr,
}
use libllfat.Bytes.{Bytes}
use libllfat.Units.{FatUnit}
use libllfat.Entry.Fields.{entry_exists, entry_end}
use libllfat.Entry.Names.{same_string, index_of}
use libllfat.Directory.Create.{last_slash, slash}
use libllfat.Directory.Found.{find_in}
use libllfat.Directory.FreeFound.{free_from}

pub same_string_refl : (xs : Bytes) → same_string xs xs ≡ true
unfolding same_string
same_string_refl [] = refl
same_string_refl (x ∷ xs) = ground (arith, same_string_refl xs)

pub last_slash-none : (xs : Bytes) → index_of slash xs ≡ none → last_slash xs ≡ none
unfolding index_of last_slash
last_slash-none [] e = refl
last_slash-none (x ∷ xs) e = elim (Bool-cases (x == slash)) [
  | inl s ↦ absurd (ground arith)
  | inr n ↦ elim (Option-cases (index_of slash xs)) [
    | inl m ↦ rw (last_slash-none xs m, n) refl
    | inr (k, m) ↦ absurd (ground (arith, m))
  ]
]

-- The search for a free entry stops at the first one of the first cluster.
free_from-first :
    (u : FatUnit) (us : List FatUnit) (left i k : ℕ)
    → ((j : ℕ) → j < i + k → entry_exists u j ≡ true)
    → entry_exists u (i + k) ≡ false
    → k < left
    → free_from u.n u left i us ≡ some (u.n, i + k)
free_from-first u us zero i k used free lt = absurd (omega arith)
free_from-first u us (suc left) i zero used free lt =
    let here : entry_exists u i ≡ false = ap (entry_exists u) (omega arith) ∙ free in
    rw here (ap (λ (j : ℕ). some (u.n, j)) (omega arith))
free_from-first u us (suc left) i (suc k) used free lt =
    let next : i + suc k ≡ i + 1 + k = omega arith in
    rw (used i (omega arith)) (
      free_from-first u us left (i + 1) k (λ j h. used j (omega arith))
        (ap (entry_exists u) (sym next) ∙ free) (omega arith)
      ∙ ap (λ (j : ℕ). some (u.n, j)) (sym next))

find_in-first :
    (p : FatUnit → ℕ → Bool) (u : FatUnit) (rest : Option (ℕ × ℕ)) (left i k : ℕ)
    → ((j : ℕ) → j < i + k → (entry_end (some u) j ≡ false) × (p u j ≡ false))
    → entry_end (some u) (i + k) ≡ false
    → p u (i + k) ≡ true
    → k < left
    → find_in p u left i rest ≡ some (u.n, i + k)
find_in-first p u rest zero i k before live at lt = absurd (omega arith)
find_in-first p u rest (suc left) i zero before live at lt =
    let same : i + 0 ≡ i = omega arith in
    let live' : entry_end (some u) i ≡ false = ap (entry_end (some u)) (sym same) ∙ live in
    let at' : p u i ≡ true = ap (p u) (sym same) ∙ at in
    rw (live', at') (ap (λ (j : ℕ). some (u.n, j)) (sym same))
find_in-first p u rest (suc left) i (suc k) before live at lt =
    let next : i + suc k ≡ i + 1 + k = omega arith in
    let (a, b) = before i (omega arith) in
    rw (a, b)
      (find_in-first p u rest left (i + 1) k (λ j h. before j (omega arith))
          (ap (entry_end (some u)) (sym next) ∙ live) (ap (p u) (sym next) ∙ at) (omega arith)
        ∙ ap (λ (j : ℕ). some (u.n, j)) (sym next))

pub free_from-start :
    (u : FatUnit) (us : List FatUnit) (left k : ℕ)
    → ((j : ℕ) → j < k → entry_exists u j ≡ true)
    → entry_exists u k ≡ false
    → k < left
    → free_from u.n u left 0 us ≡ some (u.n, k)
free_from-start u us left k used free lt =
    let e : 0 + k ≡ k = omega arith in
    free_from-first u us left 0 k (λ j h. used j (omega arith)) (ap (entry_exists u) e ∙ free) lt
    ∙ ap (λ (j : ℕ). some (u.n, j)) e

pub find_in-start :
    (p : FatUnit → ℕ → Bool) (u : FatUnit) (rest : Option (ℕ × ℕ)) (left k : ℕ)
    → ((j : ℕ) → j < k → (entry_end (some u) j ≡ false) × (p u j ≡ false))
    → entry_end (some u) k ≡ false
    → p u k ≡ true
    → k < left
    → find_in p u left 0 rest ≡ some (u.n, k)
find_in-start p u rest left k before live at lt =
    let e : 0 + k ≡ k = omega arith in
    find_in-first p u rest left 0 k (λ j h. before j (omega arith))
      (ap (entry_end (some u)) e ∙ live) (ap (p u) e ∙ at) lt
    ∙ ap (λ (j : ℕ). some (u.n, j)) e
