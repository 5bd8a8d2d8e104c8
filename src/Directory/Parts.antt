-- ===== src/Directory/Parts.antt =====
-- The parts of a path, between its slashes.
use libllfat.Prelude.{
  ℕ, suc, ◌+◌, ◌<◌, ◌≤◌, ◌≡◌, refl, arith, false, ◌==◌, if◌then◌else◌, Option, none, some, List, [],
  ◌∷◌, length, take, drop, Bool-cases, inl, inr,
}
use mathlib.Core.Option
use libllfat.Bytes.{Bytes}
use libllfat.Entry.Names.{index_of}
use libllfat.Directory.Create.{slash, skip_slashes}

-- A part that is not empty joins the others.
abbrev with_part : Bytes → List Bytes → List Bytes
with_part [] ps = ps
with_part (x ∷ xs) ps = (x ∷ xs) ∷ ps

abbrev pub full : Bytes × List Bytes → List Bytes
full s = with_part s.0 s.1

abbrev after : ℕ → Bytes × List Bytes → Bytes × List Bytes
after x s = if x == slash then ([], full s) else (x ∷ s.0, s.1)

-- What is before the first slash, and the other parts that are not empty.
abbrev pub parts : Bytes → Bytes × List Bytes
parts [] = ([], [])
parts (x ∷ xs) = after x (parts xs)

map-none : (o : Option ℕ) → Option.map suc o ≡ none → o ≡ none
map-none none e = refl
map-none (some j) e = absurd (ground (arith, e))

map-some : (o : Option ℕ) (k : ℕ) → Option.map suc o ≡ some k → (j : ℕ) × (o ≡ some j) × (k ≡ suc j)
map-some none k e = absurd (ground (arith, e))
map-some (some j) k e = (j, refl, ground (arith, e))

pub parts-whole : (path : Bytes) → index_of slash path ≡ none → parts path ≡ (path, [])
unfolding index_of
parts-whole [] e = refl
parts-whole (x ∷ xs) e = elim (Bool-cases (x == slash)) [
  | inl same ↦ absurd (ground (arith, e, same))
  | inr other ↦
      let rest : index_of slash xs ≡ none =
        map-none (index_of slash xs) (ground (arith, e, other)) in
      rw (other, parts-whole xs rest) refl
]

pub parts-cut :
    (path : Bytes) (k : ℕ)
    → index_of slash path ≡ some k
    → parts path ≡ (take k path, full (parts (drop k path)))
unfolding index_of
parts-cut [] k e = absurd (ground (arith, e))
parts-cut (x ∷ xs) k e = elim (Bool-cases (x == slash)) [
  | inl same ↦ let first : k ≡ 0 = ground (arith, e, same) in rw (first, same) refl
  | inr other ↦
      let (j, rest, next) = map-some (index_of slash xs) k (ground (arith, e, other)) in
      rw (next, other, parts-cut xs j rest) refl
]

pub full-skip : (path : Bytes) → full (parts path) ≡ full (parts (skip_slashes path))
unfolding skip_slashes
full-skip [] = refl
full-skip (x ∷ xs) = elim (Bool-cases (x == slash)) [
  | inl e ↦ rw (e, full-skip xs) refl
  | inr e ↦ rw (e, e) refl
]

pub length-skip : (path : Bytes) → length (skip_slashes path) ≤ length path
unfolding skip_slashes
length-skip [] = omega arith
length-skip (x ∷ xs) = ground (arith, length-skip xs)

pub length-drop :
    (path : Bytes) (k : ℕ) → index_of slash path ≡ some k → length (drop k path) + k ≡ length path
unfolding index_of
length-drop [] k e = absurd (ground (arith, e))
length-drop (x ∷ xs) k e = elim (Bool-cases (x == slash)) [
  | inl same ↦ let first : k ≡ 0 = ground (arith, e, same) in rw first (omega arith)
  | inr other ↦
      let (j, rest, next) = map-some (index_of slash xs) k (ground (arith, e, other)) in
      rw next (omega (arith, length-drop xs j rest))
]

pub length-take-lt :
    (path : Bytes) (k : ℕ) → index_of slash path ≡ some k → length (take k path) < length path
unfolding index_of
length-take-lt [] k e = absurd (ground (arith, e))
length-take-lt (x ∷ xs) k e = elim (Bool-cases (x == slash)) [
  | inl same ↦ let first : k ≡ 0 = ground (arith, e, same) in rw first (omega arith)
  | inr other ↦
      let (j, rest, next) = map-some (index_of slash xs) k (ground (arith, e, other)) in
      rw next (omega (arith, length-take-lt xs j rest))
]

pub length-drop-lt :
    (path : Bytes) (k : ℕ) → index_of slash path ≡ some k → length (drop (suc k) path) < length path
unfolding index_of
length-drop-lt [] k e = absurd (ground (arith, e))
length-drop-lt (x ∷ xs) k e = elim (Bool-cases (x == slash)) [
  | inl same ↦ let first : k ≡ 0 = ground (arith, e, same) in rw first (omega arith)
  | inr other ↦
      let (j, rest, next) = map-some (index_of slash xs) k (ground (arith, e, other)) in
      rw next (omega (arith, length-drop-lt xs j rest))
]

-- The slash itself adds no part.
pub full-drop :
    (path : Bytes) (k : ℕ)
    → index_of slash path ≡ some k
    → full (parts (drop k path)) ≡ full (parts (drop (suc k) path))
unfolding index_of
full-drop [] k e = absurd (ground (arith, e))
full-drop (x ∷ xs) k e = elim (Bool-cases (x == slash)) [
  | inl same ↦ let first : k ≡ 0 = ground (arith, e, same) in rw (first, same) refl
  | inr other ↦
      let (j, rest, next) = map-some (index_of slash xs) k (ground (arith, e, other)) in
      rw next (full-drop xs j rest)
]

pub skip-head :
    (path : Bytes) (x : ℕ) (xs : Bytes) → skip_slashes path ≡ x ∷ xs → (x == slash) ≡ false
unfolding skip_slashes
skip-head [] x xs e = absurd (ground (arith, e))
skip-head (y ∷ ys) x xs e = elim (Bool-cases (y == slash)) [
  | inl same ↦ skip-head ys x xs (ground (arith, e, same))
  | inr other ↦ ground (arith, e, other)
]

pub full-head :
    (x : ℕ) (xs : Bytes)
    → (x == slash) ≡ false
    → full (parts (x ∷ xs)) ≡ (parts (x ∷ xs)).0 ∷ (parts (x ∷ xs)).1
full-head x xs e = rw e refl

-- Nothing is left behind the first part: the path is this part and slashes.
pub part-alone :
    (path : Bytes) (k : ℕ) → index_of slash path ≡ some k → parts (take k path) ≡ (take k path, [])
unfolding index_of
part-alone [] k e = absurd (ground (arith, e))
part-alone (x ∷ xs) k e = elim (Bool-cases (x == slash)) [
  | inl same ↦ let first : k ≡ 0 = ground (arith, e, same) in rw first refl
  | inr other ↦
      let (j, rest, next) = map-some (index_of slash xs) k (ground (arith, e, other)) in
      rw (next, other, part-alone xs j rest) refl
]
