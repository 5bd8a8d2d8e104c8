-- ===== src/Tests/Host.antt =====
-- A tree that is a list, and a device that is a function from positions to bytes.
use libllfat.Prelude.{
  ℕ, zero, suc, ◌+◌, ◌-◌, ◌%◌, ◌≡◌, refl, ap, arith, Bool, true, ◌&&◌, ◌==◌, ltb, leb,
  if◌then◌else◌, Option, none, some, List, [], ◌∷◌, length, get_or, map, Bool-cases, inl, inr,
  replicate,
}
use mathlib.Core.List.{Mem, Memᴰ, mem-cons_of_mem}
use mathlib.Core.Option.{some-injective}
use native.Mathlib.Nat.{mod-lt}
use libllfat.Bytes.{Bytes, IsBytes}
use libllfat.Units.{FatUnit}
use libllfat.Units.Host.{Host}

unfoldable pub all_bytes : Bytes → Bool
all_bytes [] = true
all_bytes (x ∷ xs) = ltb x 256 && all_bytes xs

pub all_bytes-IsBytes : (d : Bytes) → all_bytes d ≡ true → IsBytes d
unfolding all_bytes
all_bytes-IsBytes [] h i = omega arith
all_bytes-IsBytes (x ∷ xs) h zero = ground arith
all_bytes-IsBytes (x ∷ xs) h (suc i) = all_bytes-IsBytes xs (ground arith) i

unfoldable pub tfind : ℕ → List FatUnit → Option FatUnit
tfind k [] = none
tfind k (u ∷ t) = if u.n == k then some u else tfind k t

unfoldable pub tdelete : ℕ → List FatUnit → List FatUnit
tdelete n [] = []
tdelete n (u ∷ t) = let rest = tdelete n t in if u.n == n then rest else u ∷ rest

unfoldable pub read_disk : (ℕ → ℕ) → ℕ → ℕ → Bytes
read_disk d at zero = []
read_disk d at (suc size) = d at % 256 ∷ read_disk d (at + 1) size

unfoldable pub write_disk : (ℕ → ℕ) → ℕ → Bytes → ℕ → ℕ
write_disk d at xs i = if leb at i && ltb i (at + length xs) then get_or xs (i - at) 0 else d i

abbrev pub unit_number : FatUnit → ℕ
unit_number u = u.n

pub tfind-empty : (k : ℕ) → tfind k [] ≡ none
unfolding tfind
tfind-empty k = refl

pub tfind-put :
    (u : FatUnit) (t : List FatUnit) (k : ℕ)
    → tfind k (u ∷ t) ≡ (if u.n == k then some u else tfind k t)
unfolding tfind
tfind-put u t k = refl

pub tfind-tdelete :
    (n : ℕ) (t : List FatUnit) (k : ℕ)
    → tfind k (tdelete n t) ≡ (if n == k then none else tfind k t)
unfolding tfind tdelete
tfind-tdelete n [] k = ground arith
tfind-tdelete n (u ∷ t) k = ground (arith, tfind-tdelete n t k)

pub tfind-n : (k : ℕ) (t : List FatUnit) (u : FatUnit) → tfind k t ≡ some u → u.n ≡ k
unfolding tfind
tfind-n k [] u e = ground arith
tfind-n k (x ∷ t) u e = ground (arith, tfind-n k t u)

pub tfind-mem :
    (k : ℕ) (t : List FatUnit) (u : FatUnit) → tfind k t ≡ some u → Mem k (map unit_number t)
unfolding tfind
tfind-mem k [] u e = absurd (ground arith)
tfind-mem k (x ∷ t) u e = elim (Bool-cases (x.n == k)) [
  | inl h ↦ ∣ Memᴰ.head (ground arith) ∣₁
  | inr h ↦ mem-cons_of_mem x.n (tfind-mem k t u (ground arith))
]

pub length-read_disk : (d : ℕ → ℕ) (at size : ℕ) → length (read_disk d at size) ≡ size
unfolding read_disk
length-read_disk d at zero = refl
length-read_disk d at (suc size) = ap suc (length-read_disk d (at + 1) size)

pub read_disk-IsBytes : (d : ℕ → ℕ) (at size : ℕ) → IsBytes (read_disk d at size)
unfolding read_disk
read_disk-IsBytes d at zero i = omega arith
read_disk-IsBytes d at (suc size) zero = mod-lt (d at) (omega arith)
read_disk-IsBytes d at (suc size) (suc i) = read_disk-IsBytes d (at + 1) size i

abbrev pub list_host : Host
list_host = record {
  Tree = List FatUnit;
  empty = [];
  tfind = tfind;
  put = ◌∷◌;
  tdelete = tdelete;
  walk = map unit_number;
  Disk = ℕ → ℕ;
  lseek = λ d fd at. true;
  read = λ d fd at size. some (read_disk d at size);
  partial = λ d fd at size. [];
  write = λ d fd at xs. (write_disk d at xs, true);
  garbage = λ size. replicate size 0;
  tfind-empty = tfind-empty;
  tfind-put = tfind-put;
  tfind-tdelete = tfind-tdelete;
  walk-mem = λ k t u e. tfind-mem k t u e;
  tfind-n = tfind-n;
  length-read = λ d fd at size xs e. rw (← some-injective _ _ e) (length-read_disk d at size);
  length-partial = λ d fd at size pos_size e. pos_size;
  read-IsBytes = λ d fd at size xs e. rw (← some-injective _ _ e) (read_disk-IsBytes d at size);
}
