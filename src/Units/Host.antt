-- ===== src/Units/Host.antt =====
-- What the library takes from the C library: the search tree of tsearch(3), file access and malloc.
-- They are parameters, with the documented behaviour that the proofs rely on.
use libllfat.Prelude.{ℕ, ◌<◌, ◌≡◌, Bool, Option, none, some, List, ◌==◌, if◌then◌else◌, length}
use mathlib.Core.List.{Mem}
use libllfat.Prelude.Int.{ℤ}
use libllfat.Bytes.{Bytes, IsBytes}
use libllfat.Units.Block.{FatUnit}

-- A tree of units ordered by `_compareunit`, which compares their numbers. A node holds a pointer to
-- a unit; here it holds the unit, and `put` stands both for the insertion by tsearch(3) and for a
-- store into a unit through its pointer. `put` wants the unit's number as the key.
pub record Host : Type 1 where
  pub Tree : Type 0
  pub empty : Tree
  pub tfind : ℕ → Tree → Option FatUnit
  pub put : FatUnit → Tree → Tree
  pub tdelete : ℕ → Tree → Tree
  -- The numbers in the order of twalk(3).
  pub walk : Tree → List ℕ
  pub Disk : Type 0
  -- lseek(2) to a position succeeds.
  pub lseek : Disk → ℤ → ℕ → Bool
  -- read(2) of that many bytes at a position; `none` is an error or a short read.
  pub read : Disk → ℤ → ℕ → ℕ → Option Bytes
  -- What a read(2) that is short, or an error, has stored of the bytes.
  pub partial : Disk → ℤ → ℕ → ℕ → Bytes
  -- write(2) at a position; false is an error or a short write.
  pub write : Disk → ℤ → ℕ → Bytes → Disk × Bool
  -- What malloc(3) leaves in a block of a size.
  pub garbage : ℕ → Bytes
  pub tfind-empty : (k : ℕ) → tfind k empty ≡ none
  pub tfind-put :
      (u : FatUnit) (t : Tree) (k : ℕ)
      → tfind k (put u t) ≡ (if u.n == k then some u else tfind k t)
  pub tfind-tdelete :
      (n : ℕ) (t : Tree) (k : ℕ) → tfind k (tdelete n t) ≡ (if n == k then none else tfind k t)
  pub walk-mem : (k : ℕ) (t : Tree) (u : FatUnit) → tfind k t ≡ some u → Mem k (walk t)
  pub tfind-n : (k : ℕ) (t : Tree) (u : FatUnit) → tfind k t ≡ some u → u.n ≡ k
  pub length-read :
      (d : Disk) (fd : ℤ) (at size : ℕ) (xs : Bytes)
      → read d fd at size ≡ some xs
      → length xs ≡ size
  pub length-partial :
      (d : Disk) (fd : ℤ) (at size : ℕ)
      → 0 < size
      → read d fd at size ≡ none
      → length (partial d fd at size) < size
  pub read-IsBytes :
      (d : Disk) (fd : ℤ) (at size : ℕ) (xs : Bytes) → read d fd at size ≡ some xs → IsBytes xs
