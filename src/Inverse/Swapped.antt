-- ===== src/Inverse/Swapped.antt =====
-- `fatinverseswap` keeps the inverse table the inverse of the successors.
use libllfat.Prelude.{ℕ, none, some, List}
use libllfat.Prelude.Int.{ℤ, pos}
use libllfat.Units.Host.{Host}
use libllfat.Units.Io.{SimulatedError}
use libllfat.Fs.State.{Fat}
use libllfat.Table.Place.{Layout}
use libllfat.Table.Succ.{Represents}
use libllfat.Reference.Target.{chain}
use libllfat.Reference.Renames.{renamed, IsHeld}
use libllfat.Reference.Swapped.{IsSwappable}
use libllfat.Inverse.Slots.{Slot, slot}
use libllfat.Inverse.Moves.{follow_all}
use libllfat.Inverse.Stores.{stored}
use libllfat.Inverse.Renamed.{IsInverse}
use libllfat.Inverse.Wanted.{IsSwapped, swappable}

module _ (last : ℕ) (v : ℕ → ℤ) (rev : List Slot) (p q a b : ℕ) (inverse : IsInverse last v rev)
    (s : IsSwapped last rev p q a b) where
  -- The table after each of the four stores.
  one : List Slot
  one = stored (follow_all a b rev) (chain (pos p)) (some (slot rev a).isdir) (renamed a b v p)

  two : List Slot
  two = stored one (chain (pos a)) none (renamed a b v a)

  three : List Slot
  three = stored two (chain (pos q)) (some (slot rev b).isdir) (renamed a b v q)

  four : List Slot
  four = stored three (chain (pos b)) none (renamed a b v b)

module _ {h : Host} (errors : List SimulatedError) (l : Layout) (nfat last : ℕ) (v : ℕ → ℤ)
    (f : Fat h) (r : Represents errors l nfat last v f) (rev : List Slot)
    (inverse : IsInverse last v rev) (p q a b : ℕ) (s : IsSwapped last rev p q a b)
    (held : IsHeld f a) (held' : IsHeld f b) where
  ok : IsSwappable last v p q a b
  ok = swappable last v rev p q a b inverse s
