-- ===== src/Inverse/Moved.antt =====
-- `fatinversemove` keeps the inverse table the inverse of the successors.
use libllfat.Prelude.{ℕ, none, List, set}
use libllfat.Prelude.Int.{ℤ, pos}
use libllfat.Units.Host.{Host}
use libllfat.Units.Io.{SimulatedError}
use libllfat.Fs.State.{Fat}
use libllfat.Table.Place.{Layout}
use libllfat.Table.Succ.{Represents}
use libllfat.Reference.Target.{chain}
use libllfat.Reference.Renames.{IsHeld}
use libllfat.Reference.Moved.{IsMovable}
use libllfat.Inverse.Slots.{Slot, slot, clear}
use libllfat.Inverse.Moves.{follow_all}
use libllfat.Inverse.Stores.{stored}
use libllfat.Inverse.Renamed.{IsInverse}
use libllfat.Inverse.Kept.{IsMoved, movable}

module _ (last : ℕ) (v : ℕ → ℤ) (rev : List Slot) (p c t : ℕ) (inverse : IsInverse last v rev)
    (m : IsMoved last v rev p c t) where
  abbrev free_ok : IsMovable last v p c t
  free_ok = movable last v rev p c t inverse m

  moved_slot : Slot
  moved_slot = record { reference = chain (pos p); isdir = (slot rev c).isdir }

  -- The table after each of the three changes.
  first : List Slot
  first = set (follow_all c t rev) t moved_slot

  second : List Slot
  second = stored first (chain (pos t)) none (v c)

  third : List Slot
  third = clear second (pos c)

module _ {h : Host} (errors : List SimulatedError) (l : Layout) (nfat last : ℕ) (v : ℕ → ℤ)
    (f : Fat h) (r : Represents errors l nfat last v f) (rev : List Slot)
    (inverse : IsInverse last v rev) (p c t : ℕ) (m : IsMoved last v rev p c t)
    (held : IsHeld f c) where
  ok : IsMovable last v p c t
  ok = movable last v rev p c t inverse m
