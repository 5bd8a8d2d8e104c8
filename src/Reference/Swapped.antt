-- ===== src/Reference/Swapped.antt =====
-- `fatclusterswap` on references of two clusters, with both clusters in the cache.
use libllfat.Prelude.{ℕ, ◌≡◌, ◌≢◌, ◌≤◌, if◌then◌else◌, List}
use libllfat.Prelude.Int.{ℤ, pos, eqb_ℤ}
use libllfat.Units.Host.{Host}
use libllfat.Units.Io.{SimulatedError}
use libllfat.Units.Cache
use libllfat.Fs.State.{Fat}
use libllfat.Table.Place.{Layout}
use libllfat.Table.Chains.{IsNext}
use libllfat.Table.Succ.{Represents, update}
use libllfat.Table.Frame.{with_clusters}
use libllfat.Reference.Renames.{IsHeld}

-- `p` alone points to `a`, and `q` alone to `b`; neither is a cycle of one.
pub record IsSwappable (last : ℕ) (v : ℕ → ℤ) (p q a b : ℕ) : Type 0 where
  pub p_lo : 2 ≤ p
  pub p_hi : p ≤ last
  pub q_lo : 2 ≤ q
  pub q_hi : q ≤ last
  pub a_lo : 2 ≤ a
  pub a_hi : a ≤ last
  pub b_lo : 2 ≤ b
  pub b_hi : b ≤ last
  pub at : v p ≡ pos a
  pub at' : v q ≡ pos b
  pub next_is : IsNext last (v a)
  pub next_is' : IsNext last (v b)
  pub alone : (m : ℕ) → 2 ≤ m → m ≤ last → m ≢ p → v m ≢ pos a
  pub alone' : (m : ℕ) → 2 ≤ m → m ≤ last → m ≢ q → v m ≢ pos b
  pub straight : p ≢ a
  pub straight' : q ≢ b
  pub differ : a ≢ b

-- The successor of `a` after the swap, for consecutive clusters too.
abbrev pub next_of : (ℕ → ℤ) → (a b : ℕ) → ℤ
next_of v a b = if eqb_ℤ (v a) (pos b) then pos a else v a

module _ (last : ℕ) (v : ℕ → ℤ) (p q a b : ℕ) (ok : IsSwappable last v p q a b) where
  abbrev swapped : ℕ → ℤ
  swapped =
      update (update (update (update v p (pos b)) q (pos a)) b (next_of v a b)) a (next_of v b a)

module _ {h : Host} (errors : List SimulatedError) (l : Layout) (nfat last : ℕ) (v : ℕ → ℤ)
    (f : Fat h) (r : Represents errors l nfat last v f) (p q a b : ℕ)
    (ok : IsSwappable last v p q a b) where
  module _ (held : IsHeld f a) (held' : IsHeld f b) where
    -- The caches after the swap of the units.
    abbrev mid : Fat h
    mid = with_clusters f (Cache.swap h errors f.clusters held.u held'.u) f.disk
