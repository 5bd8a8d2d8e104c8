-- ===== src/Inverse/Kept.antt =====
-- What the moving of a cluster relies on.
use libllfat.Prelude.{
  ℕ, zero, suc, ◌≤◌, ◌<◌, ◌≡◌, ◌≢◌, refl, ap, sym, ◌∙◌, arith, true, false, ◌==◌, if◌then◌else◌,
  List, [], ◌∷◌, length, set, Bool-cases, inl, inr, get_or-set,
}
use libllfat.Prelude.Int.{ℤ, pos, negsuc, pos_part, eqb_ℤ}
use libllfat.Table.Next.{fat_unused}
use libllfat.Table.Chains.{IsNext}
use libllfat.Reference.Target.{Reference, entry, chain}
use libllfat.Reference.Move.{follow}
use libllfat.Reference.Renames.{rename}
use libllfat.Reference.Moved.{IsMovable}
use libllfat.Inverse.Slots.{Slot, slot, void}
use libllfat.Inverse.Moves.{follow_all}
use libllfat.Inverse.Renamed.{IsInverse, rename_reference, chain-injective}

pub eqb_ℤ-true : (w : ℤ) (n : ℕ) → eqb_ℤ w (pos n) ≡ true → w ≡ pos n
eqb_ℤ-true (pos m) n e = ap pos (ground (arith, e))
eqb_ℤ-true (negsuc m) n e = absurd (ground (arith, e))

pub eqb_ℤ-false : (w : ℤ) (n : ℕ) → w ≢ pos n → eqb_ℤ w (pos n) ≡ false
eqb_ℤ-false w n ne = elim (Bool-cases (eqb_ℤ w (pos n))) [
  | inl e ↦ absurd (ne (eqb_ℤ-true w n e))
  | inr e ↦ e
]

pub IsNext-le : (last : ℕ) (w : ℤ) (k : ℕ) → IsNext last w → w ≡ pos k → k ≤ last
IsNext-le last w k (inl (n, at, hi)) e = omega (arith, hi, ap pos_part (sym at ∙ e))
IsNext-le last w k (inr (inl at)) e = absurd (ground (arith, sym at ∙ e))
IsNext-le last w k (inr (inr at)) e = absurd (ground (arith, sym at ∙ e))

pub rename-other : (a b : ℕ) (w : ℤ) → w ≢ pos a → w ≢ pos b → rename a b w ≡ w
rename-other a b (negsuc n) na nb = refl
rename-other a b (pos n) na nb =
    let not_a : n ≢ a = λ e. na (ap pos e) in
    let not_b : n ≢ b = λ e. nb (ap pos e) in ap pos (ground (arith, not_a, not_b))

pub length-follow_all : (a b : ℕ) (rev : List Slot) → length (follow_all a b rev) ≡ length rev
unfolding follow_all
length-follow_all a b [] = refl
length-follow_all a b (s ∷ rev) = ap suc (length-follow_all a b rev)

pub slot-follow_all :
    (a b : ℕ) (rev : List Slot) (s : ℕ)
    → slot (follow_all a b rev) s
      ≡ record { reference = follow a b (slot rev s).reference; isdir = (slot rev s).isdir }
unfolding follow_all
slot-follow_all a b [] s = refl
slot-follow_all a b (x ∷ rev) zero = refl
slot-follow_all a b (x ∷ rev) (suc s) = slot-follow_all a b rev s

pub slot-set :
    (rev : List Slot) (n : ℕ) (x : Slot) (s : ℕ)
    → n < length rev
    → slot (set rev n x) s ≡ (if n == s then x else slot rev s)
slot-set rev n x s inside = ground (arith, get_or-set rev n s x void)

pub follow-rename :
    (a b : ℕ) (r : Reference)
    → ((q : ℕ) → r ≡ chain (pos q) → (q ≢ a) × (q ≢ b))
    → follow a b r ≡ rename_reference a b r
follow-rename a b (entry d i) h = refl
follow-rename a b (chain (negsuc n)) h = refl
follow-rename a b (chain (pos n)) h =
    let (na, nb) = h n refl in ap (λ (k : ℕ). chain (pos k)) (ground (arith, na, nb))

-- The cluster `c` has the cluster `p` as its reference, in use, and `t` is free and has none.
pub record IsMoved (last : ℕ) (v : ℕ → ℤ) (rev : List Slot) (p c t : ℕ) : Type 0 where
  pub p_lo : 2 ≤ p
  pub c_lo : 2 ≤ c
  pub c_hi : c ≤ last
  pub t_lo : 2 ≤ t
  pub t_hi : t ≤ last
  pub at : (slot rev c).reference ≡ chain (pos p)
  pub free : v t ≡ fat_unused
  pub unreferred : (slot rev t).reference ≡ chain (pos 0)
  pub in_use : v c ≢ fat_unused
  pub straight : p ≢ c

module _ (last : ℕ) (v : ℕ → ℤ) (rev : List Slot) (p c t : ℕ) (inverse : IsInverse last v rev)
    (m : IsMoved last v rev p c t) where
  -- What the inverse tells about the references, the move relies on.
  pub movable : IsMovable last v p c t
  movable =
      let (p_hi, at) = inverse.back c p (omega (arith, m.c_lo)) m.c_hi m.at m.p_lo in
      record {
        p_lo = m.p_lo;
        p_hi = p_hi;
        c_lo = m.c_lo;
        c_hi = m.c_hi;
        t_lo = m.t_lo;
        t_hi = m.t_hi;
        at = at;
        free = m.free;
        in_use = m.in_use;
        next_is = inverse.nexts c m.c_lo m.c_hi;
        alone = λ k lo hi ne e.
            ne (
              chain-injective k p
                (sym (inverse.points k c lo hi (omega (arith, m.c_lo)) e) ∙ m.at));
        unreferred = λ k lo hi e.
            let zeroth =
              chain-injective k 0
                (sym (inverse.points k t lo hi (omega (arith, m.t_lo)) e) ∙ m.unreferred) in
            absurd (omega (arith, zeroth));
        straight = m.straight;
      }
