-- ===== src/Inverse/Wanted.antt =====
-- What the slots of the inverse table shall be when two clusters are swapped, and which stores make them so.
use libllfat.Prelude.{
  ℕ, ◌≤◌, ◌<◌, ◌≡◌, ◌≢◌, ◌⊎◌, refl, ap, sym, ◌∙◌, arith, Bool, false, ◌==◌, Option, none, some,
  List, length, Bool-cases, inl, inr,
}
use libllfat.Prelude.Int.{ℤ, pos, eqb_ℤ}
use libllfat.Reference.Target.{Reference, chain}
use libllfat.Reference.Move.{swap_ℕ}
use libllfat.Reference.Renames.{rename, renamed}
use libllfat.Reference.Swapped.{IsSwappable}
use libllfat.Inverse.Slots.{Slot, slot, fill}
use libllfat.Inverse.Moves.{follow_all}
use libllfat.Inverse.Stores.{stored, slot-stored}
use libllfat.Inverse.Renamed.{
  IsInverse, rename_reference, chain-injective, swap_swap, swap_bounds, rename-pos,
}
use libllfat.Inverse.Kept.{eqb_ℤ-true, follow-rename, slot-follow_all}

-- The clusters `a` and `b` have the clusters `p` and `q` as their references.
pub record IsSwapped (last : ℕ) (rev : List Slot) (p q a b : ℕ) : Type 0 where
  pub p_lo : 2 ≤ p
  pub q_lo : 2 ≤ q
  pub a_lo : 2 ≤ a
  pub a_hi : a ≤ last
  pub b_lo : 2 ≤ b
  pub b_hi : b ≤ last
  pub at : (slot rev a).reference ≡ chain (pos p)
  pub at' : (slot rev b).reference ≡ chain (pos q)
  pub straight : p ≢ a
  pub straight' : q ≢ b
  pub differ : a ≢ b

module _ (last : ℕ) (v : ℕ → ℤ) (rev : List Slot) (p q a b : ℕ) (inverse : IsInverse last v rev)
    (s : IsSwapped last rev p q a b) where
  pub swappable : IsSwappable last v p q a b
  swappable =
      let (p_hi, at) = inverse.back a p (omega (arith, s.a_lo)) s.a_hi s.at s.p_lo in
      let (q_hi, at') = inverse.back b q (omega (arith, s.b_lo)) s.b_hi s.at' s.q_lo in
      record {
        p_lo = s.p_lo;
        p_hi = p_hi;
        q_lo = s.q_lo;
        q_hi = q_hi;
        a_lo = s.a_lo;
        a_hi = s.a_hi;
        b_lo = s.b_lo;
        b_hi = s.b_hi;
        at = at;
        at' = at';
        next_is = inverse.nexts a s.a_lo s.a_hi;
        next_is' = inverse.nexts b s.b_lo s.b_hi;
        alone = λ k lo hi ne e.
            ne (
              chain-injective k p
                (sym (inverse.points k a lo hi (omega (arith, s.a_lo)) e) ∙ s.at));
        alone' = λ k lo hi ne e. ne (
            chain-injective k q (sym (inverse.points k b lo hi (omega (arith, s.b_lo)) e) ∙ s.at'));
        straight = s.straight;
        straight' = s.straight';
        differ = s.differ;
      }

  -- What the slot of a cluster shall be, and that it is.
  abbrev pub wanted : ℕ → Reference
  wanted n = rename_reference a b (slot rev (swap_ℕ a b n)).reference

  abbrev pub Right : List Slot → ℕ → Type 0
  Right rev' n = (slot rev' n).reference ≡ wanted n

  -- A cluster of the new table is stored where it shall be.
  target-Right :
      (m n : ℕ) → 2 ≤ m → m ≤ last → 1 ≤ n → renamed a b v m ≡ pos n → chain (pos m) ≡ wanted n
  target-Right m n lo hi n_lo e =
      let (m_lo, m_hi) = swap_bounds a b m 2 last s.a_lo s.a_hi s.b_lo s.b_hi lo hi in
      let n_lo' : 1 ≤ swap_ℕ a b n = ground (arith, s.a_lo, s.b_lo) in
      sym (
        ap (rename_reference a b)
          (inverse.points (swap_ℕ a b m) (swap_ℕ a b n) m_lo m_hi n_lo' (rename-pos a b _ n e))
        ∙ ap (λ (k : ℕ). chain (pos k)) (swap_swap a b m))

  pub stored-Right :
      (rev' : List Slot) (m n : ℕ) (isdir : Option Bool)
      → last < length rev'
      → 2 ≤ m
      → m ≤ last
      → 1 ≤ n
      → n ≤ last
      → Right rev' n ⊎ (renamed a b v m ≡ pos n)
      → Right (stored rev' (chain (pos m)) isdir (renamed a b v m)) n
  stored-Right rev' m n isdir wide lo hi n_lo n_hi why =
      elim (Bool-cases (eqb_ℤ (renamed a b v m) (pos n))) [
        | inl e ↦
            rw (slot-stored rev' (chain (pos m)) isdir (renamed a b v m) n n_lo (omega arith), e)
              (filled isdir ∙ target-Right m n lo hi n_lo (eqb_ℤ-true _ n e))
        | inr e ↦
            rw (slot-stored rev' (chain (pos m)) isdir (renamed a b v m) n n_lo (omega arith), e)
              (elim why [
                | inl right ↦ right
                | inr at ↦ absurd (ground (arith, sym (ap (λ w. eqb_ℤ w (pos n)) at) ∙ e))
              ])
      ]
    where
      filled : (isdir : Option Bool) → (fill rev' n (chain (pos m)) isdir).reference ≡ chain (pos m)
      filled none = refl
      filled (some d) = refl

  -- After a store, what was right is so still.
  pub step :
      {Rest : Type 0} (rev' : List Slot) (m n : ℕ) (isdir : Option Bool)
      → last < length rev'
      → 2 ≤ m
      → m ≤ last
      → 1 ≤ n
      → n ≤ last
      → Right rev' n ⊎ (renamed a b v m ≡ pos n) ⊎ Rest
      → Right (stored rev' (chain (pos m)) isdir (renamed a b v m)) n ⊎ Rest
  step rev' m n isdir wide lo hi n_lo n_hi (inl right) =
      inl (stored-Right rev' m n isdir wide lo hi n_lo n_hi (inl right))
  step rev' m n isdir wide lo hi n_lo n_hi (inr (inl at)) =
      inl (stored-Right rev' m n isdir wide lo hi n_lo n_hi (inr at))
  step rev' m n isdir wide lo hi n_lo n_hi (inr (inr rest)) = inr rest

  renamed-swap_ℕ : (k : ℕ) (w : ℤ) → v k ≡ w → renamed a b v (swap_ℕ a b k) ≡ rename a b w
  renamed-swap_ℕ k w e = ap (λ (j : ℕ). rename a b (v j)) (swap_swap a b k) ∙ ap (rename a b) e

  abbrev Hit : ℕ → ℕ → Type 0
  Hit n m = renamed a b v m ≡ pos n

  hit : (k m n w : ℕ) → v k ≡ pos w → swap_ℕ a b k ≡ m → swap_ℕ a b w ≡ n → Hit n m
  hit k m n w e at to = ap (renamed a b v) (sym at) ∙ renamed-swap_ℕ k (pos w) e ∙ ap pos to

  -- Before the stores a slot is right, or one of them will make it so.
  pub covered :
      (n : ℕ)
      → 1 ≤ n
      → n ≤ last
      → Right (follow_all a b rev) n ⊎ Hit n p ⊎ Hit n a ⊎ Hit n q ⊎ Hit n b
  covered n lo hi = elim (Bool-cases (n == a)) [
    | inl is_a ↦ elim (Bool-cases (q == a)) [
      | inl e ↦ inr (inr (inr (inr (hit q b n b swappable.at' (ground arith) (ground arith)))))
      | inr e ↦
          inr (
            inr
              (inr (inl (hit q q n b swappable.at' (ground (arith, s.straight')) (ground arith)))))
    ]
    | inr not_a ↦ elim (Bool-cases (n == b)) [
      | inl is_b ↦ elim (Bool-cases (p == b)) [
        | inl e ↦
            inr (inr (inl (hit p a n a swappable.at (ground (arith, s.straight)) (ground arith))))
        | inr e ↦ inr (inl (hit p p n a swappable.at (ground (arith, s.straight)) (ground arith)))
      ]
      | inr not_b ↦
          let same : swap_ℕ a b n ≡ n = ground (arith, not_a, not_b) in
          elim (Bool-cases (eqb_ℤ (v a) (pos n))) [
            | inl e ↦ inr (inr (inr (inr (hit a b n n (eqb_ℤ-true (v a) n e) (ground arith) same))))
            | inr not_next ↦ elim (Bool-cases (eqb_ℤ (v b) (pos n))) [
              | inl e ↦
                  inr
                    (inr (inl (hit b a n n (eqb_ℤ-true (v b) n e) (ground (arith, s.differ)) same)))
              | inr not_next' ↦ inl (
                  ap (λ (x : Slot). x.reference) (slot-follow_all a b rev n)
                  ∙ follow-rename a b (slot rev n).reference (λ k r. (
                    (λ is_a. contra a not_next (
                        ap v (sym is_a)
                        ∙ (inverse.back n k lo hi r (omega (arith, is_a, s.a_lo))).1)),
                    (λ is_b. contra b not_next' (
                        ap v (sym is_b)
                        ∙ (inverse.back n k lo hi r (omega (arith, is_b, s.b_lo))).1)),
                  ))
                  ∙ ap (λ (k : ℕ). rename_reference a b (slot rev k).reference) (sym same))
            ]
          ]
    ]
  ]
    where
      contra : (k : ℕ) → eqb_ℤ (v k) (pos n) ≡ false → v k ≡ pos n → ⊥
      contra k other at = ground (arith, sym (ap (λ w. eqb_ℤ w (pos n)) at) ∙ other)
