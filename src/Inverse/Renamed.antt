-- ===== src/Inverse/Renamed.antt =====
-- The inverse table as the inverse of the successors, which a renaming of two clusters keeps.
use libllfat.Prelude.{ℕ, ◌+◌, ◌≤◌, ◌≡◌, refl, ap, sym, ◌∙◌, arith, List, length, inl, inr}
use libllfat.Prelude.Int.{ℤ, pos, negsuc, pos_part}
use libllfat.Table.Chains.{IsNext}
use libllfat.Reference.Target.{Reference, entry, chain}
use libllfat.Reference.Move.{swap_ℕ}
use libllfat.Reference.Renames.{rename, renamed}
use libllfat.Inverse.Slots.{Slot, slot}

-- Of each cluster that follows another in the table, the slot has that other one as its reference, and a
-- slot has no other cluster.
pub record IsInverse (last : ℕ) (v : ℕ → ℤ) (rev : List Slot) : Type 0 where
  pub sized : length rev ≡ last + 2
  pub nexts : (c : ℕ) → 2 ≤ c → c ≤ last → IsNext last (v c)
  pub points :
      (c t : ℕ) → 2 ≤ c → c ≤ last → 1 ≤ t → v c ≡ pos t → (slot rev t).reference ≡ chain (pos c)
  pub back :
      (t p : ℕ)
      → 1 ≤ t
      → t ≤ last
      → (slot rev t).reference ≡ chain (pos p)
      → 2 ≤ p
      → (p ≤ last) × (v p ≡ pos t)

-- The exchange of two clusters in a reference.
abbrev pub rename_reference : (a b : ℕ) → Reference → Reference
rename_reference a b (entry d i) = entry (swap_ℕ a b d) i
rename_reference a b (chain w) = chain (rename a b w)

pub swap_swap : (a b n : ℕ) → swap_ℕ a b (swap_ℕ a b n) ≡ n
swap_swap a b n = ground arith

pub swap_bounds :
    (a b n lo hi : ℕ)
    → lo ≤ a
    → a ≤ hi
    → lo ≤ b
    → b ≤ hi
    → lo ≤ n
    → n ≤ hi
    → (lo ≤ swap_ℕ a b n) × (swap_ℕ a b n ≤ hi)
swap_bounds a b n lo hi h₁ h₂ h₃ h₄ h₅ h₆ = ground arith

abbrev is_chain : Reference → ℕ
is_chain (entry d i) = 0
is_chain (chain w) = 1

abbrev previous : Reference → ℤ
previous (entry d i) = negsuc 0
previous (chain w) = w

pub chain-injective : (m n : ℕ) → ◌≡◌ {A = Reference} (chain (pos m)) (chain (pos n)) → m ≡ n
chain-injective m n e = ap pos_part (ap previous e)

pub rename-pos : (a b : ℕ) (w : ℤ) (s : ℕ) → rename a b w ≡ pos s → w ≡ pos (swap_ℕ a b s)
rename-pos a b (pos n) s e =
    ap pos (sym (swap_swap a b n) ∙ ap (λ (k : ℕ). swap_ℕ a b k) (ap pos_part e))
rename-pos a b (negsuc n) s e = absurd (ground (arith, e))

rename_reference-chain :
    (a b : ℕ) (r : Reference) (p : ℕ)
    → rename_reference a b r ≡ chain (pos p)
    → r ≡ chain (pos (swap_ℕ a b p))
rename_reference-chain a b (entry d i) p e = absurd (ground (arith, ap is_chain e))
rename_reference-chain a b (chain w) p e = ap chain (rename-pos a b w p (ap previous e))

module _ (last : ℕ) (v : ℕ → ℤ) (rev rev' : List Slot) (a b : ℕ) (a_lo : 2 ≤ a) (a_hi : a ≤ last)
    (b_lo : 2 ≤ b) (b_hi : b ≤ last) (inverse : IsInverse last v rev)
    (sized : length rev' ≡ length rev)
    (slots : (s : ℕ)
      → 1 ≤ s
      → s ≤ last
      → (slot rev' s).reference ≡ rename_reference a b (slot rev (swap_ℕ a b s)).reference) where
  in_range : (m : ℕ) → 2 ≤ m → m ≤ last → (2 ≤ swap_ℕ a b m) × (swap_ℕ a b m ≤ last)
  in_range m lo hi = swap_bounds a b m 2 last a_lo a_hi b_lo b_hi lo hi

  in_slots : (m : ℕ) → 1 ≤ m → m ≤ last → (1 ≤ swap_ℕ a b m) × (swap_ℕ a b m ≤ last)
  in_slots m lo hi = swap_bounds a b m 1 last (omega arith) a_hi (omega arith) b_hi lo hi

  rename-IsNext : (w : ℤ) → IsNext last w → IsNext last (rename a b w)
  rename-IsNext w (inl (k, e, hi)) = rw e (inl (swap_ℕ a b k, refl, ground arith))
  rename-IsNext w (inr (inl e)) = rw e (inr (inl refl))
  rename-IsNext w (inr (inr e)) = rw e (inr (inr refl))

  reaches : (m s : ℕ) → 2 ≤ m → m ≤ last → 1 ≤ s → renamed a b v m ≡ pos s → s ≤ last
  reaches m s lo hi s_lo e =
      let (m_lo, m_hi) = in_range m lo hi in
      elim (rename-IsNext _ (inverse.nexts (swap_ℕ a b m) m_lo m_hi)) [
        | inl (k, at, k_hi) ↦ omega (arith, ap pos_part (sym at ∙ e))
        | inr (inl at) ↦ absurd (ground (arith, sym at ∙ e))
        | inr (inr at) ↦ absurd (ground (arith, sym at ∙ e))
      ]

  pub renamed-IsInverse : IsInverse last (renamed a b v) rev'
  renamed-IsInverse = record {
    sized = sized ∙ inverse.sized;
    nexts = λ m lo hi.
        let (m_lo, m_hi) = in_range m lo hi in
        rename-IsNext _ (inverse.nexts (swap_ℕ a b m) m_lo m_hi);
    points = λ m s lo hi s_lo e.
        let (m_lo, m_hi) = in_range m lo hi in
        let s_hi = reaches m s lo hi s_lo e in
        let (s_lo', _) = in_slots s s_lo s_hi in
        slots s s_lo s_hi
        ∙ ap (rename_reference a b)
            (inverse.points (swap_ℕ a b m) (swap_ℕ a b s) m_lo m_hi s_lo' (rename-pos a b _ s e))
        ∙ ap (λ (k : ℕ). chain (pos k)) (swap_swap a b m);
    back = λ s p s_lo s_hi e p_lo.
        let (s_lo', s_hi') = in_slots s s_lo s_hi in
        let was = rename_reference-chain a b _ p (sym (slots s s_lo s_hi) ∙ e) in
        let (hi, at) = inverse.back (swap_ℕ a b s) (swap_ℕ a b p) s_lo' s_hi' was (ground arith) in
        (ground arith, ap (rename a b) at ∙ ap pos (swap_swap a b s));
  }
