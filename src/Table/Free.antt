-- ===== src/Table/Free.antt =====
-- `fatclusterfreechain` frees the clusters of a chain, and nothing else.
use libllfat.Prelude.{
  ℕ, zero, suc, ◌+◌, ◌≤◌, ◌<◌, ◌≡◌, refl, ap, ◌∙◌, arith, Bool, true, false, ◌==◌, ltb, ◌||◌,
  if◌then◌else◌, some, List, [], ◌∷◌, length, inl,
}
use libllfat.Prelude.Int.{ℤ, pos, ltb_ℤ}
use libllfat.Units.Host.{Host}
use libllfat.Units.Io.{SimulatedError}
use libllfat.Fs.State.{Fat, ◌>>=◌}
use libllfat.Table.Place.{Layout}
use libllfat.Table.Next.{fat_unused, get_next_cluster}
use libllfat.Table.Scan.{free_chain}
use libllfat.Table.Succ.{Represents, update, SameRest, SameRest-trans, set_next_cluster-Represents}
use libllfat.Table.Frame.{Represents-ext}

abbrev pub member : ℕ → List ℕ → Bool
member m [] = false
member m (c ∷ cs) = m == c || member m cs

-- The clusters `c ∷ cs` follow each other, all different; behind the last there is none.
abbrev pub IsChain : ℕ → (ℕ → ℤ) → ℕ → List ℕ → Type 0
IsChain last v c [] = (2 ≤ c) × (c ≤ last) × (ltb_ℤ (v c) (pos 2) ≡ true)
IsChain last v c (d ∷ cs) =
    (2 ≤ c) × (c ≤ last) × (v c ≡ pos d) × (member c (d ∷ cs) ≡ false) × IsChain last v d cs

-- The last cluster of `p ∷ cs`.
abbrev pub final : ℕ → List ℕ → ℕ
final p [] = p
final p (d ∷ cs) = final d cs

pub first_bounds :
    (last : ℕ) (v : ℕ → ℤ) (c : ℕ) (cs : List ℕ) → IsChain last v c cs → (2 ≤ c) × (c ≤ last)
first_bounds last v c [] (lo, hi, _) = (lo, hi)
first_bounds last v c (d ∷ cs) (lo, hi, _, _, _) = (lo, hi)

-- The successors after the clusters are freed.
abbrev pub freed : (ℕ → ℤ) → List ℕ → ℕ → ℤ
freed v cs m = if member m cs then fat_unused else v m

IsChain-update :
    (last : ℕ) (v : ℕ → ℤ) (n : ℕ) (next : ℤ) (c : ℕ) (cs : List ℕ)
    → member n (c ∷ cs) ≡ false
    → IsChain last v c cs
    → IsChain last (update v n next) c cs
IsChain-update last v n next c [] out (lo, hi, end) = (lo, hi, ground arith)
IsChain-update last v n next c (d ∷ cs) out (lo, hi, at, new, rest) =
    (lo, hi, ground arith, new, IsChain-update last v n next d cs (ground arith) rest)

freed-update :
    (v : ℕ → ℤ) (c : ℕ) (cs : List ℕ) (m : ℕ)
    → freed (update v c fat_unused) cs m ≡ freed v (c ∷ cs) m
freed-update v c cs m = ground arith

module _ {h : Host} (errors : List SimulatedError) (l : Layout) (nfat last : ℕ) where
  -- One round of the loop.
  round :
      (fuel c : ℕ) (next : ℤ) (v : ℕ → ℤ) (f : Fat h)
      → Represents errors l nfat last v f
      → 2 ≤ c
      → c ≤ last
      → v c ≡ next
      → (f' : Fat h) × (free_chain errors (suc fuel) (pos c) f ≡ free_chain errors fuel next f')
        × Represents errors l nfat last (update v c fat_unused) f'
        × SameRest f f'
  unfolding free_chain
  round fuel c next v f r lo hi at =
      let (f', run, r', rest) =
        set_next_cluster-Represents errors l nfat last v f c fat_unused r lo hi
          (inl (0, refl, omega arith)) in
      let regular : ltb (c + 0) 2 ≡ false = ground arith in
      let got : get_next_cluster errors (pos c) f ≡ some (next, f) =
        r.reads c lo hi ∙ ap (λ w. some (w, f)) at in
      (f', rw (regular, got, ◌>>=◌, run, ◌>>=◌) refl, r', rest)

  free_chain_run :
      (cs : List ℕ) (fuel c : ℕ) (v : ℕ → ℤ) (f : Fat h)
      → Represents errors l nfat last v f
      → IsChain last v c cs
      → length cs + 1 < fuel
      → (f' : Fat h) × (free_chain errors fuel (pos c) f ≡ some (pos 0, f'))
        × Represents errors l nfat last (freed v (c ∷ cs)) f'
        × SameRest f f'
  unfolding free_chain
  free_chain_run cs zero c v f r chain enough = absurd (omega arith)
  free_chain_run [] (suc zero) c v f r chain enough = absurd (omega arith)
  free_chain_run [] (suc (suc fuel)) c v f r (lo, hi, end) enough =
      let (f', run, r', rest) = round (suc fuel) c (v c) v f r lo hi refl in
      (
        f',
        run ∙ rw (end, free_chain) refl,
        Represents-ext errors l nfat last _ f' r' (freed v (c ∷ [])) (λ m lo hi. ground arith),
        rest,
      )
  free_chain_run (d ∷ cs) (suc fuel) c v f r (lo, hi, at, new, chain) enough =
      let (f₁, run₁, r₁, rest₁) = round fuel c (pos d) v f r lo hi at in
      let (f₂, run₂, r₂, rest₂) =
        free_chain_run cs fuel d (update v c fat_unused) f₁ r₁
          (IsChain-update last v c fat_unused d cs new chain) (omega arith) in
      (
        f₂,
        run₁ ∙ run₂,
        Represents-ext errors l nfat last _ f₂ r₂ (freed v (c ∷ d ∷ cs))
            (λ m lo hi. freed-update v c (d ∷ cs) m),
        SameRest-trans f f₁ f₂ rest₁ rest₂,
      )

-- Of a chain of clusters, all different, `fatclusterfreechain` ends after as many rounds as there are
-- clusters, frees every cluster of the chain, and leaves the successors of all others, and all but the
-- cache of sectors, as they were.
pub free_chain-freed :
    {h : Host} (errors : List SimulatedError) (l : Layout) (nfat last : ℕ) (v : ℕ → ℤ) (f : Fat h)
    (c : ℕ) (cs : List ℕ) (fuel : ℕ)
    → Represents errors l nfat last v f
    → IsChain last v c cs
    → length cs + 1 < fuel
    → (f' : Fat h) × (free_chain errors fuel (pos c) f ≡ some (pos 0, f'))
      × Represents errors l nfat last (freed v (c ∷ cs)) f'
      × SameRest f f'
free_chain-freed errors l nfat last v f c cs fuel r chain enough =
    free_chain_run errors l nfat last cs fuel c v f r chain enough
