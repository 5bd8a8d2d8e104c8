-- ===== src/Reference/Follow.antt =====
-- `fatreferencelast` follows a chain of clusters to its end.
use libllfat.Prelude.{
  ℕ, zero, suc, ◌+◌, ◌≤◌, ◌<◌, ◌≡◌, refl, ap, ◌∙◌, arith, false, ltb, some, List, [], ◌∷◌, length,
}
use libllfat.Prelude.Int.{ℤ, pos}
use libllfat.Units.Host.{Host}
use libllfat.Units.Io.{SimulatedError}
use libllfat.Fs.State.{Fat, ◌>>=◌}
use libllfat.Table.Place.{Layout}
use libllfat.Table.Succ.{Represents}
use libllfat.Table.Free.{IsChain, final, first_bounds}
use libllfat.Reference.Target.{chain, get_target, next_reference, last_from, last_reference}
use libllfat.Reference.Moved.{target_lem}

module _ {h : Host} (errors : List SimulatedError) (l : Layout) (nfat last : ℕ) (v : ℕ → ℤ)
    (f : Fat h) (r : Represents errors l nfat last v f) where
  target_of : (p : ℕ) → 2 ≤ p → p ≤ last → get_target errors (chain (pos p)) f ≡ some (v p, f)
  target_of p lo hi = target_lem errors f p lo ∙ r.reads p lo hi

  follow_lem :
      (cs : List ℕ) (fuel p n : ℕ)
      → IsChain last v p cs
      → length cs < fuel
      → last_from errors fuel (chain (pos p)) (v p) n f
        ≡ some ((chain (pos (final p cs)), n + length cs), f)
  unfolding last_from next_reference
  follow_lem cs zero p n is_chain enough = absurd (omega arith)
  follow_lem [] (suc fuel) p n (lo, hi, end) enough =
      let e : n + 0 ≡ n = omega arith in rw (end, e) refl
  follow_lem (d ∷ cs) (suc fuel) p n (lo, hi, at, new, rest) enough =
      let (d_lo, d_hi) = first_bounds last v d cs rest in
      let regular : ltb (d + 0) 2 ≡ false = ground arith in
      let sum : n + suc (length cs) ≡ n + 1 + length cs = omega arith in
      let got : get_target errors (chain (pos p)) f ≡ some (pos d, f) =
        target_of p lo hi ∙ ap (λ w. some (w, f)) at in
      rw (at, regular, got, ◌>>=◌, target_of d d_lo d_hi, ◌>>=◌, sum)
        (follow_lem cs fuel d (n + 1) rest (omega arith))

  -- On a table whose sectors are cached, from the reference by a cluster, behind which its chain
  -- has further clusters, all different, fatreferencelast ends, changes nothing, and returns how
  -- many these are, with a reference of the last one.
  pub last_reference-length :
      (p fuel : ℕ) (cs : List ℕ)
      → IsChain last v p cs
      → length cs < fuel
      → last_reference errors fuel (chain (pos p)) f
        ≡ some ((chain (pos (final p cs)), length cs), f)
  unfolding last_reference
  last_reference-length p fuel cs is_chain enough =
      let (lo, hi) = first_bounds last v p cs is_chain in
      let sum : 0 + length cs ≡ length cs = omega arith in
      rw (target_of p lo hi, ◌>>=◌)
        (follow_lem cs fuel p 0 is_chain enough
          ∙ ap (λ (k : ℕ). some ((chain (pos (final p cs)), k), f)) sum)
