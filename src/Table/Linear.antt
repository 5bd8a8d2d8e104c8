-- ===== src/Table/Linear.antt =====
-- `fatclusterlongestlinear`: the longest part of a chain whose clusters follow each other on the device.
use libllfat.Prelude.{
  ℕ, zero, suc, ◌+◌, ◌-◌, ◌≤◌, ◌<◌, ◌≡◌, refl, ap, ◌∙◌, arith, true, false, ◌==◌, ltb,
  if◌then◌else◌, some, List, [], ◌∷◌, length, ◌||◌,
}
use libllfat.Prelude.Int.{ℤ, pos, eqb_ℤ, ◌+ℤ◌}
use libllfat.Units.Host.{Host}
use libllfat.Units.Io.{SimulatedError}
use libllfat.Fs.State.{Fat, ◌>>=◌}
use libllfat.Table.Place.{Layout}
use libllfat.Table.Next.{fat_unused, fat_eof}
use libllfat.Table.Succ.{Represents}
use libllfat.Table.Free.{IsChain, final, first_bounds}
use libllfat.Table.Areas.{Linear, extend, longest_from, longest_linear}

abbrev pub larger : ℕ → ℕ → ℕ
larger a b = if ltb a b then b else a

-- How many clusters follow each other from the first on, and the most that do so anywhere.
unfoldable pub run_length : ℕ → List ℕ → ℕ
run_length p [] = 1
run_length p (d ∷ cs) = if d == p + 1 then suc (run_length d cs) else 1

unfoldable pub longest_run : ℕ → List ℕ → ℕ
longest_run p [] = 1
longest_run p (d ∷ cs) = larger (run_length p (d ∷ cs)) (longest_run d cs)

-- The loop on the list of the clusters.
abbrev pub extends : ℕ → List ℕ → Linear → Linear
extends p [] s = s
extends p (d ∷ cs) s = extends d cs (extend (pos p) (pos d) s)

next_test : (p d : ℕ) → eqb_ℤ (pos d) (pos p +ℤ pos 1) ≡ (d == p + 1)
unfolding ◌+ℤ◌
next_test p d = ground arith

longest_run-positive : (p : ℕ) (cs : List ℕ) → run_length p cs ≤ longest_run p cs
unfolding run_length longest_run
longest_run-positive p [] = omega arith
longest_run-positive p (d ∷ cs) = ground arith

run_length-positive : (p : ℕ) (cs : List ℕ) → 1 ≤ run_length p cs
unfolding run_length
run_length-positive p [] = omega arith
run_length-positive p (d ∷ cs) = ground arith

extend_lem :
    (p d : ℕ) (s : Linear)
    → ((extend (pos p) (pos d) s).len ≡ (if d == p + 1 then s.len + 1 else 1))
      × ((extend (pos p) (pos d) s).max_len
          ≡ (if d == p + 1 then larger s.max_len (s.len + 1) else s.max_len))
extend_lem p d s = (ground (arith, next_test p d), ground (arith, next_test p d))

extends-longest :
    (p : ℕ) (cs : List ℕ) (s : Linear)
    → 1 ≤ s.len
    → s.len ≤ s.max_len
    → (extends p cs s).max_len
      ≡ larger s.max_len (larger (s.len - 1 + run_length p cs) (longest_run p cs))
unfolding run_length longest_run
extends-longest p [] s one le = ground arith
extends-longest p (d ∷ cs) s one le =
    let s' = extend (pos p) (pos d) s in
    let (len, max_len) = extend_lem p d s in
    let ih = extends-longest d cs s' (ground arith) (ground arith) in
    ground (arith, ih, longest_run-positive d cs, run_length-positive d cs)

-- The state at the start of the loop.
abbrev pub first_state : ℕ → Linear
first_state p = record { len = 1; index = 1; max_len = 1; max_index = 1; max_start = pos p }

module _ {h : Host} (errors : List SimulatedError) (l : Layout) (nfat last : ℕ) (v : ℕ → ℤ)
    (f : Fat h) (r : Represents errors l nfat last v f) where
  -- The chain ends at the end mark, or at an unused successor.
  abbrev pub Ends : ℕ → List ℕ → Type 0
  Ends p cs = (eqb_ℤ (v (final p cs)) fat_eof || eqb_ℤ (v (final p cs)) fat_unused) ≡ true

  round_lem :
      (fuel : ℕ) (start : ℤ) (d : ℕ) (s : Linear)
      → 2 ≤ d
      → d ≤ last
      → longest_from errors (suc fuel) start (pos d) s f
        ≡ longest_from errors fuel (pos d) (v d) (extend start (pos d) s) f
  unfolding longest_from
  round_lem fuel start d s lo hi =
      let go_on : (eqb_ℤ (pos d) fat_eof || eqb_ℤ (pos d) fat_unused) ≡ false = ground arith in
      ground (arith, r.reads d lo hi)

  loop_lem :
      (cs : List ℕ) (fuel p : ℕ) (s : Linear)
      → IsChain last v p cs
      → Ends p cs
      → length cs < fuel
      → longest_from errors fuel (pos p) (v p) s f ≡ some (extends p cs s, f)
  unfolding longest_from
  loop_lem cs zero p s is_chain ends enough = absurd (omega arith)
  loop_lem [] (suc fuel) p s is_chain ends enough = rw ends refl
  loop_lem (d ∷ cs) (suc fuel) p s (lo, hi, at, new, rest) ends enough =
      let (d_lo, d_hi) = first_bounds last v d cs rest in
      ap (λ w. longest_from errors (suc fuel) (pos p) w s f) at
      ∙ round_lem fuel (pos p) d s d_lo d_hi
      ∙ loop_lem cs fuel d (extend (pos p) (pos d) s) rest ends (omega arith)

  -- On a table whose sectors are cached, on a chain of clusters, all different, behind the last of
  -- which there is the end mark or nothing, fatclusterlongestlinear ends, changes nothing, and
  -- finds the length of the longest part whose clusters have consecutive numbers.
  pub longest_linear-longest :
      (p fuel : ℕ) (cs : List ℕ)
      → IsChain last v p cs
      → Ends p cs
      → length cs < fuel
      → (s : Linear) × (longest_linear errors fuel (pos p) f ≡ some (s, f))
        × (s.max_len ≡ longest_run p cs)
  unfolding longest_linear
  longest_linear-longest p fuel cs is_chain ends enough =
      let (lo, hi) = first_bounds last v p cs is_chain in
      (
        extends p cs (first_state p),
        rw (r.reads p lo hi, ◌>>=◌) (loop_lem cs fuel p (first_state p) is_chain ends enough),
        ground (
          arith,
          extends-longest p cs (first_state p),
          longest_run-positive p cs,
          run_length-positive p cs,
        ),
      )
