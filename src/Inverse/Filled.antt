-- ===== src/Inverse/Filled.antt =====
-- `fatinversechains` fills the table with the inverse of the successors.
use libllfat.Prelude.{
  ℕ, zero, suc, ◌+◌, ◌*◌, ◌-◌, ◌≤◌, ◌<◌, ◌≡◌, refl, ap, ◌∙◌, arith, Bool, true, false,
  if◌then◌else◌, Option, none, some, List, length, set, length-set, get_or-set,
}
use libllfat.Prelude.Int.{ℤ, pos, eqb_ℤ, i32, u32, i32-u32, pos-*ℤ, ◌+ℤ◌, ◌*ℤ◌}
use libllfat.Units.Host.{Host}
use libllfat.Units.Io.{SimulatedError}
use libllfat.Fs.State.{Fat, ◌>>=◌}
use libllfat.Table.View.{View}
use libllfat.Reference.Target.{chain}
use libllfat.Reference.Moved.{target_lem}
use libllfat.Inverse.Stores.{stored, length-stored, slot-stored, inverse_set_lem}
use libllfat.Inverse.Slots.{Slot, slot, void, inverse_empty, chains_from, inverse_chains}

-- The last cluster from `cl` on, of `n`, whose successor is `t`.
abbrev pub source : (ℕ → ℤ) → ℕ → (cl n : ℕ) → Option ℕ
source v t cl zero = none
source v t cl (suc n) = elim (source v t (cl + 1) n) [
  | some c ↦ some c
  | none ↦ if eqb_ℤ (v cl) (pos t) then some cl else none
]

-- The slot of a cluster with this source, or else a slot as it was.
abbrev pub sourced : Slot → Option ℕ → Slot
sourced s none = s
sourced s (some c) = record { reference = chain (pos c); isdir = false }

sourced_step :
    (s : Slot) (src : Option ℕ) (b : Bool) (cl : ℕ)
    → sourced (if b then sourced void (some cl) else s) src
      ≡ sourced s (elim src [ some c ↦ some c | none ↦ if b then some cl else none ])
sourced_step s none true cl = refl
sourced_step s none false cl = refl
sourced_step s (some c) b cl = refl

first_lem : (rev : List Slot) (s : Slot) (t : ℕ) → 1 ≤ t → slot (set rev 0 s) t ≡ slot rev t
first_lem rev s t lo = ground (arith, get_or-set rev 0 t s void)

module _ {h : Host} (errors : List SimulatedError) (last : ℕ) (v : ℕ → ℤ) (f : Fat h)
    (view : View errors last v f)
    (bound : (c t : ℕ) → 2 ≤ c → c ≤ last → v c ≡ pos t → t ≤ last) where
  -- The table after one round.
  after : List Slot → ℕ → List Slot
  after rev cl = stored rev (chain (pos cl)) (some false) (v cl)

  length-after : (rev : List Slot) (cl : ℕ) → length (after rev cl) ≡ length rev
  unfolding after
  length-after rev cl = length-stored rev (chain (pos cl)) (some false) (v cl)

  slot-after :
      (rev : List Slot) (cl t : ℕ)
      → 1 ≤ t
      → t < length rev
      → slot (after rev cl) t
        ≡ (if eqb_ℤ (v cl) (pos t) then sourced void (some cl) else slot rev t)
  unfolding after
  slot-after rev cl t lo hi = slot-stored rev (chain (pos cl)) (some false) (v cl) t lo hi

  round :
      (fuel cl : ℕ) (rev : List Slot)
      → 2 ≤ cl
      → cl ≤ last
      → last + 2 ≤ length rev
      → chains_from errors (suc fuel) cl rev f ≡ chains_from errors fuel (cl + 1) (after rev cl) f
  unfolding chains_from after
  round fuel cl rev lo hi wide =
      let (res, run) =
        inverse_set_lem errors f rev (chain (pos cl)) (some false) (v cl)
          (target_lem errors f cl lo ∙ view.reads f.last cl lo hi)
          (λ t e. omega (arith, bound cl t lo hi e)) in
      rw (run, ◌>>=◌) refl

  -- The slots after the loop.
  loop :
      (n cl : ℕ) (rev : List Slot)
      → 2 ≤ cl
      → cl + n ≤ last + 1
      → last + 2 ≤ length rev
      → (rev' : List Slot) × (chains_from errors n cl rev f ≡ some (rev', f))
        × ((t : ℕ) → 1 ≤ t → t ≤ last → slot rev' t ≡ sourced (slot rev t) (source v t cl n))
  unfolding chains_from
  loop zero cl rev lo hi wide = (rev, refl, λ t a b. refl)
  loop (suc n) cl rev lo hi wide =
      let (rev', run, slots) =
        loop n (cl + 1) (after rev cl) (omega arith) (omega arith)
          (omega (arith, length-after rev cl)) in
      (
        rev',
        round n cl rev lo (omega arith) wide ∙ run,
        λ t a b.
            slots t a b
            ∙ ap (λ (s : Slot). sourced s (source v t (cl + 1) n))
                (slot-after rev cl t a (omega arith))
            ∙ sourced_step (slot rev t) (source v t (cl + 1) n) (eqb_ℤ (v cl) (pos t)) cl,
      )

  size_lem :
      24 * (last + 2) < 0x8000_0000
      → i32 (u32 (pos 24 *ℤ (pos last +ℤ pos 2))) ≡ pos (24 * (last + 2))
  unfolding ◌+ℤ◌
  size_lem small =
      let sum : pos last +ℤ pos 2 ≡ pos (last + 2) = ground arith in
      ap (λ (z : ℤ). i32 (u32 (pos 24 *ℤ z))) sum
      ∙ ap (λ (z : ℤ). i32 (u32 z)) (pos-*ℤ 24 (last + 2))
      ∙ i32-u32 (pos (24 * (last + 2))) (small, omega arith)

  -- Where each successor can be read and reading it changes nothing, as where the sectors of the
  -- table are cached, and is at most the last cluster, where the size of the array is an int and
  -- the array is made: fatinversechains ends and changes nothing of the filesystem. In its table
  -- each cluster has as its reference the last of the clusters whose successor it is, and is no
  -- directory; the slots of clusters without one hold what was in the memory of the array.
  pub inverse_chains-source :
      (allocate : ℤ → Option (List Slot)) (fresh : List Slot)
      → 24 * (last + 2) < 0x8000_0000
      → allocate (pos (24 * (last + 2))) ≡ some fresh
      → length fresh ≡ last + 2
      → 1 ≤ last
      → (rev : List Slot) × (inverse_chains errors allocate f ≡ some (some rev, f))
        × ((t : ℕ)
            → 1 ≤ t
            → t ≤ last
            → slot rev t ≡ sourced (slot fresh t) (source v t 2 (last - 1)))
  unfolding inverse_chains inverse_empty
  inverse_chains-source allocate fresh small made wide some_last =
      let zeroth = record (slot fresh 0) { reference = chain (pos 0) } in
      let (rev, run, slots) =
        loop (last - 1) 2 (set fresh 0 zeroth) (omega arith) (omega arith)
          (omega (arith, length-set fresh 0 zeroth)) in
      (
        rev,
        rw (view.bound f.last, ◌>>=◌, size_lem small, made, view.bound f.last, ◌>>=◌, run) refl,
        λ t a b.
            slots t a b
            ∙ ap (λ (s : Slot). sourced s (source v t 2 (last - 1))) (first_lem fresh zeroth t a),
      )
