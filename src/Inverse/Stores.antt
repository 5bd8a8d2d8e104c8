-- ===== src/Inverse/Stores.antt =====
-- What a store of a reference at its target does.
use libllfat.Prelude.{
  ℕ, zero, suc, ◌+◌, ◌≤◌, ◌<◌, ◌≡◌, refl, arith, Bool, true, false, ltb, if◌then◌else◌, Option,
  some, List, length, set, length-set, get_or-set,
}
use libllfat.Prelude.Int.{ℤ, pos, negsuc, pos_part, eqb_ℤ, ltb_ℤ}
use libllfat.Units.Host.{Host}
use libllfat.Units.Io.{SimulatedError}
use libllfat.Boot.Root.{fat_err}
use libllfat.Fs.State.{Fat, ◌>>=◌}
use libllfat.Reference.Target.{Reference, get_target}
use libllfat.Inverse.Slots.{Slot, slot, void, fill, inverse_set}

-- The table after a store of a reference at its target `w`, which may be none.
abbrev pub stored : List Slot → Reference → Option Bool → ℤ → List Slot
stored rev r isdir w =
    if ltb_ℤ w (pos 1) then rev else set rev (pos_part w) (fill rev (pos_part w) r isdir)

pub length-stored :
    (rev : List Slot) (r : Reference) (isdir : Option Bool) (w : ℤ)
    → length (stored rev r isdir w) ≡ length rev
length-stored rev r isdir w =
    ground (arith, length-set rev (pos_part w) (fill rev (pos_part w) r isdir))

pub slot-stored :
    (rev : List Slot) (r : Reference) (isdir : Option Bool) (w : ℤ) (s : ℕ)
    → 1 ≤ s
    → s < length rev
    → slot (stored rev r isdir w) s ≡ (if eqb_ℤ w (pos s) then fill rev s r isdir else slot rev s)
slot-stored rev r isdir (negsuc n) s lo hi =
    let less : ltb_ℤ (negsuc n) (pos 1) ≡ true = ground arith in rw less refl
slot-stored rev r isdir (pos n) s lo hi =
    ground (arith, get_or-set rev n s (fill rev n r isdir) void)

module _ {h : Host} (errors : List SimulatedError) (f : Fat h) (rev : List Slot) (r : Reference)
    (isdir : Option Bool) where
  inverse_set-target :
      (t : ℕ)
      → get_target errors r f ≡ some (pos t, f)
      → 1 ≤ t
      → t < length rev
      → inverse_set errors rev r isdir f ≡ some ((set rev t (fill rev t r isdir), pos t), f)
  unfolding inverse_set
  inverse_set-target t got lo hi =
      let cluster : ltb (t + 0) 1 ≡ false = ground arith in
      let inside : ltb t (length rev) ≡ true = ground arith in rw (got, ◌>>=◌, cluster, inside) refl

  inverse_set-none :
      (w : ℤ)
      → get_target errors r f ≡ some (w, f)
      → ltb_ℤ w (pos 1) ≡ true
      → inverse_set errors rev r isdir f ≡ some ((rev, fat_err), f)
  unfolding inverse_set
  inverse_set-none w got none = rw (got, ◌>>=◌, none) refl

  pub inverse_set_lem :
      (w : ℤ)
      → get_target errors r f ≡ some (w, f)
      → ((t : ℕ) → w ≡ pos t → t < length rev)
      → (res : ℤ) × (inverse_set errors rev r isdir f ≡ some ((stored rev r isdir w, res), f))
  inverse_set_lem (negsuc n) got inside =
      let less : ltb_ℤ (negsuc n) (pos 1) ≡ true = ground arith in
      (fat_err, rw less (inverse_set-none (negsuc n) got less))
  inverse_set_lem (pos zero) got inside = (fat_err, inverse_set-none (pos zero) got refl)
  inverse_set_lem (pos (suc n)) got inside =
      let more : ltb (suc n + 0) 1 ≡ false = ground arith in
      (pos (suc n), rw more (inverse_set-target (suc n) got (omega arith) (inside (suc n) refl)))
