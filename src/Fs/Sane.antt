-- ===== src/Fs/Sane.antt =====
-- The counters that `fatreadinfosector` takes from the information sector.
use libllfat.Prelude.{
  ◌≡◌, ◌⊎◌, refl, sym, ap, subst, ◌∙◌, arith, Bool, true, false, ◌||◌, if◌then◌else◌, some,
  Bool-cases, inl, inr,
}
use libllfat.Prelude.Int.{ℤ, pos, minus_one, ltb_ℤ}
use libllfat.Units.Host.{Host}
use libllfat.Boot.Size
use libllfat.Fs.State.{Fat, ◌>>=◌}
use libllfat.Fs.Geometry.{num_data_clusters}
use libllfat.Fs.Setters.{is_valid_cluster, get_last_allocated_cluster, get_free_clusters}
use libllfat.Fs.Session.{take_counters}
use libllfat.Fs.Saved.{with_bits_lem}

module _ {h : Host} where
  -- Whatever the information sector says, of a filesystem with known bits and a number of clusters,
  -- the last allocated cluster that is taken from it is a cluster, or 2, and the number of free
  -- clusters is -1, or neither negative nor more than there are clusters.
  pub take_counters-IsSane :
      (f : Fat h) (clusters : ℤ) (valid : Bool)
      → Size.is_valid_cluster f.boot (get_last_allocated_cluster f) (some f.bits)
        ≡ some (valid, some f.bits)
      → Size.num_data_clusters f.boot (some f.bits) ≡ some (clusters, some f.bits)
      → (f' : Fat h) × (take_counters f ≡ some (pos 0, f'))
        × ((f'.last ≡ pos 2) ⊎ (is_valid_cluster f'.last f' ≡ some (true, f')))
        × ((f'.free ≡ minus_one)
            ⊎ ((ltb_ℤ f'.free (pos 0) ≡ false) × (ltb_ℤ clusters f'.free ≡ false)))
  unfolding take_counters is_valid_cluster num_data_clusters
  take_counters-IsSane f clusters valid runs count =
      let last = get_last_allocated_cluster f in
      let free = get_free_clusters f in
      let bad = ltb_ℤ free (pos 0) || ltb_ℤ clusters free in
      let f' : Fat h = record f {
        last = if valid then last else pos 2;
        free = if bad then minus_one else free;
      } in
      (
        f',
        rw
            (
              with_bits_lem (λ boot. Size.is_valid_cluster boot last) valid f runs,
              ◌>>=◌,
              with_bits_lem Size.num_data_clusters clusters f count,
              ◌>>=◌,
            )
            refl,
        elim (Bool-cases valid) [
          | inr v ↦ inl (rw v refl)
          | inl v ↦
              let taken : f'.last ≡ last = rw v refl in
              let run : Size.is_valid_cluster f'.boot f'.last (some f'.bits)
                  ≡ some (true, some f'.bits) =
                subst
                  (λ (n : ℤ).
                    Size.is_valid_cluster f.boot n (some f.bits) ≡ some (true, some f.bits))
                  (sym taken) (runs ∙ ap (λ (b : Bool). some (b, some f.bits)) v) in
              inr (with_bits_lem (λ boot. Size.is_valid_cluster boot f'.last) true f' run)
        ],
        elim (Bool-cases bad) [
          | inl b ↦ inl (rw b refl)
          | inr b ↦ inr (ground arith, ground arith)
        ],
      )
