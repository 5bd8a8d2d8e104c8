-- ===== src/Table/Write.antt =====
-- `fatsetfat` on a table whose sectors are cached: which bytes of the table it changes.
use native.Mathlib.Nat.{mod-lt, div-add-mod}
use libllfat.Prelude.{
  ℕ, ◌+◌, ◌*◌, ◌/◌, ◌%◌, ◌<◌, ◌≤◌, ◌≡◌, ◌⊎◌, refl, sym, ap, ◌∙◌, arith, ◌==◌, some, List, [], ◌∷◌,
  inl, inr, length, Bool-cases,
}
use libllfat.Prelude.Int.{pos}
use libllfat.Bytes.{get8}
use libllfat.Bytes.Laws.{get8-put16, get8-put32}
use libllfat.Units.{FatUnit, store16, store32, mark_dirty}
use libllfat.Units.Host.{Host}
use libllfat.Units.Io.{SimulatedError}
use libllfat.Fs.State.{Fat, ◌>>=◌}
use libllfat.Table.Raw.{write_entry, set_fat_entry, change_sector, insert12_low, insert12_high}
use libllfat.Table.Sectors.{
  sector_bytes, IsCached, IsCached-bytes, Change, Change-trans, IsStore, change_sector_lem,
}
use libllfat.Table.Flat.{flat, store_flat}
use libllfat.Table.Place.{
  Layout, base, place_of, Fits, Fits-bytes, IsReady, Change-IsReady, table-IsCached,
  cluster_pos_lem, cluster_pos_next_lem,
}
use libllfat.Table.Read.{guarded_lem, mod-four, offset-aligned, flat-IsCached}
use libllfat.Table.Replace.{
  store16-IsStore, store32-IsStore, mark_dirty-IsStore, replaced, stored_bytes, replaced-sector,
  replaced-outside, outside, number, bytes_after, Stores,
}

-- One store inside a sector.
module _ {h : Host} (base bps p : ℕ) (pos_bps : 0 < bps) {f : Fat h}
    (c : IsCached bps f (base + p / bps)) (g : FatUnit → FatUnit) (st : IsStore g) (vs : List ℕ)
    (same : (j : ℕ) → get8 (g c.u).data_bytes j ≡ replaced (get8 c.u.data_bytes) (p % bps) vs j)
    (fits : p % bps + length vs ≤ bps) where
  store_group : Stores base bps f (change_sector c.u.n g) (replaced (flat base bps f) p vs)
  unfolding flat
  store_group =
      let (f', run, change, finds) = change_sector_lem g st c in
      record {
        after = f';
        run = rw (number c) run;
        change = change;
        reads = λ j. elim (Bool-cases (base + p / bps == base + j / bps)) [
          | inl e ↦
              let quotient : p / bps ≡ j / bps = ground arith in
              let start = j / bps * bps in
              let here : start + p % bps ≡ p =
                omega (arith, div-add-mod p bps, ap (λ (t : ℕ). t * bps) quotient) in
              let there : j ≡ start + j % bps = omega (arith, div-add-mod j bps) in
              rw (bytes_after f f' (base + p / bps) (g c.u) finds (base + j / bps), e)
                (same (j % bps)
                  ∙ replaced-sector (get8 c.u.data_bytes) (flat base bps f) vs start (p % bps) j
                      (j % bps) there
                      (rw (← quotient) (ap (λ d. get8 d (j % bps)) (sym (IsCached-bytes c))))
                  ∙ ap (λ (t : ℕ). replaced (flat base bps f) t vs j) here)
          | inr ne ↦
              rw (bytes_after f f' (base + p / bps) (g c.u) finds (base + j / bps), ne)
                (sym (
                  replaced-outside (flat base bps f) vs p j
                    (outside p j bps (length vs) pos_bps (ground arith) fits)))
        ];
      }

module _ {h : Host} (l : Layout) {f : Fat h} (r : IsReady l f) (nfat : ℕ) (lt : nfat < l.count)
    (errors : List SimulatedError) (n next p : ℕ) (c : IsCached l.bps f (base l nfat + p / l.bps))
    (c' : IsCached l.bps f (base l nfat + (p + 1) / l.bps)) where
  abbrev before : ℕ → ℕ
  before = flat (base l nfat) l.bps f

  -- The two stores of a 12-bit entry, in one sector or in two.
  write12 :
      Stores
        (base l nfat)
        l.bps
        f
        (write_entry errors (pos 12) n next c.u (p % l.bps))
        (replaced before p (stored_bytes 12 before p n next))
  unfolding write_entry stored_bytes replaced
  write12 =
      let low = insert12_low n next (before p) in
      let high = insert12_high n next (before (p + 1)) in
      let (f₁, run₁, change₁, reads₁) = store_flat (base l nfat) l.bps f p low l.pos_bps c in
      let (f₂, run₂, change₂, reads₂) =
        store_flat (base l nfat) l.bps f₁ (p + 1) high l.pos_bps (change₁.keeps _ c') in
      record {
        after = f₂;
        run =
            rw
              (
                cluster_pos_next_lem l errors r nfat p c c',
                ◌>>=◌,
                flat-IsCached l r nfat lt p c,
                number c,
                run₁,
                flat-IsCached l r nfat lt (p + 1) c',
                number c',
                run₂,
              )
              refl;
        change = Change-trans change₁ change₂;
        reads = λ j. ground (arith, reads₂ j, reads₁ j);
      }

  write16 :
      p % 4 + 1 < 4
      → Stores
          (base l nfat)
          l.bps
          f
          (write_entry errors (pos 16) n next c.u (p % l.bps))
          (replaced before p (stored_bytes 16 before p n next))
  unfolding write_entry stored_bytes
  write16 group =
      let fits : p % l.bps + 2 ≤ l.bps =
        omega (arith, mod-four p l.bps l.aligned, l.aligned, mod-lt p l.pos_bps) in
      store_group (base l nfat) l.bps p l.pos_bps c (λ u. store16 u (p % l.bps) next)
        (store16-IsStore (p % l.bps) next) (next ∷ next / 256 ∷ [])
        (λ j.
          unfold replaced in ground (arith, get8-put16 c.u.data_bytes (p % l.bps) j next, c.whole))
        fits

  write32 :
      p % 4 ≡ 0
      → Stores
          (base l nfat)
          l.bps
          f
          (write_entry errors (pos 32) n next c.u (p % l.bps))
          (replaced before p (stored_bytes 32 before p n next))
  unfolding write_entry stored_bytes
  write32 group =
      let fits : p % l.bps + 4 ≤ l.bps =
        omega (arith, mod-four p l.bps l.aligned, l.aligned, mod-lt p l.pos_bps) in
      store_group (base l nfat) l.bps p l.pos_bps c (λ u. store32 u (p % l.bps) next)
        (store32-IsStore (p % l.bps) next) (next ∷ next / 256 ∷ next / 65536 ∷ next / 16777216 ∷ [])
        (λ j.
          unfold replaced in ground (arith, get8-put32 c.u.data_bytes (p % l.bps) j next, c.whole))
        fits

  write_entry_lem :
      (b : ℕ)
      → (b ≡ 12) ⊎ (b ≡ 16) × (p % 4 + 1 < 4) ⊎ (b ≡ 32) × (p % 4 ≡ 0)
      → Stores
          (base l nfat)
          l.bps
          f
          (write_entry errors (pos b) n next c.u (p % l.bps))
          (replaced before p (stored_bytes b before p n next))
  write_entry_lem b (inl e) = rw e write12
  write_entry_lem b (inr (inl (e, group))) = rw e (write16 group)
  write_entry_lem b (inr (inr (e, group))) = rw e (write32 group)

-- Marking a sector dirty leaves the table as it is.
mark_lem :
    {h : Host} (bs bps k : ℕ) {f : Fat h}
    → IsCached bps f k
    → Stores bs bps f (change_sector k mark_dirty) (flat bs bps f)
unfolding flat
mark_lem bs bps k {f} c =
    let (f', run, change, finds) = change_sector_lem mark_dirty mark_dirty-IsStore c in
    record {
      after = f';
      run = run;
      change = change;
      reads = λ j.
          let e = bytes_after f f' k (mark_dirty c.u) finds (bs + j / bps) in
          elim (Bool-cases (k == bs + j / bps)) [
            | inl same ↦
                let here : k ≡ bs + j / bps = ground arith in
                rw (e, same)
                  (ap (λ d. get8 d (j % bps)) (sym (IsCached-bytes c) ∙ ap (sector_bytes f) here))
            | inr ne ↦ rw (e, ne) refl
          ];
    }

module _ {h : Host} (l : Layout) {f : Fat h} (r : IsReady l f) (nfat : ℕ)
    (lt : nfat < l.count) where
  -- `fatsetfat` replaces the bytes of the entry by those of the value, and no other byte of the table.
  pub set_fat_entry_lem :
      (errors : List SimulatedError) (n next : ℕ)
      → Fits l n
      → (f' : Fat h) × (set_fat_entry errors (pos nfat) n next f ≡ some (pos 0, f'))
        × IsReady l f'
        × Change l.bps f f'
        × ((j : ℕ)
            → flat (base l nfat) l.bps f' j
              ≡ replaced
                  (flat (base l nfat) l.bps f)
                  (place_of l n)
                  (stored_bytes l.bits (flat (base l nfat) l.bps f) (place_of l n) n next)
                  j)
  unfolding set_fat_entry
  set_fat_entry_lem errors n next fits =
      let p = place_of l n in
      let c = table-IsCached l r nfat p lt (Fits-bytes l n fits).0 in
      let c' = table-IsCached l r nfat (p + 1) lt (Fits-bytes l n fits).1 in
      let w =
        write_entry_lem l r nfat lt errors n next p c c' l.bits (offset-aligned l.bits n l.width) in
      let d = w.change.keeps (base l nfat + p / l.bps) c in
      let m = mark_lem (base l nfat) l.bps (base l nfat + p / l.bps) d in
      (
        m.after,
        rw
            (
              guarded_lem l r nfat lt,
              cluster_pos_lem l errors r nfat n c (Fits-bytes l n fits).0,
              ◌>>=◌,
              w.run,
              number c,
              m.run,
            )
            refl,
        Change-IsReady l m.change (Change-IsReady l w.change r),
        Change-trans w.change m.change,
        λ j. m.reads j ∙ w.reads j,
      )
