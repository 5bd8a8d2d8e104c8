-- ===== src/Directory/Grown.antt =====
-- A directory in which one entry is new: the others are as before, and the lookup finds the new one.
use libllfat.Prelude.{
  ℕ, ◌+◌, ◌*◌, ◌/◌, ◌<◌, ◌≤◌, ◌≡◌, ◌≢◌, refl, sym, ap, subst, ◌∙◌, arith, Bool, true, false, Option,
  none, some, List, [], ◌∷◌, ◌++◌, Bool-cases, inl, inr,
}
use libllfat.Prelude.Int.{ℤ, pos, ltb_ℤ}
use libllfat.Bytes.{Bytes, get8}
use libllfat.Units.{FatUnit}
use libllfat.Units.Host.{Host}
use libllfat.Units.Io.{SimulatedError}
use libllfat.Fs.State.{Fat}
use libllfat.Entry.Fields.{entry_byte, entry_exists, entry_end}
use libllfat.Entry.Names.{get_short_name, short_to_string}
use libllfat.Entry.NameTrip.{Plain, joined}
use libllfat.Table.Place.{Layout}
use libllfat.Table.Next.{get_next_cluster}
use libllfat.Table.Position.{cluster_position}
use libllfat.Table.Succ.{Represents}
use libllfat.Table.Frame.{with_clusters, Represents-frame}
use libllfat.Table.SiteFrame.{cluster_position_frame}
use libllfat.Directory.Walk.{fat_cmp, lookup_file}
use libllfat.Directory.Found.{
  Here, Follows, entries, find_in, find_all, as_found, is_named, lookup_file-first,
}
use libllfat.Directory.NewEntry.{IsNew, read_bytes_ext, get8-read_bytes}
use libllfat.Directory.Firsts.{same_string_refl, find_in-start}

-- The other clusters of a directory have numbers of clusters, and are not `c`.
abbrev pub Elsewhere : (c last : ℕ) → List FatUnit → Type 0
Elsewhere c last [] = Unit {0}
Elsewhere c last (w ∷ ws) = (c ≢ w.n) × (w.n ≤ last) × Elsewhere c last ws

first-Plain : (name ext : Bytes) → Plain name ext → get8 (name ++ ext) 0 ≢ 0
unfolding get8
first-Plain [] ext plain = absurd (omega (arith, plain.name_length))
first-Plain (x ∷ xs) ext plain = ground (arith, plain.name_plain)

module _ {h : Host} (errors : List SimulatedError) (l : Layout) (nfat last : ℕ) (v : ℕ → ℤ)
    (f : Fat h) (r : Represents errors l nfat last v f) (u : FatUnit) (here : Here errors v f u)
    (lo : 2 ≤ u.n) (hi : u.n ≤ last) (i : ℕ) (name ext : Bytes) (u' : FatUnit)
    (new : IsNew u i l.bits name ext u') where
  abbrev f' : Fat h
  f' = with_clusters f (h.put u' f.clusters) f.disk

  r' : Represents errors l nfat last v f'
  r' = Represents-frame errors l nfat last v f r (h.put u' f.clusters) f.disk

  Here-new : Here errors v f' u'
  Here-new =
      let (held, same, full, next) = here in
      let number = new.place.0 in
      (
        record {
          u = u';
          found = ground (arith, h.tfind-put u' f.clusters u'.n);
          loaded = new.place.2 ∙ ap (λ (w : FatUnit). w.loaded) (sym same) ∙ held.loaded;
          place = held.place;
          placed =
              subst (λ (n : ℕ). cluster_position (pos n) f' ≡ some (held.place, f')) (sym number)
                (cluster_position_frame l f r.uses.ready (h.put u' f.clusters) f.disk (pos u.n)
                  held.place held.placed);
        },
        refl,
        subst (λ (s : ℕ). 1 ≤ s / 32) (sym new.place.1) full,
        subst (λ (n : ℕ). get_next_cluster errors (pos n) f' ≡ some (v n, f')) (sym number)
            (r'.reads u.n lo hi),
      )

  Here-other :
      (w : FatUnit) → u.n ≢ w.n → 2 ≤ w.n → w.n ≤ last → Here errors v f w → Here errors v f' w
  Here-other w ne w_lo w_hi (held, same, full, next) = (
    record {
      u = held.u;
      found = ground (arith, h.tfind-put u' f.clusters w.n, new.place.0, held.found);
      loaded = held.loaded;
      place = held.place;
      placed =
          cluster_position_frame l f r.uses.ready (h.put u' f.clusters) f.disk (pos w.n) held.place
            held.placed;
    },
    same,
    full,
    r'.reads w.n w_lo w_hi,
  )

  Follows-other :
      (w : FatUnit) (ws : List FatUnit)
      → Elsewhere u.n last ws
      → Follows errors v f w ws
      → Follows errors v f' w ws
  Follows-other w [] far follows = follows
  Follows-other w (x ∷ xs) (ne, x_hi, far) (at, x_lo, there, follows) =
      (at, x_lo, Here-other x ne x_lo x_hi there, Follows-other x xs far follows)

  Follows-new :
      (us : List FatUnit)
      → Elsewhere u.n last us
      → Follows errors v f u us
      → Follows errors v f' u' us
  Follows-new [] far follows =
      subst (λ (n : ℕ). ltb_ℤ (v n) (pos 2) ≡ true) (sym new.place.0) follows
  Follows-new (x ∷ xs) (ne, x_hi, far) (at, x_lo, there, follows) =
      (ap v new.place.0 ∙ at, x_lo, Here-other x ne x_lo x_hi there, Follows-other x xs far follows)

  -- The entries before the new one are as they were, and the new one has its name.
  same_short : (j : ℕ) → j < i → get_short_name u' j ≡ get_short_name u j
  unfolding get_short_name
  same_short j lt = ap short_to_string (
      read_bytes_ext u'.data_bytes u.data_bytes (j * 32) 11
        (λ k a b. new.others k (inl (omega arith))))

  same_end : (j : ℕ) → j < i → entry_end (some u') j ≡ entry_end (some u) j
  unfolding entry_end entry_byte
  same_end j lt = rw (new.others (j * 32 + 0) (inl (omega arith))) refl

  new_live : Plain name ext → entry_end (some u') i ≡ false
  unfolding entry_end entry_byte
  new_live plain =
      let first : get8 u'.data_bytes (i * 32 + 0) ≡ get8 (name ++ ext) 0 =
        sym (get8-read_bytes u'.data_bytes (i * 32) 11 0 (omega arith))
        ∙ ap (λ (d : Bytes). get8 d 0) new.raw in
      ground (arith, first, first-Plain name ext plain)

  module _ (case_equal : Bytes → Bytes → Bool) (insensitive : Bool)
      (reflexive : (xs : Bytes) → case_equal xs xs ≡ true) where
    own_name : fat_cmp case_equal insensitive (get_short_name u' i) (joined name ext) ≡ true
    unfolding fat_cmp
    own_name = rw new.short (elim (Bool-cases insensitive) [
      | inl e ↦ rw e (reflexive (joined name ext))
      | inr e ↦ rw e (same_string_refl (joined name ext))
    ])

    -- The search through the directory with the new entry.
    pub finds_new :
        (scan_entry : Bytes → Option (ℕ × ℕ)) (fuel : ℕ) (us : List FatUnit)
        → Plain name ext
        → Elsewhere u.n last us
        → Follows errors v f u us
        → scan_entry (joined name ext) ≡ none
        → i < u.size / 32
        → entries (u ∷ us) < fuel
        → ((j : ℕ)
            → j < i
            → (entry_exists u j ≡ true)
              × (is_named errors v f case_equal insensitive (joined name ext) u j ≡ false))
        → lookup_file errors case_equal insensitive scan_entry fuel u.n (joined name ext) f'
          ≡ some (some (some u.n, i), f')
    unfolding entry_exists entry_end
    finds_new scan_entry fuel us plain far follows unscanned inside enough before =
        let name' = joined name ext in
        let enough' : entries (u' ∷ us) < fuel =
          subst (λ (s : ℕ). s / 32 + entries us < fuel) (sym new.place.1) enough in
        let run =
          lookup_file-first errors v f' case_equal insensitive name' scan_entry fuel u' us unscanned
            Here-new (Follows-new us far follows) enough' in
        let p = is_named errors v f' case_equal insensitive name' in
        let first : find_in p u' (u'.size / 32) 0 (find_all p us) ≡ some (u'.n, i) =
          find_in-start p u' (find_all p us) (u'.size / 32) i
            (λ j lt.
              let (used, unnamed) = before j lt in
              (
                same_end j lt ∙ ground (arith, used),
                ap (λ (x : Bytes). fat_cmp case_equal insensitive x name') (same_short j lt)
                    ∙ unnamed,
              ))
            (new_live plain) own_name (subst (λ (s : ℕ). i < s / 32) (sym new.place.1) inside) in
        subst
          (λ (n : ℕ).
            lookup_file errors case_equal insensitive scan_entry fuel n name' f'
            ≡ some (some (some n, i), f'))
          new.place.0 (run ∙ ap (λ x. some (as_found x, f')) first)
