-- ===== src/Directory/NewEntry.antt =====
-- The entry that `fatcreatefiledir` writes.
use libllfat.Prelude.{
  ℕ, zero, suc, ◌+◌, ◌*◌, ◌<◌, ◌≤◌, ◌≡◌, ◌⊎◌, refl, sym, ap, subst, ◌∙◌, arith, true, ◌∷◌, ◌++◌,
  length, replicate, inl, inr, Bool-cases,
}
use mathlib.Core.Path.{ap₂}
use libllfat.Prelude.Int.{ℤ, pos, eqb_ℤ}
use libllfat.Bytes.{Bytes, IsBytes, get8, read_bytes}
use libllfat.Bytes.Laws.{
  length-write_bytes, get8-write_bytes-apart, read_bytes-write_bytes, get8-put32-apart, get32-put32,
  get32-Agree, length-put32,
}
use libllfat.Units.{FatUnit}
use libllfat.Boot.MinSize.{IsWidth}
use libllfat.Table.Next.{fat_unused}
use libllfat.Entry.Fields.{
  entry_byte, get_attributes, get_first_cluster, get_size, set_first_cluster, set_size, zero_entry,
}
use libllfat.Entry.Names.{get_short_name, set_short_name, string_to_short}
use libllfat.Entry.NameTrip.{Plain, joined, get_short_name-set, short_to_string_lem}
use libllfat.Entry.FieldTrip.{Holds, get_first_cluster-set}

pub read_bytes_ext :
    (d e : Bytes) (i n : ℕ)
    → ((j : ℕ) → i ≤ j → j < i + n → get8 d j ≡ get8 e j)
    → read_bytes d i n ≡ read_bytes e i n
unfolding read_bytes
read_bytes_ext d e i zero same = refl
read_bytes_ext d e i (suc n) same =
    ap₂ ◌∷◌ (same i (omega arith) (omega arith))
      (read_bytes_ext d e (i + 1) n (λ j lo hi. same j (omega arith) (omega arith)))

pub get8-read_bytes : (d : Bytes) (i n j : ℕ) → j < n → get8 (read_bytes d i n) j ≡ get8 d (i + j)
unfolding read_bytes get8
get8-read_bytes d i zero j lt = absurd (omega arith)
get8-read_bytes d i (suc n) zero lt = ap (λ (k : ℕ). get8 d k) (omega arith)
get8-read_bytes d i (suc n) (suc j) lt =
    get8-read_bytes d (i + 1) n j (omega arith) ∙ ap (λ (k : ℕ). get8 d k) (omega arith)

-- The stores keep the unit in its place.
abbrev pub SamePlace : FatUnit → FatUnit → Type 0
SamePlace u w = (u.n ≡ w.n) × (u.size ≡ w.size) × (u.loaded ≡ w.loaded)

set_short_name_lem :
    (u : FatUnit) (i : ℕ) (name : Bytes)
    → SamePlace (set_short_name u i name).0 u
      × (length (set_short_name u i name).0.data_bytes ≡ length u.data_bytes)
unfolding set_short_name
set_short_name_lem u i name = elim (Bool-cases (eqb_ℤ (string_to_short name).1 (pos 0))) [
  | inl e ↦ rw e ((refl, refl, refl), length-write_bytes u.data_bytes (i * 32) _)
  | inr e ↦ rw e ((refl, refl, refl), length-write_bytes u.data_bytes (i * 32) _)
]

set_first_cluster_lem :
    (u : FatUnit) (i : ℕ) (b n : ℤ) → SamePlace (set_first_cluster u (pos i) b n).0 u
unfolding set_first_cluster
set_first_cluster_lem u i b n = (ground arith, ground arith, ground arith)

-- The cluster `u'` is `u` but for a new entry, that of an empty file.
pub record IsNew (u : FatUnit) (i b : ℕ) (name ext : Bytes) (u' : FatUnit) : Type 0 where
  pub place : SamePlace u' u
  pub dirty : u'.dirty ≡ true
  pub short : get_short_name u' i ≡ joined name ext
  pub raw : read_bytes u'.data_bytes (i * 32) 11 ≡ name ++ ext
  pub size_zero : get_size u' i ≡ 0
  pub cluster_zero : get_first_cluster u' i (pos b) ≡ pos 0
  pub attributes_zero : get_attributes u' i ≡ 0
  pub others :
      (j : ℕ) → (j < i * 32) ⊎ (i * 32 + 32 ≤ j) → get8 u'.data_bytes j ≡ get8 u.data_bytes j

abbrev pub new_entry : FatUnit → ℕ → Bytes → ℤ → FatUnit × ℤ
new_entry u i file b =
    set_first_cluster (set_size (set_short_name (zero_entry u i) i file).0 i 0) (pos i) b fat_unused

module _ (u : FatUnit) (i b : ℕ) (name ext : Bytes) (holds : Holds u i) (plain : Plain name ext)
    (bytes : IsBytes (name ++ ext)) (w : IsWidth b) where
  zeros-IsBytes : (n : ℕ) → IsBytes (replicate n 0)
  zeros-IsBytes zero j = omega arith
  zeros-IsBytes (suc n) zero = omega arith
  zeros-IsBytes (suc n) (suc j) = zeros-IsBytes n j

  cleared : FatUnit
  cleared = zero_entry u i

  nought : (n j : ℕ) → get8 (replicate n 0) j ≡ 0
  unfolding get8
  nought zero j = refl
  nought (suc n) zero = refl
  nought (suc n) (suc j) = nought n j

  cleared-zero : (j : ℕ) → j < 32 → get8 cleared.data_bytes (i * 32 + j) ≡ 0
  unfolding cleared zero_entry get8
  cleared-zero j lt =
      sym (get8-read_bytes cleared.data_bytes (i * 32) 32 j lt)
      ∙ ap (λ (d : Bytes). get8 d j)
          (read_bytes-write_bytes u.data_bytes (i * 32) (replicate 32 0) holds.inside
            (zeros-IsBytes 32))
      ∙ nought 32 j

  cleared-Holds : Holds cleared i
  unfolding cleared zero_entry
  cleared-Holds = record {
    inside = omega (arith, length-write_bytes u.data_bytes (i * 32) (replicate 32 0), holds.inside);
    sized = holds.sized;
  }

  cleared-others :
      (j : ℕ) → (j < i * 32) ⊎ (i * 32 + 32 ≤ j) → get8 cleared.data_bytes j ≡ get8 u.data_bytes j
  unfolding cleared zero_entry
  cleared-others j far =
      get8-write_bytes-apart u.data_bytes (i * 32) (replicate 32 0) j holds.inside far

  -- The last two stores, into a unit with the name.
  finish :
      (named : FatUnit)
      → SamePlace named u
      → length named.data_bytes ≡ length cleared.data_bytes
      → read_bytes named.data_bytes (i * 32) 11 ≡ name ++ ext
      → ((j : ℕ)
          → (j < i * 32) ⊎ (i * 32 + 11 ≤ j)
          → get8 named.data_bytes j ≡ get8 cleared.data_bytes j)
      → IsNew u i b name ext (set_first_cluster (set_size named i 0) (pos i) (pos b) (pos 0)).0
  unfolding set_size get_short_name get_size get_attributes entry_byte
  finish named place long raw apart =
      let at = i * 32 in
      let sized = set_size named i 0 in
      let inside : at + 32 ≤ length named.data_bytes = omega (arith, long, cleared-Holds.inside) in
      let sized-Holds : Holds sized i = record {
        inside = omega (arith, length-put32 named.data_bytes (at + 0x1c) 0, inside);
        sized = omega (arith, place.1, holds.sized);
      } in
      let (linked, run, got, dirty, far) =
        get_first_cluster-set sized i b 0 sized-Holds w (ground (arith, w)) in
      let same : linked ≡ (set_first_cluster sized (pos i) (pos b) (pos 0)).0 =
        ap (λ p. p.0) (sym run) in
      let moved : SamePlace linked sized =
        subst (λ (x : FatUnit). SamePlace x sized) (sym same)
          (set_first_cluster_lem sized i (pos b) (pos 0)) in
      let kept_at : (j : ℕ)
          → (j < at + 20) ⊎ (at + 28 ≤ j)
          → get8 linked.data_bytes j ≡ get8 sized.data_bytes j =
        λ j o. elim o [
          | inl lt ↦ far j (omega arith) (omega arith) (λ e. (omega arith, omega arith))
          | inr le ↦ far j (omega arith) (omega arith) (λ e. (omega arith, omega arith))
        ] in
      let stored_at : (j : ℕ)
          → (j < at + 20) ⊎ (at + 32 ≤ j)
          → get8 linked.data_bytes j ≡ get8 named.data_bytes j =
        λ j o. elim o [
          | inl lt ↦
              kept_at j (inl lt)
              ∙ get8-put32-apart named.data_bytes (at + 0x1c) j 0 (omega arith) (inl (omega arith))
          | inr le ↦
              kept_at j (inr (omega arith))
              ∙ get8-put32-apart named.data_bytes (at + 0x1c) j 0 (omega arith) (inr (omega arith))
        ] in
      let raw' : read_bytes linked.data_bytes at 11 ≡ name ++ ext =
        read_bytes_ext linked.data_bytes named.data_bytes at 11
          (λ j lo hi. stored_at j (inl (omega arith)))
        ∙ raw in
      subst (IsNew u i b name ext) same record {
        place = (moved.0 ∙ place.0, moved.1 ∙ place.1, moved.2 ∙ place.2);
        dirty = dirty;
        short = rw raw' (short_to_string_lem name ext plain);
        raw = raw';
        size_zero =
            get32-Agree linked.data_bytes sized.data_bytes (at + 0x1c) (at + 28) (at + 32)
              (λ j lo hi. kept_at j (inr lo)) (omega arith) (omega arith)
            ∙ get32-put32 named.data_bytes (at + 0x1c) 0 (omega arith);
        cluster_zero = got;
        attributes_zero =
            stored_at (at + 11) (inl (omega arith))
            ∙ apart (at + 11) (inr (omega arith))
            ∙ cleared-zero 11 (omega arith);
        others = λ j o. elim o [
          | inl lt ↦ stored_at j (inl (omega arith)) ∙ apart j (inl lt) ∙ cleared-others j (inl lt)
          | inr le ↦ stored_at j (inr le) ∙ apart j (inr (omega arith)) ∙ cleared-others j (inr le)
        ];
      }

  pub new_entry-IsNew :
      ((set_short_name (zero_entry u i) i (joined name ext)).1 ≡ pos 0)
      × IsNew u i b name ext (new_entry u i (joined name ext) (pos b)).0
  unfolding cleared zero_entry
  new_entry-IsNew =
      let (named, run, raw, got, dirty, apart) =
        get_short_name-set cleared i name ext cleared-Holds plain bytes in
      let same : named ≡ (set_short_name cleared i (joined name ext)).0 = ap (λ p. p.0) (sym run) in
      let (place, long) = set_short_name_lem cleared i (joined name ext) in
      (
        ap (λ p. p.1) run,
        subst
            (λ (x : FatUnit).
              IsNew u i b name ext (set_first_cluster (set_size x i 0) (pos i) (pos b) (pos 0)).0)
            same
            (finish named (subst (λ (x : FatUnit). SamePlace x u) (sym same) place)
              (subst (λ (x : FatUnit). length x.data_bytes ≡ length cleared.data_bytes) (sym same)
                long)
              raw apart),
      )
