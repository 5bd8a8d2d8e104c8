-- ===== src/Boot/InfoTrip.antt =====
-- Round trips of the information sector.
use libllfat.Prelude.{
  ℕ, ◌+◌, ◌%◌, ◌<◌, ◌≤◌, ◌≡◌, ◌⊎◌, inl, inr, refl, arith, Bool, true, false, if◌then◌else◌, some,
  Bool-cases, sym, ap, ◌∙◌,
}
use libllfat.Prelude.Int.{ℤ, pos, negsuc, u32, i32, eqb_ℤ, IsInt32, i32-u32}
use libllfat.Bytes.{get32, put32}
use libllfat.Bytes.Laws.{get32-put32, get8-put32-apart, get32-Agree}
use libllfat.Units.{FatUnit, mark_dirty, store32}
use libllfat.Boot.Info.{
  get_last_allocated_cluster, set_last_allocated_cluster, get_free_clusters, set_free_clusters,
}
use libllfat.Boot.RoundTrip.{IsSector}

abbrev pub Apart : ℕ → ℕ → Type 0
Apart i j = (i + 4 ≤ j) ⊎ (j + 4 ≤ i)

get32-put32-Apart :
    (u : FatUnit) (i j v : ℕ)
    → IsSector u
    → i + 3 < 512
    → Apart i j
    → get32 (put32 u.data_bytes i v) j ≡ get32 u.data_bytes j
get32-put32-Apart u i j v s h (inl p) =
    get32-Agree _ u.data_bytes j (i + 4) (j + 4)
      (λ k lo hi. get8-put32-apart u.data_bytes i k v (omega (arith, s.wide)) (inr lo)) p
      (omega arith)
get32-put32-Apart u i j v s h (inr p) =
    get32-Agree _ u.data_bytes j 0 i
      (λ k lo hi. get8-put32-apart u.data_bytes i k v (omega (arith, s.wide)) (inl hi))
      (omega arith) (omega arith)

eqb_ℤ-eq : (a b : ℤ) → eqb_ℤ a b ≡ true → a ≡ b
eqb_ℤ-eq a b h = ground arith

u32-lt : (z : ℤ) → u32 z % 0x1_0000_0000 ≡ u32 z
u32-lt (pos n) = omega arith
u32-lt (negsuc n) = omega arith

-- What both setters do, at the offset `i` of their counter; `j` is that of the other one.
module _ (info : FatUnit) (i j : ℕ) (z : ℤ) (s : IsSector info) (h : IsInt32 z) (hi : i + 3 < 512)
    (apart : Apart i j) where
  abbrev updated : FatUnit
  updated =
      if eqb_ℤ z (i32 (get32 info.data_bytes i)) then info else mark_dirty (store32 info i (u32 z))

  updated_lem :
      (i32 (get32 updated.data_bytes i) ≡ z)
      × (get32 updated.data_bytes j ≡ get32 info.data_bytes j)
      × (updated.dirty ≡ (if eqb_ℤ z (i32 (get32 info.data_bytes i)) then info.dirty else true))
  updated_lem = elim (Bool-cases (eqb_ℤ z (i32 (get32 info.data_bytes i)))) [
    | inl same ↦ rw same (sym (eqb_ℤ-eq z _ same), refl, refl)
    | inr new ↦ rw new (
      ap i32 (get32-put32 info.data_bytes i (u32 z) (omega (arith, s.wide)) ∙ u32-lt z)
          ∙ i32-u32 z h,
      get32-put32-Apart info i j (u32 z) s hi apart,
      refl,
    )
  ]

if_some :
    {A : Type 0} (b : Bool) (x y : A) → (if b then some x else some y) ≡ some (if b then x else y)
if_some true x y = refl
if_some false x y = refl

-- `fatinfosetlastallocatedcluster` sets what its getter returns and leaves the number of free
-- clusters; the unit becomes dirty only by a value that is new.
pub get_last_allocated_cluster-set :
    (info : FatUnit) (z : ℤ)
    → IsSector info
    → IsInt32 z
    → (info' : FatUnit) × (set_last_allocated_cluster (some info) z ≡ some info')
      × (get_last_allocated_cluster (some info') ≡ z)
      × (get_free_clusters (some info') ≡ get_free_clusters (some info))
      × (info'.dirty
          ≡ (if eqb_ℤ z (get_last_allocated_cluster (some info)) then info.dirty else true))
unfolding set_last_allocated_cluster get_last_allocated_cluster get_free_clusters
get_last_allocated_cluster-set info z s h =
    let (same, other, mark) =
      updated_lem info 0x1ec 0x1e8 z s h (omega arith) (inr (omega arith)) in
    (
      updated info 0x1ec 0x1e8 z s h (omega arith) (inr (omega arith)),
      if_some _ _ _,
      same,
      ap i32 other,
      mark,
    )

-- `fatinfosetfreeclusters` sets what its getter returns and leaves the last allocated cluster; the
-- unit becomes dirty only by a value that is new.
pub get_free_clusters-set :
    (info : FatUnit) (z : ℤ)
    → IsSector info
    → IsInt32 z
    → (info' : FatUnit) × (set_free_clusters (some info) z ≡ some info')
      × (get_free_clusters (some info') ≡ z)
      × (get_last_allocated_cluster (some info') ≡ get_last_allocated_cluster (some info))
      × (info'.dirty ≡ (if eqb_ℤ z (get_free_clusters (some info)) then info.dirty else true))
unfolding set_free_clusters get_last_allocated_cluster get_free_clusters
get_free_clusters-set info z s h =
    let (same, other, mark) =
      updated_lem info 0x1e8 0x1ec z s h (omega arith) (inl (omega arith)) in
    (
      updated info 0x1e8 0x1ec z s h (omega arith) (inl (omega arith)),
      if_some _ _ _,
      same,
      ap i32 other,
      mark,
    )
