-- ===== src/Boot/Counters.antt =====
-- lib/boot.c: what the two setters of the information sector leave as it was.
use libllfat.Prelude.{
  ℕ, ◌+◌, ◌≤◌, ◌≡◌, refl, sym, ap, ◌∙◌, arith, false, some, length, Bool-cases, inl, inr, subst,
}
use libllfat.Prelude.Int.{ℤ, u32, i32, eqb_ℤ}
use libllfat.Bytes.{IsBytes, get32, put32}
use libllfat.Bytes.Laws.{
  Agree, get8-put32-apart, get16-Agree, get32-Agree, length-put32, put32-IsBytes,
}
use libllfat.Units.{FatUnit, mark_dirty, store32}
use libllfat.Boot.Info.{get_info_signatures, set_last_allocated_cluster, set_free_clusters}

-- `info'` is `info`, or is dirty and has its place, its size and its signatures.
pub record IsUpdate (info info' : FatUnit) : Type 0 where
  pub fd_same : info'.fd ≡ info.fd
  pub n_same : info'.n ≡ info.n
  pub size_same : info'.size ≡ info.size
  pub origin_same : info'.origin ≡ info.origin
  pub long : length info'.data_bytes ≡ length info.data_bytes
  pub bytes : IsBytes info.data_bytes → IsBytes info'.data_bytes
  pub signatures : get_info_signatures (some info') ≡ get_info_signatures (some info)
  pub calm : info'.dirty ≡ false → info' ≡ info

IsUpdate-same : (info : FatUnit) → IsUpdate info info
IsUpdate-same info = record {
  fd_same = refl;
  n_same = refl;
  size_same = refl;
  origin_same = refl;
  long = refl;
  bytes = λ b. b;
  signatures = refl;
  calm = λ e. refl;
}

pub IsUpdate-trans : (a b c : FatUnit) → IsUpdate a b → IsUpdate b c → IsUpdate a c
IsUpdate-trans a b c p q = record {
  fd_same = q.fd_same ∙ p.fd_same;
  n_same = q.n_same ∙ p.n_same;
  size_same = q.size_same ∙ p.size_same;
  origin_same = q.origin_same ∙ p.origin_same;
  long = q.long ∙ p.long;
  bytes = λ h. q.bytes (p.bytes h);
  signatures = q.signatures ∙ p.signatures;
  calm = λ e.
      let same : c ≡ b = q.calm e in same ∙ p.calm (ap (λ (u : FatUnit). u.dirty) (sym same) ∙ e);
}

module _ (info : FatUnit) (i v : ℕ) (wide : 512 ≤ length info.data_bytes) (lo : 0x1e8 ≤ i)
    (hi : i + 4 ≤ 0x1fe) where
  below : Agree 0 0x1e8 (put32 info.data_bytes i v) info.data_bytes
  below k a b = get8-put32-apart info.data_bytes i k v (omega arith) (inl (omega arith))

  above : Agree 0x1fe 0x200 (put32 info.data_bytes i v) info.data_bytes
  above k a b = get8-put32-apart info.data_bytes i k v (omega arith) (inr (omega arith))

  stored-IsUpdate : IsUpdate info (mark_dirty (store32 info i v))
  unfolding get_info_signatures
  stored-IsUpdate = record {
    fd_same = refl;
    n_same = refl;
    size_same = refl;
    origin_same = refl;
    long = length-put32 info.data_bytes i v;
    bytes = put32-IsBytes info.data_bytes i v;
    signatures =
        rw
          (
            get32-Agree _ info.data_bytes 0x000 0 0x1e8 below (omega arith) (omega arith),
            get32-Agree _ info.data_bytes 0x1e4 0 0x1e8 below (omega arith) (omega arith),
            get16-Agree _ info.data_bytes 0x1fe 0x1fe 0x200 above (omega arith) (omega arith),
          )
          refl;
    calm = λ e. absurd (ground arith);
  }

pub set_last_allocated_cluster-IsUpdate :
    (info info' : FatUnit) (z : ℤ)
    → 512 ≤ length info.data_bytes
    → set_last_allocated_cluster (some info) z ≡ some info'
    → IsUpdate info info'
unfolding set_last_allocated_cluster
set_last_allocated_cluster-IsUpdate info info' z wide e =
    elim (Bool-cases (eqb_ℤ z (i32 (get32 info.data_bytes 0x1ec)))) [
      | inl same ↦ subst (IsUpdate info) (ground arith) (IsUpdate-same info)
      | inr new ↦
          subst (IsUpdate info) (ground arith)
            (stored-IsUpdate info 0x1ec (u32 z) wide (omega arith) (omega arith))
    ]

pub set_free_clusters-IsUpdate :
    (info info' : FatUnit) (z : ℤ)
    → 512 ≤ length info.data_bytes
    → set_free_clusters (some info) z ≡ some info'
    → IsUpdate info info'
unfolding set_free_clusters
set_free_clusters-IsUpdate info info' z wide e =
    elim (Bool-cases (eqb_ℤ z (i32 (get32 info.data_bytes 0x1e8)))) [
      | inl same ↦ subst (IsUpdate info) (ground arith) (IsUpdate-same info)
      | inr new ↦
          subst (IsUpdate info) (ground arith)
            (stored-IsUpdate info 0x1e8 (u32 z) wide (omega arith) (omega arith))
    ]
