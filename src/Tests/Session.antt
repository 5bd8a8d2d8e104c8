-- ===== src/Tests/Session.antt =====
-- The theorems on lib/fs.c and on flushing the cache of lib/unit.c at a FAT32 filesystem of 69418
-- clusters of 512 bytes.
use libllfat.Prelude.{
  ℕ, ◌≡◌, ◌⊎◌, ◌∙◌, sym, subst, refl, arith, Bool, true, false, ◌==◌, if◌then◌else◌, none, some, [],
  ◌∷◌, ◌++◌, replicate, length, Bool-cases, inl, inr,
}
use libllfat.Prelude.Int.{pos, minus_one, ltb_ℤ, ◌*ℤ◌, ◌+ℤ◌}
use libllfat.Bytes.{Bytes, IsBytes, get8, get16, get32}
use libllfat.Units.{FatUnit}
use libllfat.Units.Io.{position}
use libllfat.Units.Cache
use libllfat.Units.Device.{IsSound, apart, settle}
use libllfat.Units.Flushed.{flush_lem, get-flush}
use libllfat.Boot.Fields
use libllfat.Boot.Size
use libllfat.Boot.Info
use libllfat.Fs.State.{Fat}
use libllfat.Fs.Session.{take_counters, Opened, held, close, open_fat}
use libllfat.Fs.Setters.{is_valid_cluster, get_last_allocated_cluster}
use libllfat.Fs.Sane.{take_counters-IsSane}
use libllfat.Fs.Saved.{IsSavable}
use libllfat.Fs.Reopened.{open_fat-close}
use libllfat.Tests.Host.{list_host, tfind, write_disk, all_bytes, all_bytes-IsBytes}
use libllfat.Tests.Device.{list_host-Works}

-- 512 bytes per sector, 1 sector per cluster, 32 reserved sectors, 1 table of 550 sectors, 70000
-- sectors, the information sector is sector 1.
abbrev boot_bytes : Bytes
boot_bytes =
    replicate 11 0
    ++ ((0 ∷ 2 ∷ 1 ∷ 32 ∷ 0 ∷ 1 ∷ 0 ∷ 0 ∷ 0 ∷ 0 ∷ 0xf8 ∷ 0 ∷ 0 ∷ replicate 8 0)
        ++ ((0x70 ∷ 0x11 ∷ 1 ∷ 0 ∷ 0x26 ∷ 2 ∷ 0 ∷ 0 ∷ 0 ∷ 0 ∷ 0 ∷ 0 ∷ 2 ∷ 0 ∷ 0 ∷ 0 ∷ 1 ∷ 0 ∷ [])
            ++ replicate 462 0))

abbrev info_bytes : Bytes
info_bytes =
    0x52
    ∷ 0x52
    ∷ 0x61
    ∷ 0x41
    ∷ (replicate 480 0
        ++ ((0x72 ∷ 0x72 ∷ 0x41 ∷ 0x61 ∷ replicate 8 0xff)
            ++ (replicate 14 0 ++ (0x55 ∷ 0xaa ∷ []))))

abbrev unit_at : (n origin : ℕ) → Bytes → Bool → FatUnit
unit_at n origin bytes dirty = record {
  fd = pos 3;
  n = n;
  size = 512;
  origin = origin;
  loaded = true;
  data_bytes = bytes;
  error = 0;
  dirty = dirty;
  refer = 1;
}

abbrev boot : FatUnit
boot = unit_at 0 0 boot_bytes false

abbrev info : FatUnit
info = unit_at 1 0 info_bytes false

-- Cluster 2, at sector 582, is to be written.
abbrev cluster : FatUnit
cluster = unit_at 2 296960 (replicate 512 7) true

abbrev device : ℕ → ℕ
device = write_disk (write_disk (λ at. 0) 0 boot_bytes) 512 info_bytes

abbrev fs_32 : Fat list_host
fs_32 = record {
  fd = pos 3;
  offset = 0;
  bits = pos 32;
  nfat = minus_one;
  insensitive = false;
  boot = boot;
  info = some info;
  sectors = boot ∷ info ∷ [];
  clusters = cluster ∷ [];
  last = pos 5;
  free = pos 1000;
  disk = device;
}

boot-IsBytes : IsBytes boot_bytes
unfolding all_bytes
boot-IsBytes = all_bytes-IsBytes boot_bytes refl

info-IsBytes : IsBytes info_bytes
unfolding all_bytes
info-IsBytes = all_bytes-IsBytes info_bytes refl

-- What is found in the caches.
found_cases :
    (x : FatUnit) (t : list_host.Tree) (i : ℕ) (u : FatUnit)
    → tfind i (x ∷ t) ≡ some u
    → ((x.n ≡ i) × (x ≡ u)) ⊎ (tfind i t ≡ some u)
unfolding tfind
found_cases x t i u e = elim (Bool-cases (x.n == i)) [
  | inl here ↦ inl (ground arith, ground arith)
  | inr other ↦ inr (ground arith)
]

none_found : (i : ℕ) (u : FatUnit) {A : Type 0} → tfind i [] ≡ some u → A
unfolding tfind
none_found i u e = absurd (ground arith)

held_cases :
    (i : ℕ) (u : FatUnit)
    → tfind i (held fs_32) ≡ some u
    → ((1 ≡ i) × (info ≡ u)) ⊎ ((0 ≡ i) × (boot ≡ u))
held_cases i u e = elim (found_cases info (boot ∷ boot ∷ info ∷ []) i u e) [
  | inl p ↦ inl p
  | inr e₁ ↦ elim (found_cases boot (boot ∷ info ∷ []) i u e₁) [
    | inl p ↦ inr p
    | inr e₂ ↦ elim (found_cases boot (info ∷ []) i u e₂) [
      | inl p ↦ inr p
      | inr e₃ ↦ elim (found_cases info [] i u e₃) [ inl p ↦ inl p | inr e₄ ↦ none_found i u e₄ ]
    ]
  ]
]

cluster_found : (i : ℕ) (u : FatUnit) → tfind i (cluster ∷ []) ≡ some u → (2 ≡ i) × (cluster ≡ u)
cluster_found i u e = elim (found_cases cluster [] i u e) [
  | inl p ↦ p
  | inr rest ↦ none_found i u rest
]

held-IsSound : IsSound list_host (pos 3) (held fs_32)
unfolding apart
held-IsSound = record {
  whole = λ i u e dirty. elim (held_cases i u e) [
    | inl p ↦
        subst (λ (w : FatUnit). (length w.data_bytes ≡ w.size) × IsBytes w.data_bytes) p.1
          (refl, info-IsBytes)
    | inr p ↦
        subst (λ (w : FatUnit). (length w.data_bytes ≡ w.size) × IsBytes w.data_bytes) p.1
          (refl, boot-IsBytes)
  ];
  same_fd = λ i u e. elim (held_cases i u e) [
    | inl p ↦ subst (λ (w : FatUnit). w.fd ≡ pos 3) p.1 refl
    | inr p ↦ subst (λ (w : FatUnit). w.fd ≡ pos 3) p.1 refl
  ];
  apart_units = λ i j u w e e' ne.
      let Far = λ (a b : FatUnit).
        apart (position list_host a) a.size (position list_host b) b.size ≡ true in
      elim (held_cases i u e) [
        | inl p ↦ elim (held_cases j w e') [
          | inl q ↦ absurd (ne (sym p.0 ∙ q.0))
          | inr q ↦ subst (Far u) q.1 (subst (λ (a : FatUnit). Far a boot) p.1 refl)
        ]
        | inr p ↦ elim (held_cases j w e') [
          | inl q ↦ subst (Far u) q.1 (subst (λ (a : FatUnit). Far a info) p.1 refl)
          | inr q ↦ absurd (ne (sym p.0 ∙ q.0))
        ]
      ];
}

clusters-IsSound : IsSound list_host (pos 3) (cluster ∷ [])
unfolding all_bytes
clusters-IsSound = record {
  whole = λ i u e dirty.
      subst (λ (w : FatUnit). (length w.data_bytes ≡ w.size) × IsBytes w.data_bytes)
        (cluster_found i u e).1 (refl, all_bytes-IsBytes (replicate 512 7) refl);
  same_fd = λ i u e. subst (λ (w : FatUnit). w.fd ≡ pos 3) (cluster_found i u e).1 refl;
  apart_units =
      λ i j u w e e' ne. absurd (ne (sym (cluster_found i u e).0 ∙ (cluster_found j w e').0));
}

fs_32-IsSavable : IsSavable 69418 5 1000 info fs_32
unfolding apart Size.boot_bits Fields.get_bytes_per_sector Fields.get_sectors_per_cluster
    Size.data_clusters_of Size.num_sectors_any Size.fatsize_any Size.root_entries_any
    Size.root_sectors_of Fields.get_num_fats Fields.get_fatsize16 Fields.get_fatsize32
    Fields.get_reserved_sectors Fields.get_info_pos Size.num_data_clusters Size.get_num_sectors
    Size.get_fatsize Size.get_root_entries Size.known_bits Info.get_info_signatures
    Fields.bits_from_clusters Size.conditional_minus Size.division ◌*ℤ◌ get8 get16 get32
fs_32-IsSavable = record {
  bits_is = refl;
  boot_bits_is = refl;
  clusters_is = refl;
  last_is = refl;
  last_low = omega arith;
  last_high = omega arith;
  small = omega arith;
  free_is = refl;
  free_high = omega arith;
  boot_fd = refl;
  boot_n = refl;
  boot_size = refl;
  boot_origin = refl;
  info_is = refl;
  info_fd = refl;
  info_n = refl;
  info_other = omega arith;
  info_real = omega arith;
  info_size = refl;
  info_origin = refl;
  info_sector = record { bytes = info-IsBytes; wide = omega arith };
  info_long = refl;
  signed = refl;
  sound = held-IsSound;
  clusters_sound = clusters-IsSound;
  far = λ i j u w e e'.
      let Far = λ (a b : FatUnit).
        apart (position list_host a) a.size (position list_host b) b.size ≡ true in
      subst (λ (a : FatUnit). Far a u) (cluster_found j w e').1
        (elim (held_cases i u e) [
          | inl p ↦ subst (Far cluster) p.1 refl
          | inr p ↦ subst (Far cluster) p.1 refl
        ]);
  boot_stored = λ clean.
      list_host-Works.reads_apart (write_disk (λ at. 0) 0 boot_bytes) (pos 3) 512 0 512 info_bytes
        refl
      ∙ list_host-Works.reads_back (λ at. 0) (pos 3) 0 boot_bytes boot-IsBytes;
  info_stored = λ clean.
      list_host-Works.reads_back (write_disk (λ at. 0) 0 boot_bytes) (pos 3) 512 info_bytes
        info-IsBytes;
}

abbrev opens : Bool → Opened
opens writable = Opened.descriptor (pos 3)

open_fat-close_example :
    (d : ℕ → ℕ) × (g : Fat list_host) × (close [] (λ disk fd. true) fs_32 ≡ some (pos 0, d))
    × (open_fat [] opens d 0 ≡ some (some g))
    × (g.boot.data_bytes ≡ boot_bytes)
    × (g.last ≡ pos 5)
    × (g.free ≡ pos 1000)
open_fat-close_example =
    open_fat-close list_host-Works (λ disk fd. true) opens 69418 5 1000 info fs_32 fs_32-IsSavable
      refl

-- The counters 0xffffffff are not taken.
take_counters-IsSane_example :
    (f' : Fat list_host) × (take_counters fs_32 ≡ some (pos 0, f'))
    × ((f'.last ≡ pos 2) ⊎ (is_valid_cluster f'.last f' ≡ some (true, f')))
    × ((f'.free ≡ minus_one)
        ⊎ ((ltb_ℤ f'.free (pos 0) ≡ false) × (ltb_ℤ (pos 69418) f'.free ≡ false)))
unfolding Size.is_valid_cluster Size.last_cluster get_last_allocated_cluster
    Info.get_last_allocated_cluster Fields.get_bytes_per_sector Fields.get_sectors_per_cluster
    Size.data_clusters_of Size.root_sectors_of Fields.get_num_fats Fields.get_fatsize32
    Fields.get_reserved_sectors Size.num_data_clusters Size.get_num_sectors Size.get_fatsize
    Size.get_root_entries Size.known_bits Size.conditional_minus Size.division ◌*ℤ◌ ◌+ℤ◌ get8 get16
    get32
take_counters-IsSane_example = take_counters-IsSane fs_32 (pos 69418) false refl refl

-- The cluster that is to be written.
flush_lem_example :
    (tfind 2 (cluster ∷ []) ≡ none
      → tfind 2 (Cache.flush list_host [] device (cluster ∷ [])).1 ≡ none)
    × ((u : FatUnit)
        → tfind 2 (cluster ∷ []) ≡ some u
        → (tfind 2 (Cache.flush list_host [] device (cluster ∷ [])).1 ≡ some (settle u))
          × (list_host.read
                (Cache.flush list_host [] device (cluster ∷ [])).0
                u.fd
                (position list_host u)
                u.size
              ≡ (if u.dirty
                  then some u.data_bytes
                  else list_host.read device u.fd (position list_host u) u.size)))
flush_lem_example =
    flush_lem list_host list_host-Works (pos 3) device (cluster ∷ []) 2 clusters-IsSound

get-flush_example :
    (w : FatUnit) × ((Cache.get list_host []
        (Cache.flush list_host [] device (cluster ∷ [])).0
        []
        296960
        512
        2
        (pos 3)).0
      ≡ some w)
    × (w.data_bytes ≡ replicate 512 7)
    × (w.n ≡ 2)
    × (w.origin ≡ 296960)
    × (w.size ≡ 512)
    × (w.fd ≡ pos 3)
    × (w.dirty ≡ false)
    × (w.loaded ≡ true)
unfolding tfind
get-flush_example =
    get-flush list_host list_host-Works (pos 3) device (cluster ∷ []) 2 cluster clusters-IsSound
      refl refl
