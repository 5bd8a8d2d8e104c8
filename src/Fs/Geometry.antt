-- ===== src/Fs/Geometry.antt =====
-- lib/fs.c: the parameters of the boot sector through the structure `fat`.
use libllfat.Prelude.{ℕ, not, if◌then◌else◌, none, some}
use libllfat.Prelude.Int.{ℤ, pos, eqb_ℤ}
use libllfat.Units.{FatUnit}
use libllfat.Units.Host.{Host}
use libllfat.Boot.Fields
use libllfat.Boot.Size
use libllfat.Boot.Root
use libllfat.Fs.State.{Fat, M}

module _ {h : Host} where
  -- `fatbits`, which keeps what it finds in `f->bits`.
  unfoldable pub fat_bits : M h ℤ
  fat_bits f =
      if not (eqb_ℤ f.bits (pos 0))
      then some (f.bits, f)
      else elim (Size.boot_bits f.boot) [ none ↦ none | some b ↦ some (b, record f { bits = b }) ]

  -- A parameter that depends on the bits: `f` hands over `&f->bits`.
  unfoldable pub with_bits : {A : Type 0} → (FatUnit → Size.B A) → M h A
  with_bits g f = elim (g f.boot (some f.bits)) [
    | none ↦ none
    | some (a, none) ↦ some (a, f)
    | some (a, some b) ↦ some (a, record f { bits = b })
  ]

  unfoldable pub get_bytes_per_sector : Fat h → ℕ
  get_bytes_per_sector f = Fields.get_bytes_per_sector f.boot

  unfoldable pub get_sectors_per_cluster : Fat h → ℕ
  get_sectors_per_cluster f = Fields.get_sectors_per_cluster f.boot

  unfoldable pub get_reserved_sectors : Fat h → ℕ
  get_reserved_sectors f = Fields.get_reserved_sectors f.boot

  unfoldable pub get_num_fats : Fat h → ℤ
  get_num_fats f = Fields.get_num_fats f.boot

  unfoldable pub get_media : Fat h → ℕ
  get_media f = Fields.get_media f.boot

  unfoldable pub get_num_sectors : M h ℕ
  get_num_sectors = with_bits Size.get_num_sectors

  unfoldable pub get_fatsize : M h ℤ
  get_fatsize = with_bits (λ boot. Size.get_fatsize (some boot))

  unfoldable pub get_root_entries : M h ℕ
  get_root_entries = with_bits Size.get_root_entries

  unfoldable pub get_root_begin : M h ℤ
  get_root_begin = with_bits Root.get_root_begin

  unfoldable pub num_data_clusters : M h ℤ
  num_data_clusters = with_bits Size.num_data_clusters

  unfoldable pub last_cluster : M h ℤ
  last_cluster = with_bits Size.last_cluster

  unfoldable pub set_root_begin : ℤ → M h ℤ
  set_root_begin num f = elim (Root.set_root_begin f.boot num (some f.bits)) [
    | none ↦ none
    | some ((boot, r), none) ↦ some (r, record f { boot = boot })
    | some ((boot, r), some b) ↦ some (r, record f { boot = boot; bits = b })
  ]
