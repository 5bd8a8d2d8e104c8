-- ===== src/Fs/Setters.antt =====
-- lib/fs.c: the functions that store a parameter of the filesystem in the boot sector or in the
-- information sector. Where the code tests `f` for NULL, `f` is an `Option`, and the function returns
-- what `f` points to after the call.
use libllfat.Prelude.{ℕ, Bool, Option, none, some}
use libllfat.Prelude.Int.{ℤ, pos, minus_one}
use libllfat.Bytes.{Bytes}
use libllfat.Units.{FatUnit}
use libllfat.Units.Host.{Host}
use libllfat.Boot.Fields
use libllfat.Boot.Size
use libllfat.Boot.Root
use libllfat.Boot.Label
use libllfat.Boot.Info
use libllfat.Boot.BestSize
use libllfat.Fs.State.{Fat, M}
use libllfat.Fs.Geometry.{with_bits}

module _ {h : Host} where
  -- `fatboot...(f->boot, v)`
  abbrev on_boot : Fat h → FatUnit × ℤ → Fat h × ℤ
  on_boot f (boot, r) = (record f { boot = boot }, r)

  abbrev on_boot_ptr : Fat h → Option FatUnit × ℤ → Fat h × ℤ
  on_boot_ptr f (none, r) = (f, r)
  on_boot_ptr f (some boot, r) = (record f { boot = boot }, r)

  -- `if (f == NULL) return -1;`
  abbrev unless_null :
      (Option FatUnit → ℤ → Option FatUnit × ℤ) → Option (Fat h) → ℤ → Option (Fat h) × ℤ
  unless_null set none v = (none, minus_one)
  unless_null set (some f) v = let (f', r) = on_boot_ptr f (set (some f.boot) v) in (some f', r)

  unfoldable pub set_bytes_per_sector : Option (Fat h) → ℤ → Option (Fat h) × ℤ
  set_bytes_per_sector = unless_null Fields.set_bytes_per_sector

  unfoldable pub set_sectors_per_cluster : Option (Fat h) → ℤ → Option (Fat h) × ℤ
  set_sectors_per_cluster = unless_null Fields.set_sectors_per_cluster

  unfoldable pub set_reserved_sectors : Option (Fat h) → ℤ → Option (Fat h) × ℤ
  set_reserved_sectors = unless_null Fields.set_reserved_sectors

  unfoldable pub set_num_fats : Option (Fat h) → ℤ → Option (Fat h) × ℤ
  set_num_fats = unless_null Fields.set_num_fats

  unfoldable pub set_fatsize16 : Option (Fat h) → ℤ → Option (Fat h) × ℤ
  set_fatsize16 = unless_null Fields.set_fatsize16

  unfoldable pub set_fatsize32 : Option (Fat h) → ℤ → Option (Fat h) × ℤ
  set_fatsize32 = unless_null Fields.set_fatsize32

  unfoldable pub bytes_per_cluster : Fat h → ℕ
  bytes_per_cluster f = Fields.bytes_per_cluster f.boot

  unfoldable pub get_fatsize16 : Option (Fat h) → ℤ
  get_fatsize16 none = minus_one
  get_fatsize16 (some f) = Fields.get_fatsize16 (some f.boot)

  unfoldable pub get_fatsize32 : Option (Fat h) → ℤ
  get_fatsize32 none = minus_one
  get_fatsize32 (some f) = Fields.get_fatsize32 (some f.boot)

  unfoldable pub signature_bits : Fat h → ℤ
  signature_bits f = BestSize.signature_bits f.boot

  unfoldable pub min_fatsize : Fat h → ℤ → Option ℤ
  min_fatsize f nclusters = Root.min_fatsize f.boot nclusters

  -- The bits in `f` stay as they are, though the size decides on them.
  unfoldable pub best_fatsize : ℕ → M h ℤ
  best_fatsize fuel f = elim (BestSize.best_fatsize fuel f.boot) [
    | none ↦ none
    | some (boot, best) ↦ some (best, record f { boot = boot })
  ]

  -- The functions that hand over `&f->bits`.
  abbrev after_bits : {A : Type 0} → Fat h → A → Size.Bits → Option (A × Fat h)
  after_bits f a none = some (a, f)
  after_bits f a (some b) = some (a, record f { bits = b })

  unfoldable pub store_with_bits : (FatUnit → Size.B (FatUnit × ℤ)) → M h ℤ
  store_with_bits g f = elim (g f.boot (some f.bits)) [
    | none ↦ none
    | some ((boot, r), bits) ↦ after_bits (record f { boot = boot }) r bits
  ]

  unfoldable pub store_ptr_with_bits : (Option FatUnit → Size.B (Option FatUnit × ℤ)) → M h ℤ
  store_ptr_with_bits g f = elim (g (some f.boot) (some f.bits)) [
    | none ↦ none
    | some ((boot, r), bits) ↦ let (f', r') = on_boot_ptr f (boot, r) in after_bits f' r' bits
  ]

  -- `f` is NULL or is changed by the call.
  abbrev unless_null_M : M h ℤ → Option (Fat h) → Option (Option (Fat h) × ℤ)
  unless_null_M m none = some (none, minus_one)
  unless_null_M m (some f) = elim (m f) [ none ↦ none | some (r, f') ↦ some (some f', r) ]

  unfoldable pub set_num_sectors : ℕ → M h ℤ
  set_num_sectors sectors = store_ptr_with_bits (λ boot. Size.set_num_sectors boot sectors)

  unfoldable pub set_fatsize : Option (Fat h) → ℤ → Option (Option (Fat h) × ℤ)
  set_fatsize f size = unless_null_M (store_ptr_with_bits (λ boot. Size.set_fatsize boot size)) f

  unfoldable pub set_root_entries : Option (Fat h) → ℤ → Option (Option (Fat h) × ℤ)
  set_root_entries f entries =
      unless_null_M (store_ptr_with_bits (λ boot. Root.set_root_entries boot entries)) f

  unfoldable pub consistent_size : M h Bool
  consistent_size = with_bits Root.consistent_size

  unfoldable pub num_root_sectors : M h ℕ
  num_root_sectors = with_bits Size.num_root_sectors

  unfoldable pub is_valid_cluster : ℤ → M h Bool
  is_valid_cluster n = with_bits (λ boot. Size.is_valid_cluster boot n)

  unfoldable pub get_dirty_bits : M h ℤ
  get_dirty_bits = with_bits Label.get_dirty_bits

  unfoldable pub set_dirty_bits : ℤ → M h ℤ
  set_dirty_bits dirty = store_with_bits (λ boot. Label.set_dirty_bits boot dirty)

  unfoldable pub get_extended_boot_signature : M h ℤ
  get_extended_boot_signature = with_bits Label.get_extended_boot_signature

  unfoldable pub add_extended_boot_signature : M h ℤ
  add_extended_boot_signature = store_with_bits Label.add_extended_boot_signature

  unfoldable pub delete_extended_boot_signature : M h ℤ
  delete_extended_boot_signature = store_with_bits Label.delete_extended_boot_signature

  unfoldable pub get_serial_number : M h ℕ
  get_serial_number = with_bits Label.get_serial_number

  unfoldable pub set_serial_number : ℕ → M h ℤ
  set_serial_number serial = store_with_bits (λ boot. Label.set_serial_number boot serial)

  unfoldable pub get_volume_label : M h (Option Bytes)
  get_volume_label = with_bits Label.get_volume_label

  unfoldable pub set_volume_label : Bytes → M h ℤ
  set_volume_label l = store_with_bits (λ boot. Label.set_volume_label boot l)

  unfoldable pub get_filesystem_type : M h (Option Bytes)
  get_filesystem_type = with_bits Label.get_filesystem_type

  unfoldable pub set_filesystem_type : Bytes → M h ℤ
  set_filesystem_type t = store_with_bits (λ boot. Label.set_filesystem_type boot t)

  unfoldable pub get_backup_sector : Fat h → ℤ
  get_backup_sector f = Fields.get_backup_sector f.boot

  unfoldable pub set_backup_sector : Fat h → ℤ → Fat h × ℤ
  set_backup_sector f sector = on_boot_ptr f (Fields.set_backup_sector (some f.boot) sector)

  unfoldable pub get_info_pos : Fat h → ℕ
  get_info_pos f = Fields.get_info_pos f.boot

  unfoldable pub set_info_pos : Fat h → ℤ → Fat h × ℤ
  set_info_pos f position = on_boot f (Fields.set_info_pos f.boot position)

  unfoldable pub set_media : Fat h → ℕ → Fat h × ℤ
  set_media f media = on_boot f (Fields.set_media f.boot media)

  unfoldable pub get_boot_signature : Option (Fat h) → Option Bool
  get_boot_signature none = none
  get_boot_signature (some f) = some (Fields.get_boot_signature f.boot)

  unfoldable pub set_boot_signature : Option (Fat h) → Option (Fat h) × ℤ
  set_boot_signature f = unless_null (λ boot v. Fields.set_boot_signature boot) f (pos 0)

  unfoldable pub get_info_signatures : Fat h → ℤ
  get_info_signatures f = Info.get_info_signatures f.info

  unfoldable pub set_info_signatures : Fat h → Fat h × ℤ
  set_info_signatures f =
      let (info, r) = Info.set_info_signatures f.info in (record f { info = info }, r)

  unfoldable pub get_last_allocated_cluster : Fat h → ℤ
  get_last_allocated_cluster f = Info.get_last_allocated_cluster f.info

  unfoldable pub set_last_allocated_cluster : Fat h → ℤ → Fat h
  set_last_allocated_cluster f last = record f {
    info = Info.set_last_allocated_cluster f.info last;
  }

  unfoldable pub get_free_clusters : Fat h → ℤ
  get_free_clusters f = Info.get_free_clusters f.info

  unfoldable pub set_free_clusters : Fat h → ℤ → Fat h
  set_free_clusters f last = record f { info = Info.set_free_clusters f.info last }
