-- ===== src/Boot/TableSize.antt =====
-- Round trip of the size of a table, `fatbootsetfatsize` and `fatbootgetfatsize`.
use libllfat.Prelude.{
  ℕ, ◌%◌, ◌<◌, ◌≡◌, inl, inr, refl, arith, ◌==◌, true, if◌then◌else◌, none, some, Bool-cases,
}
use libllfat.Prelude.Int.{pos}
use libllfat.Bytes.{get16, get32, put16}
use libllfat.Bytes.Laws.{get16-put16, get32-put32, length-put16, get8-put32-apart, get16-Agree}
use libllfat.Units.{FatUnit, mark_dirty, store16, store32}
use libllfat.Boot.Fields.{set_fatsize16, set_fatsize32, get_fatsize16, get_fatsize32}
use libllfat.Boot.Size.{fatsize_any, get_fatsize, set_fatsize}
use libllfat.Boot.RoundTrip.{IsSector}
use libllfat.Boot.MinSize.{IsWidth}
use libllfat.Boot.Resize.{known}

-- The unit with both fields stored.
abbrev stored : FatUnit → ℕ → ℕ → FatUnit
stored boot size16 size32 = store32 (store16 boot 0x16 size16) 0x24 size32

module _ (boot : FatUnit) (size16 size32 : ℕ) (s : IsSector boot) where
  stored_16 : get16 (stored boot size16 size32).data_bytes 0x16 ≡ size16 % 0x1_0000
  stored_16 = ground (
    arith,
    get16-Agree (stored boot size16 size32).data_bytes (put16 boot.data_bytes 0x16 size16) 0x16 0
        0x24
        (λ j _ k.
          get8-put32-apart (put16 boot.data_bytes 0x16 size16) 0x24 j size32
            (omega (arith, length-put16 boot.data_bytes 0x16 size16, s.wide)) (inl k)),
    get16-put16 boot.data_bytes 0x16 size16,
    s.wide,
  )

  stored_32 : get32 (stored boot size16 size32).data_bytes 0x24 ≡ size32 % 0x1_0000_0000
  stored_32 = ground (
    arith,
    get32-put32 (put16 boot.data_bytes 0x16 size16) 0x24 size32,
    length-put16 boot.data_bytes 0x16 size16,
    s.wide,
  )

-- The largest size that the field of a table of `b` bits holds, plus one.
abbrev pub size_limit : ℕ → ℕ
size_limit b = if b == 32 then 0x8000_0000 else 0x1_0000

-- A size that fits its field is what `fatbootgetfatsize` returns after `fatbootsetfatsize`, both with
-- the bits known and, as the other field is cleared, with the bits neither known nor required. The
-- unit is marked dirty.
pub get_fatsize-set :
    (boot : FatUnit) (b size : ℕ)
    → IsSector boot
    → IsWidth b
    → size < size_limit b
    → (boot' : FatUnit) × (set_fatsize (some boot) (pos size) (some (pos b))
        ≡ some ((some boot', pos 0), some (pos b)))
      × (get_fatsize (some boot') (some (pos b)) ≡ some (pos size, some (pos b)))
      × (get_fatsize (some boot') none ≡ some (pos size, none))
      × (boot'.dirty ≡ true)
unfolding set_fatsize set_fatsize16 set_fatsize32 get_fatsize fatsize_any get_fatsize16
    get_fatsize32
get_fatsize-set boot b size s w h = elim (Bool-cases (b == 32)) [
  | inl is32 ↦
      let boot' = mark_dirty (stored boot 0 size) in
      (
        boot',
        ground (arith, known boot b w),
        ground (arith, known boot' b w, stored_16 boot 0 size s, stored_32 boot 0 size s),
        ground (arith, stored_16 boot 0 size s, stored_32 boot 0 size s),
        refl,
      )
  | inr ne ↦
      let boot' = mark_dirty (stored boot size 0) in
      (
        boot',
        ground (arith, known boot b w),
        ground (arith, known boot' b w, stored_16 boot size 0 s, stored_32 boot size 0 s),
        ground (arith, stored_16 boot size 0 s, stored_32 boot size 0 s),
        refl,
      )
]
