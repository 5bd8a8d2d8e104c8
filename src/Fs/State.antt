-- ===== src/Fs/State.antt =====
-- lib/fs.h: the structure `fat`, and calls that change it and may end the program.
use libllfat.Prelude.{ℕ, Bool, Option, none, some}
use libllfat.Prelude.Int.{ℤ}
use libllfat.Units.{FatUnit}
use libllfat.Units.Host.{Host}

module _ (h : Host) where
  -- `boot` and `info` point into the cache of sectors; as the library reads the sizes from the boot
  -- sector alone, and no table begins before the reserved sectors end, the boot sector is a value of
  -- its own here, and so is the information sector, which lies there too; `Fs.Session` puts them back
  -- into the cache where it is flushed. The device is part of the state. `devicename` and `user` play
  -- no part in what is modelled.
  pub record Fat : Type 0 where
    pub fd : ℤ
    pub offset : ℕ
    pub bits : ℤ
    pub nfat : ℤ
    pub insensitive : Bool
    pub boot : FatUnit
    pub info : Option FatUnit
    pub sectors : h.Tree
    pub clusters : h.Tree
    pub last : ℤ
    pub free : ℤ
    pub disk : h.Disk

  -- A call: `none` is the end of the program, by exit(3) or by a fault.
  abbrev pub M : Type 0 → Type 0
  M A = Fat → Option (A × Fat)

module _ {h : Host} where
  abbrev pub pure : {A : Type 0} → A → M h A
  pure a f = some (a, f)

  abbrev pub exit : {A : Type 0} → M h A
  exit f = none

  infixl 5 ◌>>=◌ ◌>>◌
  abbrev pub ◌>>=◌ : {A C : Type 0} → M h A → (A → M h C) → M h C
  ◌>>=◌ m k f = elim (m f) [ none ↦ none | some (a, f') ↦ k a f' ]

  abbrev pub ◌>>◌ : {C : Type 0} → M h (Unit {0}) → M h C → M h C
  m >> k = m >>= λ _. k

  -- The structure itself, and an update of it.
  abbrev pub get_fat : M h (Fat h)
  get_fat f = some (f, f)

  abbrev pub modify : (Fat h → Fat h) → M h (Unit {0})
  modify g f = some (tt, g f)
