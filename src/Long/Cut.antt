-- ===== src/Long/Cut.antt =====
-- What `fatlongscan` makes of a name of more than one part.
use libllfat.Prelude.{
  ℕ, zero, suc, ◌+◌, ◌-◌, ◌*◌, ◌/◌, ◌%◌, ◌<◌, ◌≤◌, ◌≡◌, ◌≢◌, refl, ap, ◌∙◌, arith, true, not, ◌&&◌,
  ◌||◌, ◌==◌, ltb, some, [], ◌∷◌, ◌++◌, length, length-append, Bool-cases, inl, inr,
}
use libllfat.Prelude.Int.{◌*ℤ◌, pos, eqb_ℤ, ltb_ℤ, ◌-ℤ◌}
use libllfat.Bytes.{Bytes, get8, get16, put8, write_bytes, read_bytes}
use libllfat.Bytes.Laws.{get8-put8, length-put8, length-write_bytes}
use libllfat.Units.{FatUnit}
use libllfat.Entry.Fields.{entry_byte, entry_exists, entry_end, is_long_part}
use libllfat.Entry.Names.{until_nul}
use libllfat.Ucs2.Encode.{encode_unit, put_unit, convert, ucs2_to_utf8, fat_ucs2_to_utf8}
use libllfat.Long.Scan.{
  LongScan, fat_long_some, block_of, part_units, take_part, scan_part, scan_short, long_scan,
  entry_checksum,
}

length-until_nul : (xs : Bytes) (k : ℕ) → get8 xs k ≡ 0 → length (until_nul xs) ≤ k
unfolding until_nul get8
length-until_nul [] k e = omega arith
length-until_nul (x ∷ xs) zero e = ground arith
length-until_nul (x ∷ xs) (suc k) e = ground (arith, length-until_nul xs k)

-- Two units of one byte are written with a 0 behind them.
two_written :
    (a b : ℕ)
    → a < 0x80
    → b < 0x80
    → (fat_ucs2_to_utf8 true (a ∷ b ∷ []) (some 2)).0 ≡ a ∷ b ∷ 0 ∷ []
unfolding fat_ucs2_to_utf8 ucs2_to_utf8 convert put_unit encode_unit ◌*ℤ◌
two_written a b h h' =
    let p : ltb a 0x80 ≡ true = ground arith in
    let q : ltb b 0x80 ≡ true = ground arith in rw (p, q) refl

last_zero :
    (d : Bytes) (at a b : ℕ)
    → at + 2 < length d
    → get8 (write_bytes d at (a ∷ b ∷ 0 ∷ [])) (at + 2) ≡ 0
unfolding write_bytes
last_zero d at a b h =
    let e : at + 1 + 1 ≡ at + 2 = omega arith in
    ground (
      arith,
      e,
      get8-put8 (put8 (put8 d at a) (at + 1) b) (at + 1 + 1) (at + 2) 0,
      length-put8 (put8 d at a) (at + 1) b,
      length-put8 d at a,
    )

module _ (to_lower : ℕ → ℕ) (garbage : ℕ → Bytes) (sized : (n : ℕ) → length (garbage n) ≡ n)
    (directory : FatUnit) (index : ℕ) (one : get16 directory.data_bytes (index * 32 + 28) < 0x80)
    (other : get16 directory.data_bytes (index * 32 + 28 + 2) < 0x80) where
  take_part-cut :
      (s : LongScan)
      → (name : Bytes) × ((take_part to_lower garbage directory index s).name ≡ some name)
        × (length (until_nul name) ≤ 13)
  unfolding take_part part_units
  take_part-cut s =
      let size = (s.len + 13) * 3 in
      let block = block_of s.name in
      let whole = block ++ garbage (size - length block) in
      let moved = write_bytes whole 13 (read_bytes whole 0 s.len) in
      let a = (fat_ucs2_to_utf8 true (part_units directory (index * 32 + 1) 5) (some 5)).0 in
      let b = (fat_ucs2_to_utf8 true (part_units directory (index * 32 + 14) 6) (some 6)).0 in
      let before = write_bytes (write_bytes moved 0 a) 5 b in
      let x = get16 directory.data_bytes (index * 32 + 28) in
      let y = get16 directory.data_bytes (index * 32 + 28 + 2) in
      let name = write_bytes before 11 (fat_ucs2_to_utf8 true (x ∷ y ∷ []) (some 2)).0 in
      let long : length before ≡ length block + (size - length block) =
        length-write_bytes (write_bytes moved 0 a) 5 b
        ∙ length-write_bytes moved 0 a
        ∙ length-write_bytes whole 13 (read_bytes whole 0 s.len)
        ∙ length-append block (garbage (size - length block))
        ∙ ap (λ (n : ℕ). length block + n) (sized (size - length block)) in
      let zero_at : get8 name 13 ≡ 0 =
        rw (two_written x y one other) (last_zero before 11 x y (omega (arith, long))) in
      (name, refl, length-until_nul name 13 zero_at)

  scan_part_lem :
      (s : LongScan)
      → (scan_part to_lower garbage directory index s).1 ≡ fat_long_some
      → scan_part to_lower garbage directory index s
        ≡ (take_part to_lower garbage directory index s, fat_long_some)
  unfolding scan_part
  scan_part_lem s e = elim (Bool-cases (entry_byte directory index 0 / 0x40 % 2 == 1)) [
    | inl first ↦ absurd (ground (arith, e, first))
    | inr later ↦
        let sum = entry_byte directory index 13 in
        elim (Bool-cases (
          not (s.checksum_read == sum)
          || not (ltb_ℤ (pos 0) s.n)
          || not (eqb_ℤ s.n (pos (entry_byte directory index 0 % 0x40))))) [
            | inl wrong ↦ absurd (ground (arith, rw (later, wrong) at e))
            | inr right ↦ rw (later, right) refl
          ]
  ]

  scan_short-apart :
      (s : LongScan) → (scan_short to_lower garbage directory index s).1 ≢ fat_long_some
  unfolding scan_short
  scan_short-apart s e =
      elim (Bool-cases (eqb_ℤ s.n (pos 0) && entry_checksum directory index == s.checksum_read)) [
        | inl whole ↦ ground (arith, rw whole at e)
        | inr other_name ↦ ground (arith, rw other_name at e)
      ]

  long_scan_lem :
      (s : LongScan)
      → (long_scan to_lower garbage directory index s).1 ≡ fat_long_some
      → long_scan to_lower garbage directory index s ≡ (
        take_part to_lower garbage directory index (record s { n = s.n -ℤ pos 1 }),
        fat_long_some,
      )
  unfolding long_scan
  long_scan_lem s e =
      let s' = record s { n = s.n -ℤ pos 1 } in
      elim (Bool-cases (entry_end (some directory) index)) [
        | inl ended ↦ absurd (ground (arith, rw ended at e))
        | inr going ↦ elim (Bool-cases (entry_exists directory index)) [
          | inr deleted ↦ absurd (ground (arith, rw (going, deleted) at e))
          | inl used ↦ elim (Bool-cases (is_long_part directory index)) [
            | inr short ↦ absurd (scan_short-apart s' (rw (going, used, short) at e))
            | inl part ↦ rw (going, used, part) (scan_part_lem s' (rw (going, used, part) at e))
          ]
        ]
      ]

  -- Of a name that is read in several parts: after a part whose last two characters are ASCII and which
  -- is not the first one read, the string that fatlongscan leaves has at most the 13 bytes of that part:
  -- what was read of the name before is cut off by the final 0 of the conversion.
  pub long_scan-cut :
      (s : LongScan)
      → (long_scan to_lower garbage directory index s).1 ≡ fat_long_some
      → (name : Bytes) × ((long_scan to_lower garbage directory index s).0.name ≡ some name)
        × (length (until_nul name) ≤ 13)
  long_scan-cut s e =
      let (name, is, short) = take_part-cut (record s { n = s.n -ℤ pos 1 }) in
      (name, ap (λ p. p.0.name) (long_scan_lem s e) ∙ is, short)
