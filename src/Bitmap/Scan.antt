-- ===== src/Bitmap/Scan.antt =====
-- The first two loops of `bitmap_scan`: what the search for one clear bit finds.
use sparrow_os.Base.{
  ℕ, zero, suc, ◌+◌, ◌-◌, ◌*◌, ◌/◌, ◌%◌, ◌≤◌, ◌<◌, ◌≡◌, refl, ◌≢◌, ◌⊎◌, inl, inr, Bool, true, false,
  ◌&&◌, not, none, some, Option, Res, ok, panic, arith, ltb, ◌==◌, Bool-cases, ltb→lt,
  if◌then◌else◌,
}
use sparrow_os.Base.Table.{holds_below, holds_below_lem}
use sparrow_os.Bitmap.{Bitmap, total, bit, scan_test, first_byte, first_bit, start, scan, find_run}
use sparrow_os.Bitmap.Bits.{IsBytes}

-- The first loop stops at the first byte with a clear bit, or at the end of the map.
record FirstByte (m : Bitmap) (i left r : ℕ) : Type 0 where
  from : i ≤ r
  upto : r ≤ i + left
  stops : r < i + left → m.bits r ≢ 255
  full : (j : ℕ) → i ≤ j → j < r → m.bits j ≡ 255

first_byte_lem : (m : Bitmap) (i left : ℕ) → FirstByte m i left (first_byte m i left)
unfolding first_byte
first_byte_lem m i zero = record {
  from = omega arith;
  upto = omega arith;
  stops = λ h. absurd (omega arith);
  full = λ j p q. absurd (omega arith);
}
first_byte_lem m i (suc left) = elim (Bool-cases (0xff == m.bits i)) [
  | inl e ↦ rw e (later e (first_byte_lem m (i + 1) left))
  | inr e ↦ rw e (record {
    from = omega arith;
    upto = omega arith;
    stops = λ h. ground arith;
    full = λ j p q. absurd (omega arith);
  })
]
  where
    later :
        (0xff == m.bits i) ≡ true
        → FirstByte m (i + 1) left (first_byte m (i + 1) left)
        → FirstByte m i (suc left) (first_byte m (i + 1) left)
    later e h = record {
      from = omega arith;
      upto = omega arith;
      stops = λ p. h.stops (omega arith);
      full = λ j p q. elim (Bool-cases (i == j)) [
        | inl same ↦ ground arith
        | inr other ↦ h.full j (ground arith) q
      ];
    }

-- The second loop, at every byte that is not full: it stops at the lowest clear bit.
bits_below : ℕ → ℕ → Bool
bits_below b k = holds_below k (λ j. bit b j)

lowest : ℕ → ℕ → Bool
lowest b k = ltb k 8 && not (bit b k) && bits_below b k

lowest_table : holds_below 256 (λ b. if b == 255 then true else lowest b (first_bit b 0 8)) ≡ true
unfolding holds_below lowest first_bit bits_below bit
lowest_table = refl

record Lowest (b k : ℕ) : Type 0 where
  inside : k < 8
  clear : bit b k ≡ false
  below : (j : ℕ) → j < k → bit b j ≡ true

lowest_sound : (b k : ℕ) → lowest b k ≡ true → Lowest b k
unfolding lowest bits_below
lowest_sound b k h = record {
  inside = ground arith;
  clear = ground arith;
  below = λ j p. holds_below_lem k (λ j. bit b j) j (ground arith) p;
}

first_bit_lem : (b : ℕ) → b < 256 → b ≢ 255 → Lowest b (first_bit b 0 8)
first_bit_lem b hb ne = lowest_sound b (first_bit b 0 8) (here (first_bit b 0 8) checked)
  where
    checked : (if b == 255 then true else lowest b (first_bit b 0 8)) ≡ true
    checked =
        holds_below_lem 256 (λ b. if b == 255 then true else lowest b (first_bit b 0 8)) b
          lowest_table hb

    here : (k : ℕ) → (if b == 255 then true else lowest b k) ≡ true → lowest b k ≡ true
    here k h = ground arith

pub full_byte : (k : ℕ) → k < 8 → bit 255 k ≡ true
unfolding bit
full_byte k h = holds_below_lem 8 (λ j. bit 255 j) k table h
  where
    table : holds_below 8 (λ j. bit 255 j) ≡ true
    table = unfold holds_below in refl

index_div : (r k : ℕ) → k < 8 → (r * 8 + k) / 8 ≡ r
index_div r k h = omega arith

index_mod : (r k : ℕ) → k < 8 → (r * 8 + k) % 8 ≡ k
index_mod r k h = omega arith

byte_of : (r j : ℕ) → r * 8 ≤ j → j < r * 8 + 8 → j / 8 ≡ r
byte_of r j p q = omega arith

-- `bitmap_scan` as its first loop ends.
pub scan_full :
    (m : Bitmap) (cnt : ℕ) → first_byte m 0 m.btmp_bytes_len ≡ m.btmp_bytes_len → scan m cnt ≡ panic
unfolding scan
scan_full m cnt e = ground arith

pub scan_found :
    (m : Bitmap) (cnt : ℕ)
    → first_byte m 0 m.btmp_bytes_len < m.btmp_bytes_len
    → let from = start m (first_byte m 0 m.btmp_bytes_len) in
      scan m cnt ≡ ok (if cnt == 1 then some from else find_run m cnt (total m - from) (from + 1) 1)
unfolding scan
scan_found m cnt h = ground arith

-- `i` is the lowest clear bit of the map.
pub record Starts (m : Bitmap) (i : ℕ) : Type 0 where
  pub inside : i < total m
  pub clear : scan_test m i ≡ false
  pub below : (j : ℕ) → j < i → scan_test m j ≡ true

module _ (m : Bitmap) (bytes : IsBytes m) where
  -- All the bits of full bytes are set.
  used_below : (i j : ℕ) → ((k : ℕ) → k < i → m.bits k ≡ 255) → j < i * 8 → scan_test m j ≡ true
  unfolding scan_test
  used_below i j full h = rw (full (j / 8) (omega arith)) (full_byte (j % 8) (omega arith))

  -- What the first two loops find: that the map is full, or its lowest clear bit.
  abbrev pub Searched : ℕ → Type 0
  Searched r =
      (r ≡ m.btmp_bytes_len) × ((j : ℕ) → j < total m → scan_test m j ≡ true)
      ⊎ (r < m.btmp_bytes_len) × Starts m (start m r)

  at_byte : (r : ℕ) → FirstByte m 0 m.btmp_bytes_len r → r < m.btmp_bytes_len → Starts m (start m r)
  unfolding start scan_test
  at_byte r found h = record {
    inside = omega (arith, low.inside);
    clear = rw (index_div r _ low.inside, index_mod r _ low.inside) low.clear;
    below = λ j p. elim (Bool-cases (ltb j (r * 8))) [
      | inl e ↦ used_below r j (λ k q. found.full k (omega arith) q) (ground arith)
      | inr e ↦
          rw (byte_of r j (ground arith) (omega (arith, low.inside)))
            (low.below (j % 8) (ground (arith, low.inside)))
    ];
  }
    where
      low : Lowest (m.bits r) (first_bit (m.bits r) 0 8)
      low = first_bit_lem (m.bits r) (bytes r) (found.stops (omega arith))

  pub search : Searched (first_byte m 0 m.btmp_bytes_len)
  search = elim (Bool-cases (ltb r m.btmp_bytes_len)) [
    | inl e ↦ inr (ltb→lt _ _ e, at_byte r found (ltb→lt _ _ e))
    | inr e ↦ inl (
      ground (arith, found.upto),
      λ j h. used_below r j (λ k p. found.full k (omega arith) p) (ground (arith, found.upto)),
    )
  ]
    where
      r : ℕ
      r = first_byte m 0 m.btmp_bytes_len

      found : FirstByte m 0 m.btmp_bytes_len (first_byte m 0 m.btmp_bytes_len)
      found = first_byte_lem m 0 m.btmp_bytes_len

  -- What a call of `bitmap_scan` for one bit may come to.
  abbrev pub FirstFit : Res (Option ℕ) → Type 0
  FirstFit (ok (some i)) = Starts m i
  FirstFit (ok none) = ⊥
  FirstFit panic = (j : ℕ) → j < total m → scan_test m j ≡ true

  -- `bitmap_scan` for one bit finds the lowest clear bit of the map; it never returns -1, since
  -- where every bit of the map is set its assertion fails.
  pub scan-FirstFit : FirstFit (scan m 1)
  scan-FirstFit = elim search [
    | inl (e, full) ↦ rw (scan_full m 1 e) full
    | inr (h, starts) ↦ rw (scan_found m 1 h) starts
  ]
