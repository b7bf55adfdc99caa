-- ===== src/Bitmap/Runs.antt =====
-- The third loop of `bitmap_scan`: the search for a run of clear bits.
use mathlib.Core.Path.{subst}
use sparrow_os.Base.{
  ℕ, zero, suc, ◌+◌, ◌-◌, ◌≤◌, ◌<◌, ◌≡◌, refl, ◌⊎◌, inl, inr, true, false, none, some, Option, Res,
  ok, panic, arith, ltb, ◌==◌, Bool-cases, ltb→lt,
}
use sparrow_os.Bitmap.{Bitmap, total, scan_test, first_byte, start, scan, find_run}
use sparrow_os.Bitmap.Bits.{IsBytes}
use sparrow_os.Bitmap.Scan.{Starts, search, scan_full, scan_found}

module _ (m : Bitmap) where
  -- The bits from `s` on, `n` of them, are clear.
  abbrev pub Clear : ℕ → ℕ → Type 0
  Clear s n = (j : ℕ) → s ≤ j → j < s + n → scan_test m j ≡ false

  module _ (cnt : ℕ) where
    -- The `count` bits before `next` are clear, and no longer run ends there.
    record Counted (next count : ℕ) : Type 0 where
      short : count < cnt
      room : count ≤ next
      clear : (j : ℕ) → next ≤ j + count → j < next → scan_test m j ≡ false
      edge : (j : ℕ) → j + suc count ≡ next → scan_test m j ≡ true
      past : (s : ℕ) → s + cnt ≤ next → ¬ Clear s cnt

    abbrev Found : ℕ → ℕ → ℕ → Option ℕ → Type 0
    Found next count left (some s) = Clear s cnt × (next ≤ s + cnt) × (s + cnt ≤ next + left)
    Found next count left none = (s : ℕ) → s + cnt ≤ next + left → ¬ Clear s cnt

    Found-suc :
        (next count count' left : ℕ) (o : Option ℕ)
        → Found (next + 1) count' left o
        → Found next count (suc left) o
    Found-suc next count count' left none f = λ s h. f s (omega arith)
    Found-suc next count count' left (some s) f = (f.0, omega arith, omega arith)

    -- A set bit ends the run, a clear one makes it longer.
    Counted-zero :
        (next count : ℕ) → Counted next count → scan_test m next ≡ true → Counted (next + 1) 0
    Counted-zero next count c e = record {
      short = omega (arith, c.short);
      room = omega arith;
      clear = λ j p q. absurd (omega arith);
      edge = λ j p. let same : j ≡ next = omega arith in rw same e;
      past = λ s h clear. elim (Bool-cases (s + cnt == next + 1)) [
        | inl last ↦ cc (e, clear next (ground (arith, c.short)) (ground (arith, c.short)))
        | inr before ↦ c.past s (ground arith) clear
      ];
    }

    Counted-suc :
        (next count : ℕ)
        → Counted next count
        → scan_test m next ≡ false
        → count + 1 < cnt
        → Counted (next + 1) (count + 1)
    Counted-suc next count c e h = record {
      short = h;
      room = omega (arith, c.room);
      clear = λ j p q. elim (Bool-cases (j == next)) [
        | inl same ↦ let k : j ≡ next = ground arith in rw k e
        | inr other ↦ c.clear j (omega arith) (ground arith)
      ];
      edge = λ j p. c.edge j (omega arith);
      past = λ s p clear. elim (Bool-cases (s + cnt == next + 1)) [
        | inl last ↦
            let j : ℕ = next - suc count in
            cc (c.edge j (ground arith), clear j (ground arith) (ground arith))
        | inr before ↦ c.past s (ground arith) clear
      ];
    }

    zeros_run :
        (next count : ℕ)
        → Counted next count
        → scan_test m next ≡ false
        → count + 1 ≡ cnt
        → Clear (next + 1 - cnt) cnt
    zeros_run next count c e h j p q = elim (Bool-cases (j == next)) [
      | inl same ↦ let k : j ≡ next = ground arith in rw k e
      | inr other ↦ c.clear j (omega arith) (ground (arith, c.room))
    ]

    find_run_lem :
        (left next count : ℕ)
        → Counted next count
        → Found next count left (find_run m cnt left next count)
    unfolding find_run
    find_run_lem zero next count c = λ s h. c.past s (omega arith)
    find_run_lem (suc left) next count c = elim (Bool-cases (scan_test m next)) [
      | inl e ↦ rw e (elim (Bool-cases (0 == cnt)) [
        | inl z ↦ absurd (ground (arith, c.short))
        | inr z ↦ rw z (
            Found-suc next count 0 left _
              (find_run_lem left (next + 1) 0 (Counted-zero next count c e)))
      ])
      | inr e ↦ rw e (elim (Bool-cases (count + 1 == cnt)) [
        | inl z ↦
            let k : count + 1 ≡ cnt = ground arith in
            rw z (zeros_run next count c e k, omega arith, ground (arith, c.room))
        | inr z ↦ rw z (
            Found-suc next count (count + 1) left _ (
              find_run_lem left (next + 1) (count + 1)
                (Counted-suc next count c e (ground (arith, c.short)))))
      ])
    ]

    -- At the start of the third loop the one bit found so far is counted.
    Counted-start : (i : ℕ) → 2 ≤ cnt → Starts m i → Counted (i + 1) 1
    Counted-start i h st = record {
      short = h;
      room = omega arith;
      clear = λ j p q. let same : j ≡ i = omega arith in rw same st.clear;
      edge = λ j p. st.below j (omega arith);
      past = λ s p clear. cc (st.below s (omega arith), clear s (omega arith) (omega arith));
    }

  module _ (bytes : IsBytes m) (cnt : ℕ) (two : 2 ≤ cnt) where
    -- What a call of `bitmap_scan` for two or more bits may come to.
    abbrev pub RunFound : Res (Option ℕ) → Type 0
    RunFound (ok (some s)) = Clear s cnt × (s + cnt ≤ total m + 1)
    RunFound (ok none) = (s : ℕ) → s + cnt ≤ total m + 1 → ¬ Clear s cnt
    RunFound panic = (j : ℕ) → j < total m → scan_test m j ≡ true

    RunFound-Found :
        (i : ℕ) (o : Option ℕ) → i < total m → Found cnt (i + 1) 1 (total m - i) o → RunFound (ok o)
    RunFound-Found i none h f = λ s p. f s (omega arith)
    RunFound-Found i (some s) h f = (f.0, omega arith)

    -- `bitmap_scan` for two or more bits returns the start of a run of that many clear bits, or -1
    -- where the map and the one bit behind it hold no such run; its assertion fails where every
    -- bit of the map is set. A run that it returns may take in the bit behind the map.
    pub scan-RunFound : RunFound (scan m cnt)
    scan-RunFound = elim (search m bytes) [
      | inl (e, full) ↦ rw (scan_full m cnt e) full
      | inr (h, st) ↦
          let i = start m (first_byte m 0 m.btmp_bytes_len) in
          let many : (cnt == 1) ≡ false = ground arith in
          rw (scan_found m cnt h, many)
            (RunFound-Found i _ st.inside
              (find_run_lem cnt (total m - i) (i + 1) 1 (Counted-start cnt i two st)))
    ]

    -- Where the bit behind the map is set, the run lies in the map.
    pub scan-inside :
        (s : ℕ)
        → scan_test m (total m) ≡ true
        → scan m cnt ≡ ok (some s)
        → Clear s cnt × (s + cnt ≤ total m)
    scan-inside s last e = (run.0, inside (Bool-cases (s + cnt == total m + 1)))
      where
        run : Clear s cnt × (s + cnt ≤ total m + 1)
        run = subst RunFound e scan-RunFound

        inside :
            ((s + cnt == total m + 1) ≡ true) ⊎ ((s + cnt == total m + 1) ≡ false)
            → s + cnt ≤ total m
        inside (inl e) = absurd (cc (last, run.0 (total m) (ground arith) (ground arith)))
        inside (inr e) = ground (arith, run.1)

    -- Where the map holds a run that is long enough, `bitmap_scan` returns one.
    pub scan-some : (s : ℕ) → s + cnt ≤ total m → Clear s cnt → (r : ℕ) × (scan m cnt ≡ ok (some r))
    scan-some s h clear = go (scan m cnt) refl scan-RunFound
      where
        go :
            (o : Res (Option ℕ))
            → scan m cnt ≡ o
            → RunFound o
            → (r : ℕ) × (scan m cnt ≡ ok (some r))
        go (ok (some r)) e f = (r, e)
        go (ok none) e f = absurd (f s (omega arith) clear)
        go panic e f = absurd (cc (f s (omega arith), clear s (omega arith) (omega arith)))

  module _ (bytes : IsBytes m) where
    -- A free last bit and a clear bit behind the map pass for a run of two.
    pub scan-overrun :
        (i : ℕ)
        → i + 1 ≡ total m
        → ((j : ℕ) → j < i → scan_test m j ≡ true)
        → scan_test m i ≡ false
        → scan_test m (total m) ≡ false
        → (scan m 2 ≡ ok (some i)) × (total m < i + 2)
    scan-overrun i size below free behind = (go (scan m 2) refl found, omega arith)
      where
        found : RunFound bytes 2 (omega arith) (scan m 2)
        found = scan-RunFound bytes 2 (omega arith)

        pair : Clear i 2
        pair j p q = elim (Bool-cases (j == i)) [
          | inl same ↦ let k : j ≡ i = ground arith in rw k free
          | inr other ↦ let k : j ≡ total m = ground arith in rw k behind
        ]

        at : (r : ℕ) → Clear r 2 → r + 2 ≤ total m + 1 → r ≡ i
        at r clear p = elim (Bool-cases (ltb r i)) [
          | inl less ↦ absurd (cc (below r (ltb→lt _ _ less), clear r (omega arith) (omega arith)))
          | inr other ↦ ground arith
        ]

        go :
            (o : Res (Option ℕ))
            → scan m 2 ≡ o
            → RunFound bytes 2 (omega arith) o
            → scan m 2 ≡ ok (some i)
        go (ok (some r)) e f = cc (at r f.0 f.1)
        go (ok none) e f = absurd (f i (omega arith) pair)
        go panic e f = absurd (cc (f i (omega arith), free))
