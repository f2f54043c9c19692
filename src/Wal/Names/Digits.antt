-- ===== src/Wal/Names/Digits.antt =====
-- The names of files that raft-kv/wal/wal.cpp makes are read back by it.
use native.Mathlib.Nat.{div-div-eq-div-mul, pow-suc}
use raft_etcd.Common.{
  ℕ, zero, suc, ◌+◌, ◌-◌, ◌*◌, ◌/◌, ◌%◌, ◌^◌, ◌<◌, ◌≡◌, refl, ap, sym, ◌∙◌, false, List, [], ◌∷◌,
  ◌++◌, some, arith, length, length-append, take-append, drop-append, ◌==◌, is_empty,
}
use raft_etcd.Common.Maps.{same_bytes_iff}
use raft_etcd.Snap.{hex_digit, hex_digits}
use raft_etcd.Wal.Names.{
  dot_wal, wal_name, hex_value, scan_digits, scan_hex, split_dash, prepend, parse_parts,
  parse_wal_name,
}

hex_value-hex_digit : (d : ℕ) → d < 16 → hex_value (hex_digit d) ≡ some d
unfolding hex_value hex_digit
hex_value-hex_digit d h = ground (arith, h)

scan_step :
    (acc c d : ℕ) (cs : List ℕ)
    → hex_value c ≡ some d
    → scan_digits acc (c ∷ cs) ≡ scan_digits (acc * 16 + d) cs
unfolding scan_digits
scan_step acc c d cs e = ground (arith, e)

scan_digits-hex_digits : (k n : ℕ) → scan_digits (n / 16 ^ k) (hex_digits k n) ≡ n
unfolding scan_digits hex_digits
scan_digits-hex_digits zero n = omega arith
scan_digits-hex_digits (suc k) n =
    scan_step (n / 16 ^ suc k) (hex_digit (n / 16 ^ k % 16)) (n / 16 ^ k % 16) (hex_digits k n)
      (hex_value-hex_digit (n / 16 ^ k % 16) (omega arith))
    ∙ (ap (λ a. scan_digits a (hex_digits k n)) (next_value (n / 16 ^ k) (n / 16 ^ suc k) shifted)
        ∙ scan_digits-hex_digits k n)
  where
    shifted : n / 16 ^ suc k ≡ n / 16 ^ k / 16
    shifted = ap (λ d. n / d) (pow-suc 16 k) ∙ sym (div-div-eq-div-mul n (16 ^ k) 16)

    next_value : (m q : ℕ) → q ≡ m / 16 → q * 16 + m % 16 ≡ m
    next_value m q e = omega (arith, e)

scan_hex-hex_digits : (n : ℕ) → n < 2 ^ 64 → scan_hex (hex_digits 16 n) ≡ n
unfolding scan_hex
scan_hex-hex_digits n h = rw (← (zero_high n h)) (rw (scan_digits-hex_digits 16 n) (omega arith))
  where
    zero_high : (n : ℕ) → n < 2 ^ 64 → n / 16 ^ 16 ≡ 0
    zero_high n h = omega arith

hex_digit_not_dash : (d : ℕ) → d < 16 → (hex_digit d == b'-') ≡ false
unfolding hex_digit
hex_digit_not_dash d h = ground (arith, h)

split_step :
    (c : ℕ) (cs : List ℕ) → (c == b'-') ≡ false → split_dash (c ∷ cs) ≡ prepend c (split_dash cs)
unfolding split_dash
split_step c cs e = rw e refl

split_here : (rest : List ℕ) → split_dash (b'-' ∷ rest) ≡ some ([], rest)
unfolding split_dash
split_here rest = refl

split_dash-hex_digits :
    (k n : ℕ) (rest : List ℕ)
    → split_dash (hex_digits k n ++ b'-' ∷ rest) ≡ some (hex_digits k n, rest)
unfolding hex_digits
split_dash-hex_digits zero n rest = split_here rest
split_dash-hex_digits (suc k) n rest =
    split_step (hex_digit (n / 16 ^ k % 16)) (hex_digits k n ++ b'-' ∷ rest)
      (hex_digit_not_dash (n / 16 ^ k % 16) (omega arith))
    ∙ ap (λ o. prepend (hex_digit (n / 16 ^ k % 16)) o) (split_dash-hex_digits k n rest)

parse_wal_name-append :
    (name : List ℕ) → parse_wal_name (name ++ dot_wal) ≡ parse_parts (split_dash name)
unfolding parse_wal_name
parse_wal_name-append name =
    rw (length-append name dot_wal, plus_minus (length name))
      (rw (drop-append (length name) name dot_wal refl, take-append (length name) name dot_wal refl)
        (ground (arith, same_bytes_iff dot_wal dot_wal)))
  where
    plus_minus : (n : ℕ) → n + 4 - 4 ≡ n
    plus_minus n = omega arith

is_empty-hex_digits : (k n : ℕ) → is_empty (hex_digits (suc k) n) ≡ false
unfolding hex_digits
is_empty-hex_digits k n = refl

parts :
    (seq index : ℕ)
    → seq < 2 ^ 64
    → index < 2 ^ 64
    → parse_parts (some (hex_digits 16 seq, hex_digits 16 index)) ≡ some (seq, index)
parts seq index h k =
    rw (is_empty-hex_digits 15 index, scan_hex-hex_digits seq h, scan_hex-hex_digits index k) refl

-- The name that `wal_name` makes of two 64-bit numbers, a sequence number and an index, is read by
-- `parse_wal_name` as these two numbers.
pub parse_wal_name-wal_name :
    (seq index : ℕ)
    → seq < 2 ^ 64
    → index < 2 ^ 64
    → parse_wal_name (wal_name seq index) ≡ some (seq, index)
unfolding wal_name
parse_wal_name-wal_name seq index h k =
    parse_wal_name-append (hex_digits 16 seq ++ b'-' ∷ hex_digits 16 index)
    ∙ ap parse_parts (split_dash-hex_digits 16 seq (hex_digits 16 index))
    ∙ parts seq index h k
