-- ===== src/Redis/Glob.antt =====
-- `string_match_len` of raft-kv/server/redis_store.cpp, which `KEYS` calls with `nocase` 0. A pattern
-- is the bytes from its pointer on, as many as its length; the byte after them is 0, as hiredis and
-- `std::string` end their strings, so a look past the end finds none of the special characters.
pub mod Fuel
pub mod Reference
use raft_etcd.Common.{
  ℕ, zero, suc, ◌+◌, ◌%◌, Bool, true, false, not, ◌&&◌, ◌||◌, List, [], ◌∷◌, length, is_empty, ltb,
  leb, ◌==◌, if◌then◌else◌,
}

-- `while (pattern[0] == '*')`.
unfoldable pub skip_stars : List ℕ → List ℕ
skip_stars [] = []
skip_stars (a ∷ p) = let rest = skip_stars p in if a == b'*' then rest else a ∷ p

-- `char` is signed: the bytes from 128 on come before the others.
unfoldable pub char_order : ℕ → ℕ
char_order c = (c + 128) % 256

-- A range `a-d`, whose ends may come in either order.
unfoldable pub in_range : ℕ → ℕ → ℕ → Bool
unfolding char_order
in_range a d c =
    if ltb (char_order d) (char_order a)
    then leb (char_order d) (char_order c) && leb (char_order c) (char_order a)
    else leb (char_order a) (char_order c) && leb (char_order c) (char_order d)

-- The loop over `[...]`: whether a byte matches, and the pattern after the class. A class that is
-- not closed ends with the pattern.
unfoldable pub in_class : ℕ → Bool → List ℕ → Bool × List ℕ
unfolding in_range
in_class c found [] = (found, [])
in_class c found (a ∷ []) = if a == b']' then (found, []) else (found || (a == c), [])
in_class c found (a ∷ b ∷ []) = elim (a == b'\\') [
  | true ↦ (found || (b == c), [])
  | false ↦ elim (a == b']') [
    | true ↦ (found, b ∷ [])
    | false ↦ in_class c (found || (a == c)) (b ∷ [])
  ]
]
in_class c found (a ∷ b ∷ d ∷ p) = elim (a == b'\\') [
  | true ↦ in_class c (found || (b == c)) (d ∷ p)
  | false ↦ elim (a == b']') [
    | true ↦ (found, b ∷ d ∷ p)
    | false ↦ elim (b == b'-') [
      | true ↦ in_class c (found || in_range a d c) p
      | false ↦ in_class c (found || (a == c)) (b ∷ d ∷ p)
    ]
  ]
]

-- `case '['`, with the negation by `^`.
unfoldable pub match_class : ℕ → List ℕ → Bool × List ℕ
unfolding in_class
match_class c [] = in_class c false []
match_class c (a ∷ p) = elim (a == b'^') [
  | true ↦ let (found, rest) = in_class c false p in (not found, rest)
  | false ↦ in_class c false (a ∷ p)
]

-- The loop of `case '*'` over the ends of the string.
unfoldable pub any_suffix : (List ℕ → Bool) → List ℕ → Bool
any_suffix f [] = false
any_suffix f (c ∷ s) = elim (f (c ∷ s)) [ true ↦ true | false ↦ any_suffix f s ]

-- The end of a round: stars may be left when the string is at its end.
abbrev pub after_round : (List ℕ → List ℕ → Bool) → List ℕ → List ℕ → Bool
after_round more p [] = is_empty (skip_stars p)
after_round more p (c ∷ s) = more p (c ∷ s)

-- `case '\\'`: the byte after it, or itself at the end of the pattern.
abbrev pub match_escaped : (List ℕ → List ℕ → Bool) → List ℕ → ℕ → List ℕ → Bool
match_escaped more [] c s = if b'\\' == c then after_round more [] s else false
match_escaped more (b ∷ p) c s = if b == c then after_round more p s else false

-- `case '['`, and the rest of the round.
abbrev pub match_bracket : (List ℕ → List ℕ → Bool) → List ℕ → ℕ → List ℕ → Bool
match_bracket more p c s =
    if (match_class c p).0 then after_round more (match_class c p).1 s else false

-- One round, at the first byte `a` of the pattern and `c` of the string.
abbrev pub match_round : (List ℕ → List ℕ → Bool) → ℕ → List ℕ → ℕ → List ℕ → Bool
match_round more a p c s =
    if a == b'*'
    then if is_empty (skip_stars p) then true else any_suffix (λ t. more (skip_stars p) t) (c ∷ s)
    else if a == b'?'
    then after_round more p s
    else if a == b'['
    then match_bracket more p c s
    else if a == b'\\'
    then match_escaped more p c s
    else if a == c
    then after_round more p s
    else false

-- The calls and rounds: each shortens the pattern, so its length and one more is enough fuel. What is
-- answered without fuel is an argument.
unfoldable pub match_from : Bool → ℕ → List ℕ → List ℕ → Bool
unfolding skip_stars match_class any_suffix
match_from out zero p s = out
match_from out (suc n) [] s = is_empty s
match_from out (suc n) (a ∷ p) [] = false
match_from out (suc n) (a ∷ p) (c ∷ s) = match_round (λ q t. match_from out n q t) a p c s

unfoldable pub string_match_len : List ℕ → List ℕ → Bool
unfolding match_from
string_match_len p s = match_from false (suc (length p)) p s
