-- ===== src/Atoi.antt =====
-- `int`, of 64 bits, and what the program uses of strconv.
use scoreplay_media_api.Prelude.{
  ℕ, zero, suc, ◌+◌, ◌-◌, ◌*◌, ◌^◌, Bool, true, false, not, ◌&&◌, [], ◌∷◌, Option, none, some, Text,
  is_empty, ltb, leb, if◌then◌else◌, ◌==◌,
}

pub data ℤ : Type 0 where
  pos : ℕ → ℤ
  negsuc : ℕ → ℤ

abbrev pub is_digit : ℕ → Bool
is_digit c = leb b'0' c && leb c b'9'

-- The value of some digits, after those that are read already. A value that needs more than 64 bits
-- ends the reading, whatever follows.
unfoldable pub read_digits : ℕ → Text → Option ℕ
read_digits n [] = some n
read_digits n (c ∷ s) =
    let next = 10 * n + (c - b'0') in
    let rest = read_digits next s in
    if not (is_digit c) then none else if leb (2 ^ 64) next then some next else rest

unfoldable pub magnitude : Text → Option ℕ
magnitude s = if is_empty s then none else read_digits 0 s

abbrev max_int : ℕ
max_int = 9_223_372_036_854_775_807

abbrev negative : ℕ → ℤ
negative zero = pos zero
negative (suc n) = negsuc n

-- A number that is out of range is an error, with the nearest number as value.
abbrev pub positive_int : Option ℕ → ℤ × Bool
positive_int none = (pos 0, false)
positive_int (some n) = if ltb max_int n then (pos max_int, false) else (pos n, true)

abbrev pub negative_int : Option ℕ → ℤ × Bool
negative_int none = (pos 0, false)
negative_int (some n) =
    if ltb (max_int + 1) n then (negative (max_int + 1), false) else (negative n, true)

-- `strconv.Atoi`: the value, and whether the error is nil.
unfoldable pub atoi : Text → ℤ × Bool
atoi [] = (pos 0, false)
atoi (c ∷ s) =
    if c == b'-'
    then negative_int (magnitude s)
    else positive_int (magnitude (if c == b'+' then s else c ∷ s))
