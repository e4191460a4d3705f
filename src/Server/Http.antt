-- ===== src/Server/Http.antt =====
-- What the handlers of internal/server/handlers share: replies, and the numbers of a query.
pub mod Numbers
use mailclear.Base.{
  ℕ, zero, suc, ◌+◌, ◌-◌, ◌*◌, ◌%◌, Bool, true, false, ◌&&◌, ◌||◌, List, [], ◌∷◌, Option, none,
  some, ltb, leb, ◌==◌, if◌then◌else◌,
}
use mailclear.Base.Int.{ℤ, pos, negsuc, sub_ℕ}
use mailclear.Text.{Text, lit, is_empty}

-- `WriteError` with its status and code, or `WriteJSON` with its status and value
pub data Reply (A : Type 0) : Type 0 where
  refuse : ℕ → Text → Reply A
  answer : ℕ → A → Reply A

-- the digits of `strconv.Atoi`; `none` is its error
unfoldable pub parse_digits : ℕ → Text → Option ℕ
parse_digits acc [] = some acc
parse_digits acc (c ∷ s) =
    let rest = parse_digits (acc * 10 + (c - 48)) s in if leb 48 c && leb c 57 then rest else none

-- the value of `strconv.Atoi` from a sign and digits, out of the range of 64 bits `none`
unfoldable pub signed : (minus : Bool) → Text → Option ℤ
unfolding parse_digits
signed minus [] = none
signed minus (c ∷ s) = elim (parse_digits 0 (c ∷ s)) [
  | none ↦ none
  | some n ↦
      if minus
      then if leb n 0x8000000000000000 then some (sub_ℕ 0 n) else none
      else if ltb n 0x8000000000000000
      then some (pos n)
      else none
]

-- `strconv.Atoi`
unfoldable pub atoi : Text → Option ℤ
unfolding signed
atoi [] = none
atoi (c ∷ s) =
    if c == 45 then signed true s else if c == 43 then signed false s else signed false (c ∷ s)

-- `parseIntDefault`, whose default is not negative
unfoldable pub parse_int_default : Text → (default max : ℕ) → ℕ
unfolding atoi
parse_int_default s default max = if is_empty s then default else elim (atoi s) [
  | none ↦ default
  | some (negsuc _) ↦ default
  | some (pos v) ↦ if ltb 0 max && ltb max v then max else v
]

-- the conversion to `int32` of a number that is not negative
unfoldable pub int32 : ℕ → ℤ
int32 n = let q = n % 0x100000000 in if ltb q 0x80000000 then pos q else negsuc (0xffffffff - q)
