-- ===== src/Text/Defs.antt =====
-- Bytes, their tests, and `strings.ToLower`, `TrimSpace`, `Split`, `LastIndexByte` and the rest.
use Prim.Native.Char.{code}
use Prim.Native.String.{String}
use mailclear.Base.{
  ℕ, zero, suc, ◌+◌, ◌/◌, ◌%◌, Bool, true, false, ◌&&◌, ◌||◌, List, [], ◌∷◌, ◌++◌, map, Option,
  none, some, ltb, leb, ◌==◌, if◌then◌else◌,
}

-- a Go string: its bytes
abbrev pub Text : Type 0
Text = List ℕ

-- the UTF-8 encoding of one code point
utf8_char : ℕ → Text
utf8_char c =
    if ltb c 0x80
    then c ∷ []
    else if ltb c 0x800
    then (0xc0 + c / 64) ∷ (0x80 + c % 64) ∷ []
    else if ltb c 0x10000
    then (0xe0 + c / 4096) ∷ (0x80 + c / 64 % 64) ∷ (0x80 + c % 64) ∷ []
    else (0xf0 + c / 262144) ∷ (0x80 + c / 4096 % 64) ∷ (0x80 + c / 64 % 64) ∷ (0x80 + c % 64) ∷ []

-- a string literal of the source
unfoldable pub lit : String → Text
unfolding utf8_char
lit String.[] = []
lit (String.◌∷◌ c s) = utf8_char (code c) ++ lit s

-- `==` on strings
unfoldable pub text_eq : Text → Text → Bool
text_eq [] [] = true
text_eq [] (_ ∷ _) = false
text_eq (_ ∷ _) [] = false
text_eq (a ∷ s) (b ∷ t) = (a == b) && text_eq s t

abbrev pub is_empty : Text → Bool
is_empty [] = true
is_empty (_ ∷ _) = false

-- every byte is below `utf8.RuneSelf`
unfoldable pub is_ascii : Text → Bool
is_ascii [] = true
is_ascii (c ∷ s) = ltb c 0x80 && is_ascii s

unfoldable pub lower_byte : ℕ → ℕ
lower_byte c = if leb b'A' c && leb c b'Z' then c + 32 else c

-- `asciiSpace` of the `strings` package
unfoldable pub is_space : ℕ → Bool
is_space c = (leb 9 c && leb c 13) || (c == 32)

unfoldable pub trim_left : Text → Text
trim_left [] = []
trim_left (c ∷ s) = let rest = trim_left s in if is_space c then rest else c ∷ s

unfoldable pub trim_right : Text → Text
trim_right [] = []
trim_right (c ∷ s) = let rest = trim_right s in if is_space c && is_empty rest then [] else c ∷ rest

-- What the two functions do where a byte is not ASCII rests on the Unicode tables, which are a
-- parameter; on ASCII texts both are exact.
pub record Unicode : Type 0 where
  pub lower : Text → Text
  pub trim : Text → Text

module _ (u : Unicode) where
  -- `strings.ToLower`
  unfoldable pub to_lower : Text → Text
  to_lower s = if is_ascii s then map lower_byte s else u.lower s

  -- `strings.TrimSpace`
  unfoldable pub trim_space : Text → Text
  trim_space s = if is_ascii s then trim_left (trim_right s) else u.trim s

-- `strings.LastIndexByte`, whose -1 is `none`
unfoldable pub last_index_byte : Text → ℕ → Option ℕ
last_index_byte [] b = none
last_index_byte (c ∷ s) b = elim (last_index_byte s b) [
  | some i ↦ some (suc i)
  | none ↦ if c == b then some 0 else none
]

-- `strings.IndexByte`
unfoldable pub index_byte : Text → ℕ → Option ℕ
index_byte [] b = none
index_byte (c ∷ s) b =
    let rest = index_byte s b in
    if c == b then some 0 else elim rest [ some i ↦ some (suc i) | none ↦ none ]

-- `strings.HasPrefix(s, p)`
unfoldable pub has_prefix : Text → Text → Bool
has_prefix s [] = true
has_prefix [] (_ ∷ _) = false
has_prefix (a ∷ s) (b ∷ p) = (a == b) && has_prefix s p

-- `strings.HasSuffix(s, p)`
unfoldable pub has_suffix : Text → Text → Bool
has_suffix [] p = is_empty p
has_suffix (a ∷ s) p = text_eq (a ∷ s) p || has_suffix s p

-- `strings.Contains(s, p)`
unfoldable pub contains : Text → Text → Bool
contains [] p = is_empty p
contains (a ∷ s) p = has_prefix (a ∷ s) p || contains s p

unfoldable pub onto_first : ℕ → List Text → List Text
onto_first c [] = (c ∷ []) ∷ []
onto_first c (l ∷ ls) = (c ∷ l) ∷ ls

-- `strings.Split(s, b)` at a separator of one byte
unfoldable pub split : ℕ → Text → List Text
unfolding onto_first
split b [] = [] ∷ []
split b (c ∷ s) = let rest = split b s in if c == b then [] ∷ rest else onto_first c rest

-- `strings.ReplaceAll(s, b, "")` for one byte
unfoldable pub remove_byte : ℕ → Text → Text
remove_byte b [] = []
remove_byte b (c ∷ s) = if c == b then remove_byte b s else c ∷ remove_byte b s

-- `_, ok := set[s]` on a `map[string]struct{}`
unfoldable pub member : Text → List Text → Bool
member s [] = false
member s (t ∷ ts) = text_eq s t || member s ts

-- `set[s] = struct{}{}`
unfoldable pub insert : Text → List Text → List Text
insert s ts = if member s ts then ts else ts ++ (s ∷ [])

-- the decimal digits of a number, as `%d` prints them; each digit takes one unit of fuel
unfoldable pub digits : ℕ → ℕ → Text
digits zero n = []
digits (suc fuel) n =
    let rest = digits fuel (n / 10) in
    if ltb n 10 then (48 + n) ∷ [] else rest ++ ((48 + n % 10) ∷ [])

unfoldable pub decimal : ℕ → Text
unfolding digits
decimal n = digits (suc n) n

-- `strings.TrimSuffix(s, b)` at a suffix of one byte
unfoldable pub trim_suffix : ℕ → Text → Text
trim_suffix b [] = []
trim_suffix b (c ∷ s) =
    let rest = trim_suffix b s in if (c == b) && is_empty s then [] else c ∷ rest
