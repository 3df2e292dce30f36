-- ===== src/Text.antt =====
-- The functions of Go's `strings` package that the configuration uses, over the code points of a text:
-- `Split` and `Cut` at one ASCII character, and `TrimSpace`.
pub mod Laws
use Prim.Native.Char.{Char, code}
use Prim.Native.Nat.{Ordering}
use Prim.Native.String.{◌∷◌ as cons, ◌++◌ as str_append, compare}
use digitalocean_exporter.Base.{
  zero, suc, ◌/◌, ◌%◌, ltb, ℤ, pos, negsuc, Option, none, some, get_elem?, ℕ, ◌+◌, String,
  string_eq, nat_eq, Bool, true, false, ◌&&◌, ◌||◌, List, [], ◌∷◌, leb, ◌==◌, if◌then◌else◌,
}

-- `unicode.IsSpace`
unfoldable pub is_space : ℕ → Bool
is_space c =
    (leb 9 c && leb c 13)
    || c == 32
    || c == 0x85
    || c == 0xa0
    || c == 0x1680
    || (leb 0x2000 c && leb c 0x200a)
    || c == 0x2028
    || c == 0x2029
    || c == 0x202f
    || c == 0x205f
    || c == 0x3000

abbrev pub push : Char → List String → List String
push c [] = cons c "" ∷ []
push c (w ∷ ws) = cons c w ∷ ws

-- `strings.Split(s, sep)` for the separator with this code.
unfoldable pub split : ℕ → String → List String
split sep String.[] = "" ∷ []
split sep (String.◌∷◌ c s) =
    let rest = split sep s in if code c == sep then "" ∷ rest else push c rest

unfoldable pub trim_left : String → String
trim_left String.[] = ""
trim_left (String.◌∷◌ c s) = let rest = trim_left s in if is_space (code c) then rest else cons c s

unfoldable pub trim_right : String → String
trim_right String.[] = ""
trim_right (String.◌∷◌ c s) =
    let rest = trim_right s in if rest == "" && is_space (code c) then "" else cons c rest

-- `strings.TrimSpace`
unfoldable pub trim_space : String → String
unfolding trim_left trim_right is_space
trim_space s = trim_right (trim_left s)

-- `strings.Cut(s, sep)`: before, after, and whether the separator was found.
unfoldable pub cut : ℕ → String → String × String × Bool
cut sep String.[] = ("", "", false)
cut sep (String.◌∷◌ c s) =
    let (before, behind, found) = cut sep s in
    if code c == sep then ("", s, true) else (cons c before, behind, found)

abbrev lower : ℕ → ℕ
lower c = if leb 65 c && leb c 90 then c + 32 else c

-- `strings.EqualFold(s, t)` for a `t` of ASCII letters other than k and s, which no letter beyond ASCII
-- folds to.
unfoldable pub equal_fold : String → String → Bool
equal_fold String.[] String.[] = true
equal_fold String.[] (String.◌∷◌ d t) = false
equal_fold (String.◌∷◌ c s) String.[] = false
equal_fold (String.◌∷◌ c s) (String.◌∷◌ d t) = lower (code c) == lower (code d) && equal_fold s t

-- `sort.Strings`, by insertion.
abbrev pub str_le : String → String → Bool
str_le a b = elim (compare a b) [ Ordering.gt ↦ false | _ ↦ true ]

unfoldable pub place : String → List String → List String
place x [] = x ∷ []
place x (y ∷ ys) = let rest = place x ys in if str_le x y then x ∷ y ∷ ys else y ∷ rest

unfoldable pub sort_strings : List String → List String
unfolding place
sort_strings [] = []
sort_strings (x ∷ xs) = place x (sort_strings xs)

-- `strings.Join`
unfoldable pub joined : String → List String → String
joined sep [] = ""
joined sep (x ∷ []) = x
joined sep (x ∷ y ∷ xs) = str_append x (str_append sep (joined sep (y ∷ xs)))

-- The elements in order, as one label.
unfoldable pub sorted_label : List String → String
unfolding sort_strings joined
sorted_label xs = joined "," (sort_strings xs)

-- `strconv.FormatBool`
abbrev pub format_bool : Bool → String
format_bool true = "true"
format_bool false = "false"

abbrev digits : List String
digits = "0" ∷ "1" ∷ "2" ∷ "3" ∷ "4" ∷ "5" ∷ "6" ∷ "7" ∷ "8" ∷ "9" ∷ []

abbrev digit : ℕ → String
digit n = elim (get_elem? digits n) [ none ↦ "" | some d ↦ d ]

unfoldable pub itoa_from : ℕ → ℕ → String
itoa_from zero n = ""
itoa_from (suc fuel) n =
    let front = itoa_from fuel (n / 10) in
    if ltb n 10 then digit n else str_append front (digit (n % 10))

-- `strconv.Itoa`; an int64 has at most nineteen digits.
unfoldable pub itoa : ℤ → String
unfolding itoa_from
itoa (pos n) = itoa_from 20 n
itoa (negsuc n) = str_append "-" (itoa_from 20 (suc n))
