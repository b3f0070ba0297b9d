-- ===== src/Base/Text.antt =====
-- Python's `lower` and `upper` on the ASCII letters; every other character is left alone.
use Prim.Native.Char.{Char, code}
use Prim.Native.String.{String, ◌++◌, char_at, compare}
use Prim.Native.Nat.{Ordering, ℕ, zero, suc, ◌/◌, ◌%◌}
use mathlib.Core.Path.{◌≡◌}
use mathlib.Core.Bool.{Bool, true, false}
use mathlib.Core.List.{List, [], ◌∷◌}
use text.Mathlib.TextLemmas.{cons-append}
use criptotrade.Base.Tests.{nat_eq, ltb, if◌then◌else◌}

-- The letter of the second alphabet at the place where `c` stands in the first.
translate_char : String → String → Char → Char
translate_char (String.◌∷◌ a as') (String.◌∷◌ b bs) c =
    if nat_eq (code c) (code a) then b else translate_char as' bs c
translate_char String.[] bs c = c
translate_char as' String.[] c = c

translate : String → String → String → String
translate from to String.[] = String.[]
translate from to (String.◌∷◌ c s) = String.◌∷◌ (translate_char from to c) (translate from to s)

unfoldable pub lower : String → String
unfolding translate translate_char
lower = translate "ABCDEFGHIJKLMNOPQRSTUVWXYZ" "abcdefghijklmnopqrstuvwxyz"

unfoldable pub upper : String → String
unfolding translate translate_char
upper = translate "abcdefghijklmnopqrstuvwxyz" "ABCDEFGHIJKLMNOPQRSTUVWXYZ"

-- `bool(s)`
abbrev pub truthy : String → Bool
truthy String.[] = false
truthy (String.◌∷◌ c s) = true

pub truthy-append : (s t : String) → truthy s ≡ true → truthy (s ++ t) ≡ true
truthy-append String.[] t h = cc
truthy-append (String.◌∷◌ c s) t h = rw (cons-append c s t)

-- `sep.join(parts)`
unfoldable pub join : String → List String → String
join sep [] = ""
join sep (p ∷ []) = p
join sep (p ∷ q ∷ ps) = p ++ (sep ++ join sep (q ∷ ps))

-- The decimal digits of `n` before `s`, at most `fuel` of them.
abbrev pub show_digits : ℕ → ℕ → String → String
show_digits zero n s = s
show_digits (suc fuel) n s =
    let more = show_digits fuel (n / 10) (String.◌∷◌ (char_at "0123456789" (n % 10)) s) in
    if ltb 0 n then more else s

-- `str(n)`; a number has no more digits than its value.
abbrev pub show_nat : ℕ → String
show_nat zero = "0"
show_nat (suc n) = show_digits (suc n) (suc n) ""

-- `s.startswith(p)`
abbrev pub starts : String → String → Bool
starts String.[] s = true
starts (String.◌∷◌ c p) String.[] = false
starts (String.◌∷◌ c p) (String.◌∷◌ d s) =
    let rest = starts p s in if nat_eq (code c) (code d) then rest else false

-- `p in s`
abbrev pub contains : String → String → Bool
contains p String.[] = starts p String.[]
contains p (String.◌∷◌ c s) =
    let rest = contains p s in if starts p (String.◌∷◌ c s) then true else rest

-- `a <= b` on texts, by code points
abbrev pub text_le : String → String → Bool
text_le a b = elim (compare a b) [ Ordering.gt ↦ false | _ ↦ true ]

-- The ASCII whitespace of `str.strip`.
abbrev pub is_space : Char → Bool
is_space c =
    if nat_eq (code c) 32
    then true
    else if ltb (code c) 9
    then false
    else if ltb (code c) 14
    then true
    else if ltb (code c) 28
    then false
    else ltb (code c) 32

unfoldable pub strip_left : String → String
strip_left String.[] = String.[]
strip_left (String.◌∷◌ c s) = let rest = strip_left s in if is_space c then rest else String.◌∷◌ c s

abbrev prepend : Char → String → String
prepend c String.[] = if is_space c then String.[] else String.◌∷◌ c String.[]
prepend c (String.◌∷◌ d s) = String.◌∷◌ c (String.◌∷◌ d s)

unfoldable pub strip_right : String → String
strip_right String.[] = String.[]
strip_right (String.◌∷◌ c s) = prepend c (strip_right s)

-- `s.strip()`
unfoldable pub strip : String → String
unfolding strip_left strip_right
strip s = strip_left (strip_right s)

-- `s.replace(c, "")`
unfoldable pub without : Char → String → String
without d String.[] = String.[]
without d (String.◌∷◌ c s) =
    let rest = without d s in if nat_eq (code c) (code d) then rest else String.◌∷◌ c rest

-- `s.split(c)[0]`
unfoldable pub before : Char → String → String
before d String.[] = String.[]
before d (String.◌∷◌ c s) =
    let rest = before d s in if nat_eq (code c) (code d) then String.[] else String.◌∷◌ c rest

-- `s[:n]`
unfoldable pub clip : ℕ → String → String
clip zero s = String.[]
clip (suc n) String.[] = String.[]
clip (suc n) (String.◌∷◌ c s) = String.◌∷◌ c (clip n s)

-- `len(s)`
unfoldable pub text_length : String → ℕ
text_length String.[] = 0
text_length (String.◌∷◌ c s) = suc (text_length s)
