-- ===== src/Prelude/Text.antt =====
-- What the program uses of Go's `strings`, `strconv`, `unicode` and `fmt`, over native texts.
pub mod Decimal
use Prim.Native.Nat.{ℕ, zero, suc, ◌/◌, ◌%◌}
use Prim.Native.Char.{Char, code}
use Prim.Native.String.{String, [], ◌∷◌, ◌++◌}
use mathlib.Core.Path.{◌≡◌, refl}
use mathlib.Core.Bool.{Bool, ◌&&◌, ◌||◌}
use mathlib.Core.List.{List}
use text.Mathlib.Text.{◌==◌}
use ksql.Prelude.Tests.{ltb, leb, eqb, if◌then◌else◌}

-- strings.Join
unfoldable pub join : List String → String → String
join List.[] sep = ""
join (List.◌∷◌ s List.[]) sep = s
join (List.◌∷◌ s (List.◌∷◌ t more)) sep = s ++ sep ++ join (List.◌∷◌ t more) sep

-- unicode.IsSpace
unfoldable pub is_space : Char → Bool
is_space c =
    let n = code c in
    (leb 9 n && leb n 13)
    || eqb n 32
    || eqb n 0x85
    || eqb n 0xA0
    || eqb n 0x1680
    || (leb 0x2000 n && leb n 0x200a)
    || eqb n 0x2028
    || eqb n 0x2029
    || eqb n 0x202f
    || eqb n 0x205f
    || eqb n 0x3000

-- strings.TrimLeftFunc(s, unicode.IsSpace)
unfoldable pub trim_left : String → String
unfolding is_space
trim_left [] = []
trim_left (c ∷ s) = if is_space c then trim_left s else c ∷ s

trim_right : String → String
unfolding is_space
trim_right [] = []
trim_right (c ∷ s) = let rest = trim_right s in if is_space c && rest == "" then [] else c ∷ rest

-- strings.TrimSpace
unfoldable pub trim_space : String → String
unfolding trim_left trim_right
trim_space s = trim_right (trim_left s)

-- The letter of the second text at the place where the first has `c`.
translate : String → String → Char → Char
translate [] to c = c
translate (a ∷ s) [] c = c
translate (a ∷ s) (b ∷ t) c = if eqb (code a) (code c) then b else translate s t c

-- strings.ToUpper on the ASCII letters and on the two other letters whose capital is one.
unfoldable pub to_upper : String → String
unfolding translate
to_upper [] = []
to_upper (c ∷ s) =
    translate "abcdefghijklmnopqrstuvwxyzıſ" "ABCDEFGHIJKLMNOPQRSTUVWXYZIS" c ∷ to_upper s

-- strings.ToLower on the ASCII letters and on the two other letters whose small letter is one.
unfoldable pub to_lower : String → String
unfolding translate
to_lower [] = []
to_lower (c ∷ s) =
    translate "ABCDEFGHIJKLMNOPQRSTUVWXYZİK" "abcdefghijklmnopqrstuvwxyzik" c ∷ to_lower s

split_from : String → Char → String → List String
split_from cur sep [] = List.◌∷◌ cur List.[]
split_from cur sep (c ∷ s) =
    let closed = List.◌∷◌ cur (split_from "" sep s) in
    let longer = split_from (cur ++ c ∷ []) sep s in
    if eqb (code c) (code sep) then closed else longer

-- strings.Split by one character
unfoldable pub split : String → Char → List String
unfolding split_from
split s sep = split_from "" sep s

-- One decimal digit.
digit : ℕ → String
digit zero = "0"
digit (suc zero) = "1"
digit (suc (suc zero)) = "2"
digit (suc (suc (suc zero))) = "3"
digit (suc (suc (suc (suc zero)))) = "4"
digit (suc (suc (suc (suc (suc zero))))) = "5"
digit (suc (suc (suc (suc (suc (suc zero)))))) = "6"
digit (suc (suc (suc (suc (suc (suc (suc zero))))))) = "7"
digit (suc (suc (suc (suc (suc (suc (suc (suc zero)))))))) = "8"
digit _ = "9"

itoa_fuel : ℕ → ℕ → String
itoa_fuel zero n = digit (n % 10)
itoa_fuel (suc f) n =
    let more = itoa_fuel f (n / 10) ++ digit (n % 10) in if ltb n 10 then digit n else more

-- strconv.Itoa of a number that is not negative; `n` divisions by ten are more than it takes.
unfoldable pub itoa : ℕ → String
unfolding itoa_fuel digit
itoa n = itoa_fuel n n

itoa_test : itoa 1203 ≡ "1203"
unfolding itoa
itoa_test = refl

split_test : split "name,json" "," ≡ List.◌∷◌ "name" (List.◌∷◌ "json" List.[])
unfolding split
split_test = refl

trim_test : trim_space " \t a b " ≡ "a b"
unfolding trim_space
trim_test = refl

upper_test : to_upper "Select" ≡ "SELECT"
unfolding to_upper
upper_test = refl
