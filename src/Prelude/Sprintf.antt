-- ===== src/Prelude/Sprintf.antt =====
-- fmt.Sprintf on arguments that are strings, as far as the program's documentation lets it be used:
-- the directives `%s` and `%%`.
use Prim.Native.Char.{Char, code}
use Prim.Native.String.{String, [], ◌∷◌, ◌++◌}
use mathlib.Core.Path.{◌≡◌, refl, ap, sym, ◌∙◌}
use mathlib.Core.Bool.{Bool, false}
use mathlib.Core.List.{List, map}
use text.Mathlib.TextLemmas.{nil-append, cons-append}
use native.Mathlib.Omega.{arith}
use ksql.Prelude.Tests.{eqb, if◌then◌else◌}
use ksql.Prelude.Lists.{length, All}
use ksql.Prelude.Text.{join}

-- What Sprintf makes of a text that begins with another directive, and of the arguments left.
abbrev pub Other : Type 0
Other = String → List String → String

abbrev pub is_percent : Char → Bool
is_percent c = eqb (code c) 37

-- The note on the arguments that no directive took.
extra : List String → String
extra List.[] = ""
extra args = "%!(EXTRA " ++ (join (map (λ a. "string=" ++ a) args) ", " ++ ")")

-- One `%s`, and the rest of the text on the arguments left.
put : List String → (List String → String) → String
put List.[] rest = "%!s(MISSING)" ++ rest List.[]
put (List.◌∷◌ a args) rest = a ++ rest args

unfoldable pub sprintf : Other → String → List String → String
unfolding extra put
sprintf other [] args = extra args
sprintf other (c ∷ []) args = if is_percent c then other (c ∷ []) args else c ∷ extra args
sprintf other (c ∷ (d ∷ s)) args =
    let plain = c ∷ sprintf other (d ∷ s) args in
    let next = sprintf other s in
    if is_percent c
    then (if eqb (code d) 115
        then put args next
        else if is_percent d
        then c ∷ next args
        else other (c ∷ (d ∷ s)) args)
    else plain

abbrev pub NoPercent : String → Type 0
NoPercent [] = Unit
NoPercent (c ∷ s) = (is_percent c ≡ false) × NoPercent s

-- Texts with an argument after each but the last.
abbrev pub interleave : List String → List String → String
interleave List.[] args = ""
interleave (List.◌∷◌ p ps) List.[] = p
interleave (List.◌∷◌ p ps) (List.◌∷◌ a args) = p ++ (a ++ interleave ps args)

module _ (other : Other) where
  sprintf-cons :
      (c : Char) (s : String) (args : List String)
      → is_percent c ≡ false
      → sprintf other (c ∷ s) args ≡ c ∷ sprintf other s args
  unfolding sprintf
  sprintf-cons c [] args h = rw h
  sprintf-cons c (d ∷ s) args h = rw h

  sprintf-append :
      (p s : String) (args : List String)
      → NoPercent p
      → sprintf other (p ++ s) args ≡ p ++ sprintf other s args
  sprintf-append [] s args h = simp nil-append refl
  sprintf-append (c ∷ p) s args (h, hs) =
      ap (λ t. sprintf other t args) (cons-append c p s)
      ∙ sprintf-cons c (p ++ s) args h
      ∙ ap (λ t. c ∷ t) (sprintf-append p s args hs)
      ∙ sym (cons-append c p (sprintf other s args))

  sprintf-plain : (p : String) → NoPercent p → sprintf other p List.[] ≡ p
  unfolding sprintf
  sprintf-plain [] h = refl
  sprintf-plain (c ∷ p) (h, hs) = sprintf-cons c p List.[] h ∙ ap (λ t. c ∷ t) (sprintf-plain p hs)

  sprintf-directive :
      (s a : String) (args : List String)
      → sprintf other ("%s" ++ s) (List.◌∷◌ a args) ≡ a ++ sprintf other s args
  unfolding sprintf
  sprintf-directive s a args = rw cons-append (rw cons-append (rw nil-append refl))

  -- A text whose directives are `%s`, one for each argument.
  pub sprintf-join :
      (p : String) (ps args : List String)
      → All NoPercent (List.◌∷◌ p ps)
      → length args ≡ length ps
      → sprintf other (join (List.◌∷◌ p ps) "%s") args ≡ interleave (List.◌∷◌ p ps) args
  unfolding join
  sprintf-join p List.[] List.[] (h, hs) e = sprintf-plain p h
  sprintf-join p List.[] (List.◌∷◌ a args) (h, hs) e = absurd (ground arith)
  sprintf-join p (List.◌∷◌ q ps) List.[] (h, hs) e = absurd (ground arith)
  sprintf-join p (List.◌∷◌ q ps) (List.◌∷◌ a args) (h, hs) e =
      sprintf-append p ("%s" ++ join (List.◌∷◌ q ps) "%s") (List.◌∷◌ a args) h
      ∙ ap (λ t. p ++ t)
          (sprintf-directive (join (List.◌∷◌ q ps) "%s") a args
            ∙ ap (λ t. a ++ t) (sprintf-join q ps args hs (ground arith)))
