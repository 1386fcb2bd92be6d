-- ===== src/Sql/Token.antt =====
-- getFirstToken of ksql.go.
use ksql.Prelude.{String, ◌≡◌, refl, true, false, if◌then◌else◌, ap, sym, ◌∙◌}
use ksql.Prelude.Text.{is_space, trim_left}
use Prim.Native.Char.{Char}
use Prim.Native.String.{[], ◌∷◌, ◌++◌}
use text.Mathlib.TextLemmas.{nil-append, cons-append}

-- The loop over the characters; `break` at the first space.
token_of : String → String
token_of [] = []
token_of (c ∷ s) = if is_space c then [] else c ∷ token_of s

unfoldable pub get_first_token : String → String
unfolding token_of trim_left is_space
get_first_token s = token_of (trim_left s)

abbrev pub AllSpace : String → Type 0
AllSpace [] = Unit
AllSpace (c ∷ s) = (is_space c ≡ true) × AllSpace s

abbrev pub NoSpace : String → Type 0
NoSpace [] = Unit
NoSpace (c ∷ s) = (is_space c ≡ false) × NoSpace s

-- A text that ends, or goes on with a space.
abbrev pub EndsToken : String → Type 0
EndsToken [] = Unit
EndsToken (c ∷ s) = is_space c ≡ true

trim_left-append : (blank s : String) → AllSpace blank → trim_left (blank ++ s) ≡ trim_left s
unfolding trim_left
trim_left-append [] s h = rw nil-append
trim_left-append (c ∷ blank) s (h, hs) = rw cons-append (rw h (trim_left-append blank s hs))

token_of-append :
    (word rest : String) → NoSpace word → EndsToken rest → token_of (word ++ rest) ≡ word
unfolding token_of
token_of-append [] [] h e = refl
token_of-append [] (c ∷ rest) h e = rw nil-append (rw e)
token_of-append (c ∷ word) rest (h, hs) e =
    rw cons-append (rw h (ap (λ t. c ∷ t) (token_of-append word rest hs e)))

trim_left-word : (c : Char) (s : String) → is_space c ≡ false → trim_left (c ∷ s) ≡ c ∷ s
unfolding trim_left
trim_left-word c s h = rw h

-- The first token of a text that is white space, then a word that is not empty and has no white
-- space, then the end or a text that starts with white space, is the word.
pub get_first_token-append :
    (blank : String) (c : Char) (word rest : String)
    → AllSpace blank
    → NoSpace (c ∷ word)
    → EndsToken rest
    → get_first_token (blank ++ ((c ∷ word) ++ rest)) ≡ c ∷ word
unfolding get_first_token
get_first_token-append blank c word rest h k e =
    ap token_of (
      trim_left-append blank _ h
      ∙ ap trim_left (cons-append c word rest)
      ∙ trim_left-word c _ k.0
      ∙ sym (cons-append c word rest))
    ∙ token_of-append (c ∷ word) rest k e
