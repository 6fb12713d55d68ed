-- ===== src/Common/Text.antt =====
-- The functions of Go's `strings` that the program walks its texts with. Texts are valid UTF-8; a
-- range loop over a text visits its code points.
use Prim.Native.Nat.{ℕ}
use Prim.Native.Char.{Char, code}
use Prim.Native.String.{String, ◌++◌}
use text.Mathlib.TextLemmas.{nil-append, cons-append}
use mathlib.Core.Path.{◌≡◌, refl, sym, ap, ◌∙◌}
use native.Mathlib.Omega.{arith}
use mathlib.Core.Bool.{Bool, true, false, not, ◌&&◌, ◌||◌}
use mathlib.Core.List.{List, [], ◌∷◌}
use mathlib.Core.Option.{Option, none, some}
use agent_community.Common.Tests.{eqb, ltb, leb, if◌then◌else◌}

-- `strings.HasPrefix` with `strings.TrimPrefix`: what follows the prefix, if it is there.
unfoldable pub strip_prefix : String → String → Option String
strip_prefix String.[] s = some s
strip_prefix (String.◌∷◌ c p) String.[] = none
strip_prefix (String.◌∷◌ c p) (String.◌∷◌ d s) =
    if eqb (code c) (code d) then strip_prefix p s else none

pub strip_prefix-append : (p s : String) → strip_prefix p (p ++ s) ≡ some s
unfolding strip_prefix
strip_prefix-append String.[] s = rw (nil-append s) refl
strip_prefix-append (String.◌∷◌ c p) s =
    rw (cons-append c p s) (ground (arith, strip_prefix-append p s))

abbrev before : Char → Option (String × String) → Option (String × String)
before c none = none
before c (some (a, b)) = some (String.◌∷◌ c a, b)

-- `strings.Cut` at a separator of one character.
unfoldable pub cut : ℕ → String → Option (String × String)
cut sep String.[] = none
cut sep (String.◌∷◌ c s) = if eqb (code c) sep then some (String.[], s) else before c (cut sep s)

abbrev onto_part : Char → String × List String → String × List String
onto_part c (first, rest) = (String.◌∷◌ c first, rest)

-- `strings.Split` at a separator of one character: the first part and the others.
unfoldable pub split : ℕ → String → String × List String
split sep String.[] = (String.[], [])
split sep (String.◌∷◌ c s) =
    let (first, rest) = split sep s in
    if eqb (code c) sep then (String.[], first ∷ rest) else onto_part c (first, rest)

-- `strings.HasSuffix` with a suffix of one character.
unfoldable pub ends_in : ℕ → String → Bool
ends_in sep String.[] = false
ends_in sep (String.◌∷◌ c String.[]) = eqb (code c) sep
ends_in sep (String.◌∷◌ c (String.◌∷◌ d s)) = ends_in sep (String.◌∷◌ d s)

-- A range loop that stops at the first character that fails.
unfoldable pub all_chars : (ℕ → Bool) → String → Bool
all_chars p String.[] = true
all_chars p (String.◌∷◌ c s) = p (code c) && all_chars p s

-- No character of the text is this one.
abbrev pub lacks : ℕ → String → Bool
lacks sep s = all_chars (λ c. not (eqb c sep)) s

-- The order of two texts, `a < b`.
unfoldable pub text_lt : String → String → Bool
text_lt s String.[] = false
text_lt String.[] (String.◌∷◌ d t) = true
text_lt (String.◌∷◌ c s) (String.◌∷◌ d t) =
    ltb (code c) (code d) || eqb (code c) (code d) && text_lt s t

pub text_lt_asymm : (s t : String) → text_lt s t ≡ true → text_lt t s ≡ false
unfolding text_lt
text_lt_asymm s String.[] h = absurd (ground (arith, h))
text_lt_asymm String.[] (String.◌∷◌ d t) h = refl
text_lt_asymm (String.◌∷◌ c s) (String.◌∷◌ d t) h = ground (arith, h, text_lt_asymm s t)

-- `unicode.IsSpace`
unfoldable pub is_space : ℕ → Bool
is_space c =
    leb 9 c && leb c 13
    || eqb c 32
    || eqb c 0x85
    || eqb c 0xa0
    || eqb c 0x1680
    || leb 0x2000 c && leb c 0x200a
    || eqb c 0x2028
    || eqb c 0x2029
    || eqb c 0x202f
    || eqb c 0x205f
    || eqb c 0x3000

unfoldable pub trim_left : String → String
trim_left String.[] = String.[]
trim_left (String.◌∷◌ c s) =
    let rest = trim_left s in if is_space (code c) then rest else String.◌∷◌ c s

-- A character in front of what is left of the text behind it.
abbrev in_front : Char → String → String
in_front c String.[] = if is_space (code c) then String.[] else String.◌∷◌ c String.[]
in_front c (String.◌∷◌ d s) = String.◌∷◌ c (String.◌∷◌ d s)

unfoldable pub trim_right : String → String
trim_right String.[] = String.[]
trim_right (String.◌∷◌ c s) = in_front c (trim_right s)

-- `strings.TrimSpace`
unfoldable pub trim_space : String → String
unfolding trim_left trim_right
trim_space s = trim_right (trim_left s)

trim_right-newline : (s : String) → trim_right (s ++ "\n") ≡ trim_right s
unfolding trim_right is_space
trim_right-newline String.[] = refl
trim_right-newline (String.◌∷◌ c s) =
    ap trim_right (cons-append c s "\n") ∙ ap (in_front c) (trim_right-newline s)

-- A newline behind a text is trimmed off.
pub trim_space-newline : (s : String) → trim_space (s ++ "\n") ≡ trim_space s
unfolding trim_left trim_right trim_space is_space
trim_space-newline String.[] = refl
trim_space-newline (String.◌∷◌ c s) =
    ap trim_space (cons-append c s "\n")
    ∙ (elim (is_space (code c))
        as (λ b.
          trim_right (if b then trim_left (s ++ "\n") else String.◌∷◌ c (s ++ "\n"))
          ≡ trim_right (if b then trim_left s else String.◌∷◌ c s)) [
            | true ↦ trim_space-newline s
            | false ↦ ap (in_front c) (trim_right-newline s)
          ])

pub split-lacks : (sep : ℕ) (s : String) → lacks sep s ≡ true → split sep s ≡ (s, [])
unfolding split all_chars
split-lacks sep String.[] h = refl
split-lacks sep (String.◌∷◌ c s) h =
    let other : eqb (code c) sep ≡ false = ground (arith, h) in
    rw (other, split-lacks sep s (ground (arith, h))) refl

-- A separator behind a text that has none ends the first part.
pub split-append :
    (sep : Char) (s t : String)
    → lacks (code sep) s ≡ true
    → split (code sep) (s ++ String.◌∷◌ sep t)
      ≡ (s, (split (code sep) t).0 ∷ (split (code sep) t).1)
unfolding split all_chars
split-append sep String.[] t h =
    ap (split (code sep)) (nil-append (String.◌∷◌ sep t)) ∙ ground arith
split-append sep (String.◌∷◌ c s) t h =
    let other : eqb (code c) (code sep) ≡ false = ground (arith, h) in
    rw (cons-append c s (String.◌∷◌ sep t), other, split-append sep s t (ground (arith, h))) refl

pub ends_in-lacks : (sep : ℕ) (s : String) → lacks sep s ≡ true → ends_in sep s ≡ false
unfolding ends_in all_chars
ends_in-lacks sep String.[] h = refl
ends_in-lacks sep (String.◌∷◌ c String.[]) h = ground (arith, h)
ends_in-lacks sep (String.◌∷◌ c (String.◌∷◌ d s)) h =
    ends_in-lacks sep (String.◌∷◌ d s) (ground (arith, h))

-- What a text that is not empty ends in, behind any other.
pub ends_in-append :
    (sep : ℕ) (s : String) (c : Char) (t : String)
    → ends_in sep (s ++ String.◌∷◌ c t) ≡ ends_in sep (String.◌∷◌ c t)
unfolding ends_in
ends_in-append sep String.[] c t = ap (ends_in sep) (nil-append (String.◌∷◌ c t))
ends_in-append sep (String.◌∷◌ d String.[]) c t =
    ap (ends_in sep)
      (cons-append d String.[] (String.◌∷◌ c t) ∙ ap (String.◌∷◌ d) (nil-append (String.◌∷◌ c t)))
ends_in-append sep (String.◌∷◌ d (String.◌∷◌ e s)) c t =
    ap (ends_in sep) (
      cons-append d (String.◌∷◌ e s) (String.◌∷◌ c t)
      ∙ ap (String.◌∷◌ d) (cons-append e s (String.◌∷◌ c t)))
    ∙ ap (ends_in sep) (sym (cons-append e s (String.◌∷◌ c t)))
    ∙ ends_in-append sep (String.◌∷◌ e s) c t

trim_left-clean : (s : String) → all_chars (λ c. not (is_space c)) s ≡ true → trim_left s ≡ s
unfolding trim_left all_chars
trim_left-clean String.[] h = refl
trim_left-clean (String.◌∷◌ c s) h =
    let solid : is_space (code c) ≡ false = ground (arith, h) in rw solid refl

in_front-solid : (c : Char) (s : String) → is_space (code c) ≡ false → in_front c s ≡ String.◌∷◌ c s
in_front-solid c String.[] h = rw h refl
in_front-solid c (String.◌∷◌ d s) h = refl

trim_right-clean : (s : String) → all_chars (λ c. not (is_space c)) s ≡ true → trim_right s ≡ s
unfolding trim_right all_chars
trim_right-clean String.[] h = refl
trim_right-clean (String.◌∷◌ c s) h =
    ap (in_front c) (trim_right-clean s (ground (arith, h)))
    ∙ in_front-solid c s (ground (arith, h))

-- A text without white space is left as it is.
pub trim_space-clean : (s : String) → all_chars (λ c. not (is_space c)) s ≡ true → trim_space s ≡ s
unfolding trim_space
trim_space-clean s h = ap trim_right (trim_left-clean s h) ∙ trim_right-clean s h

pub all_chars-weaken :
    (p q : ℕ → Bool) (s : String)
    → ((c : ℕ) → p c ≡ true → q c ≡ true)
    → all_chars p s ≡ true
    → all_chars q s ≡ true
unfolding all_chars
all_chars-weaken p q String.[] k h = refl
all_chars-weaken p q (String.◌∷◌ c s) k h =
    ground (arith, k (code c) (ground (arith, h)), all_chars-weaken p q s k (ground (arith, h)))
