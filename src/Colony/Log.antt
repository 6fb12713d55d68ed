-- ===== src/Colony/Log.antt =====
-- What is read of the log of a community.
use agent_community.Common.{
  ◌⊎◌, ℕ, zero, suc, ◌-◌, ◌≤◌, ◌≡◌, refl, sym, ap, ◌∙◌, true, Option, none, some, List, [], ◌∷◌,
  ◌++◌, length, drop, ltb, arith, Bool-cases, inl, inr,
}
use mathlib.Core.Path.{subst}
use agent_community.Common.Int.{pos}
use agent_community.Discussion.Model.{Time}
use agent_community.Watch.{Bytes, newline}
use agent_community.Watch.Lines.{split_lines, split_lines-append}
use agent_community.Colony.{
  Message, Codec, max_line, drop_return, tokens, ReadOptions, decoded_onto, read_token, read_tokens,
  last_of, limited, read_all, contents, append,
}

-- What is relied on of JSON for a message: what was encoded is decoded again, and the line is not
-- empty, has no newline, does not end with a carriage return, and fits the scanner's buffer.
pub record IsEncoded (codec : Codec) (m : Message) : Type 0 where
  pub decoded : codec.decode (codec.encode m) ≡ some m
  pub whole : split_lines (codec.encode m ++ newline ∷ []) ≡ (codec.encode m ∷ [], [])
  pub kept : drop_return (codec.encode m) ≡ codec.encode m
  pub first : ℕ
  pub more : Bytes
  pub nonempty : codec.encode m ≡ first ∷ more
  pub fits : ltb (length (codec.encode m)) max_line ≡ true

-- The file ends with a newline, as every file that only `append` has written does.
abbrev pub IsEnded : Option Bytes → Type 0
IsEnded file = (split_lines (contents file)).1 ≡ []

abbrev pub appended : Message → Option (List Message) → Option (List Message)
appended m none = none
appended m (some ms) = some (ms ++ m ∷ [])

-- No bound on the time, and none on the number.
abbrev pub everything : ReadOptions
everything = record { since = 0; limit = pos 0 }

no_limit : (o : Option (List Message)) → limited (pos 0) o ≡ o
no_limit none = refl
no_limit (some ms) = ground arith

module _ (codec : Codec) (m : Message) (good : IsEncoded codec m) where
  last_token :
      (rest : Option (List Message))
      → read_token codec 0 (codec.encode m) rest ≡ decoded_onto 0 (some m) rest
  last_token rest =
      ap (λ bs. read_token codec 0 bs rest) good.nonempty
      ∙ ap (λ o. decoded_onto 0 o rest) (ap codec.decode (sym good.nonempty) ∙ good.decoded)

  decoded_onto-appended :
      (o : Option Message) (rest : Option (List Message))
      → decoded_onto 0 o (appended m rest) ≡ appended m (decoded_onto 0 o rest)
  decoded_onto-appended none rest = refl
  decoded_onto-appended (some x) none = refl
  decoded_onto-appended (some x) (some ms) = ground arith

  read_token-appended :
      (token : Bytes) (rest : Option (List Message))
      → read_token codec 0 token (appended m rest) ≡ appended m (read_token codec 0 token rest)
  read_token-appended [] rest = refl
  read_token-appended (b ∷ bs) rest = decoded_onto-appended (codec.decode (b ∷ bs)) rest

  read_tokens-append :
      (lines : List Bytes)
      → read_tokens codec 0 (lines ++ codec.encode m ∷ []) ≡ appended m (read_tokens codec 0 lines)
  unfolding read_tokens
  read_tokens-append [] = rw (good.fits, good.kept) (last_token (some []))
  read_tokens-append (token ∷ lines) = elim (Bool-cases (ltb (length token) max_line)) [
    | inl short ↦
        rw (short, read_tokens-append lines)
          (read_token-appended (drop_return token) (read_tokens codec 0 lines))
    | inr long ↦ rw long refl
  ]

  tokens-append :
      (file : Option Bytes)
      → IsEnded file
      → tokens (contents file ++ (codec.encode m ++ newline ∷ []))
        ≡ tokens (contents file) ++ codec.encode m ∷ []
  unfolding tokens
  tokens-append file ended =
      let line = codec.encode m ++ newline ∷ [] in
      let split = split_lines-append (contents file) line in rw (split, ended, good.whole) refl

  as_tokens :
      (file : Option Bytes)
      → read_all codec file everything ≡ read_tokens codec 0 (tokens (contents file))
  unfolding read_all tokens read_tokens split_lines
  as_tokens none = refl
  as_tokens (some file) = no_limit (read_tokens codec 0 (tokens file))

-- A message that is appended is read back behind those that were read before, whatever they are:
-- the log is read again if it could be read, and the file ends with a newline again.
pub append-read_all :
    (codec : Codec) (m : Message) (file : Option Bytes)
    → IsEncoded codec m
    → IsEnded file
    → (read_all codec (append codec file m) everything
        ≡ appended m (read_all codec file everything))
      × IsEnded (append codec file m)
unfolding append
append-read_all codec m file good ended =
    let line = codec.encode m ++ newline ∷ [] in
    let split = split_lines-append (contents file) line in
    (
      as_tokens codec m good (some (contents file ++ line))
          ∙ ap (read_tokens codec 0) (tokens-append codec m good file ended)
          ∙ read_tokens-append codec m good (tokens (contents file))
          ∙ ap (appended m) (sym (as_tokens codec m good file)),
      ap (λ (q : List Bytes × Bytes). q.1) split
          ∙ ap (λ xs. (split_lines (xs ++ line)).1) ended
          ∙ ap (λ (q : List Bytes × Bytes). q.1) good.whole,
    )

drop-suffix : (n : ℕ) (xs : List Message) → (front : List Message) × (xs ≡ front ++ drop n xs)
drop-suffix zero xs = ([], refl)
drop-suffix (suc n) [] = ([], refl)
drop-suffix (suc n) (x ∷ xs) = let (front, e) = drop-suffix n xs in (x ∷ front, ap (λ ys. x ∷ ys) e)

length-drop : (n : ℕ) (xs : List Message) → length (drop n xs) ≡ length xs - n
length-drop zero xs = omega arith
length-drop (suc n) [] = omega arith
length-drop (suc n) (x ∷ xs) = omega (arith, length-drop n xs)

-- Only the last messages, and as many as there are up to the limit.
pub record AreLast (limit : ℕ) (whole out : List Message) : Type 0 where
  pub front : List Message
  pub suffix : whole ≡ front ++ out
  pub bounded : length out ≤ limit
  pub no_fewer : (length out ≡ limit) ⊎ (out ≡ whole)

all_of : (n : ℕ) (whole : List Message) → length whole ≤ n → AreLast n whole whole
all_of n whole le = record { front = []; suffix = refl; bounded = le; no_fewer = inr refl }

last_of-AreLast :
    (n : ℕ) (whole : List Message) → ltb 0 n ≡ true → AreLast n whole (last_of (pos n) whole)
last_of-AreLast n whole positive = elim (Bool-cases (ltb n (length whole))) [
  | inl over ↦
      let cut = length whole - n in
      let (front, e) = drop-suffix cut whole in
      let long = length-drop cut whole in
      rw (positive, over)
        (record {
          front = front;
          suffix = e;
          bounded = ground (arith, long, over);
          no_fewer = inl (ground (arith, long, over));
        })
  | inr within ↦ rw (positive, within) (all_of n whole (ground (arith, within)))
]

abbrev listed : Option (List Message) → List Message
listed none = []
listed (some ms) = ms

limited-AreLast :
    (n : ℕ) (o : Option (List Message)) {whole out : List Message}
    → ltb 0 n ≡ true
    → o ≡ some whole
    → limited (pos n) o ≡ some out
    → AreLast n whole out
limited-AreLast n none positive h k = absurd (ground (arith, h))
limited-AreLast n (some ms) {whole} {out} positive h k =
    subst (λ w. AreLast n w out) (ap listed h)
      (subst (AreLast n ms) (ap listed k) (last_of-AreLast n ms positive))

-- With a limit, `ReadAll` returns the last of the messages that it returns without one, as many as
-- the limit says, or all where there are no more.
pub read_all-AreLast :
    (codec : Codec) (file : Option Bytes) (since : Time) (n : ℕ) {whole out : List Message}
    → ltb 0 n ≡ true
    → read_all codec file (record { since = since; limit = pos 0 }) ≡ some whole
    → read_all codec file (record { since = since; limit = pos n }) ≡ some out
    → AreLast n whole out
unfolding read_all
read_all-AreLast codec none since n {whole} {out} positive h k =
    subst (λ w. AreLast n w out) (ap listed h)
      (subst (AreLast n []) (ap listed k) (all_of n [] (omega arith)))
read_all-AreLast codec (some file) since n positive h k =
    limited-AreLast n (read_tokens codec since (tokens file)) positive
      (sym (no_limit (read_tokens codec since (tokens file))) ∙ h) k
