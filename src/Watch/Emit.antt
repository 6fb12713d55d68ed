-- ===== src/Watch/Emit.antt =====
-- The lines that a watch writes: the formats and the emitter of `Run`.
use agent_community.Common.{
  ℕ, ◌-◌, ◌≡◌, refl, sym, ap, ◌∙◌, ◌⊎◌, inl, inr, zero, suc, String, len, Bool, ◌&&◌, ◌||◌, not,
  Option, none, some, List, [], ◌∷◌, ◌++◌, append-nil, append_assoc, ltb, leb, eqb, ◌==◌,
  Bool-cases, if◌then◌else◌,
}
use Prim.Native.String.{◌++◌ as ◌<>◌}
use agent_community.Discussion.Model.{Time}
use agent_community.Colony.{Message}
use agent_community.Watch.{Bytes, Drained, drained, stopped, drain_events}
use agent_community.Watch.Lines.{split_lines, emit_each}
use agent_community.Watch.Drain.{concat_all, drain_events-eq}

abbrev pub spaces : ℕ → String
spaces zero = ""
spaces (suc n) = " " <> spaces n

unfoldable pub pad_name : String → String
pad_name name = if leb 7 (len name) then name else name <> spaces (7 - len name)

-- `PrettyLine`; what `Format("15:04:05Z")` writes of a time is given.
unfoldable pub pretty_line : (Time → String) → Message → String
unfolding pad_name
pretty_line clock_text m =
    let line = clock_text m.timestamp <> (" | " <> (pad_name m.author <> (" | " <> m.body))) in
    if m.context == "" then line else line <> (" | " <> m.context)

pub record Options : Type 0 where
  pub exclude_author : String
  -- 0 for no bound
  pub from : Time
  pub format : Message → String

-- A message that the emitter passes over.
unfoldable pub passed_over : Options → Message → Bool
passed_over opts m =
    not (opts.exclude_author == "") && m.author == opts.exclude_author
    || not (eqb opts.from 0) && ltb m.timestamp opts.from

-- The emitter of `Run` over a writer of lines. A line that is not decoded is passed over.
unfoldable pub emit :
    {S E : Type 0}
    → (Bytes → Option Message)
    → Options
    → (String → S → (E × S) ⊎ S)
    → Bytes
    → S
    → (E × S) ⊎ S
unfolding passed_over
emit decode opts write line s = elim (decode line) [
  | none ↦ inr s
  | some m ↦ if passed_over opts m then inr s else write (opts.format m) s
]

-- A writer that does not fail, and keeps the lines.
abbrev pub keep_line : {E : Type 0} → String → List String → (E × List String) ⊎ List String
keep_line text out = inr (out ++ text ∷ [])

module _ (decode : Bytes → Option Message) (opts : Options) where
  abbrev pub text_of : Option Message → List String
  text_of none = []
  text_of (some m) = if passed_over opts m then [] else opts.format m ∷ []

  -- The texts of the lines: of each that is not empty, is decoded and is not passed over.
  unfoldable pub texts : List Bytes → List String
  texts [] = []
  texts ([] ∷ lines) = texts lines
  texts ((b ∷ bs) ∷ lines) = text_of (decode (b ∷ bs)) ++ texts lines

  emit_keeps :
      {E : Type 0} (b : ℕ) (bs : Bytes) (out : List String)
      → emit {E = E} decode opts keep_line (b ∷ bs) out ≡ inr (out ++ text_of (decode (b ∷ bs)))
  unfolding emit
  emit_keeps {E} b bs out = keeps (decode (b ∷ bs))
    where
      keeps :
          (o : Option Message)
          → ◌≡◌ {A = (E × List String) ⊎ List String}
              (elim o [
                | none ↦ inr out
                | some m ↦ if passed_over opts m then inr out else keep_line (opts.format m) out
              ])
              (inr (out ++ text_of o))
      keeps none = ap inr (sym (append-nil out))
      keeps (some m) = elim (Bool-cases (passed_over opts m)) [
        | inl skip ↦ rw skip (ap inr (sym (append-nil out)))
        | inr keep ↦ rw keep refl
      ]

  emit_each-texts :
      {E : Type 0} (lines : List Bytes) (rest : Bytes) (out : List String)
      → emit_each (emit {E = E} decode opts keep_line) lines rest out
        ≡ drained (out ++ texts lines) rest
  unfolding emit_each texts
  emit_each-texts [] rest out = ap (λ o. drained o rest) (sym (append-nil out))
  emit_each-texts ([] ∷ lines) rest out = emit_each-texts lines rest out
  emit_each-texts {E} ((b ∷ bs) ∷ lines) rest out =
      let more = text_of (decode (b ∷ bs)) in
      ap (next rest lines) (emit_keeps {E = E} b bs out)
      ∙ emit_each-texts {E = E} lines rest (out ++ more)
      ∙ ap (λ o. drained o rest) (append_assoc out more (texts lines))
    where
      next : Bytes → List Bytes → (E × List String) ⊎ List String → Drained (List String) E
      next rest lines (inl (e, t)) = stopped e t
      next rest lines (inr t) = emit_each (emit {E = E} decode opts keep_line) lines rest t

-- With a writer that does not fail, a watch has written, after all its drains and however the bytes
-- of the log arrived, the formatted text of each message in a line that was ended, in the order of
-- the log, but those of the author that is left out and those before the bound.
pub drain_events-texts :
    {E : Type 0} (decode : Bytes → Option Message) (opts : Options) (events : List (List Bytes))
    → drain_events (emit {E = E} decode opts keep_line) events [] []
      ≡ drained
          (texts decode opts (split_lines (concat_all events)).0)
          (split_lines (concat_all events)).1
drain_events-texts {E} decode opts events =
    drain_events-eq (emit {E = E} decode opts keep_line) events []
    ∙ emit_each-texts decode opts {E = E} (split_lines (concat_all events)).0
        (split_lines (concat_all events)).1 []
