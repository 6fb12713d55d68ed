-- ===== src/Watch.antt =====
-- The tailing of a message log: internal/watch/watch.go.
pub mod Lines
pub mod Drain
pub mod Emit
use agent_community.Common.{
  ℕ, zero, suc, ◌+◌, ◌⊎◌, inl, inr, Bool, true, false, Option, none, some, List, [], ◌∷◌, ◌++◌,
  length, eqb, if◌then◌else◌,
}

abbrev pub Bytes : Type 0
Bytes = List ℕ

abbrev pub newline : ℕ
newline = 10

abbrev pub put_front : ℕ → Option (Bytes × Bytes) → Option (Bytes × Bytes)
put_front b none = none
put_front b (some (line, rest)) = some (b ∷ line, rest)

-- `bytes.IndexByte` with the two slices around the newline.
unfoldable pub next_line : Bytes → Option (Bytes × Bytes)
next_line [] = none
next_line (b ∷ bs) =
    let found = next_line bs in if eqb b newline then some ([], bs) else put_front b found

-- What a drain leaves: the emitter's state, and the bytes that no newline has ended, or the error
-- of the emitter that stopped it.
pub data Drained (S E : Type 0) : Type 0 where
  drained : S → Bytes → Drained S E
  stopped : E → S → Drained S E

-- The next part of a drain, unless an error has stopped it.
abbrev pub go_on : {S E : Type 0} → Drained S E → (S → Bytes → Drained S E) → Drained S E
go_on (stopped e t) f = stopped e t
go_on (drained t rest) f = f t rest

module _ {S E : Type 0} (emit : Bytes → S → (E × S) ⊎ S) where
  -- `if len(line) > 0 { emit(line) }`
  abbrev pub emit_line : Bytes → S → (E × S) ⊎ S
  emit_line [] s = inr s
  emit_line (b ∷ bs) s = emit (b ∷ bs) s

  -- The loop over the lines of the pending bytes, on fuel.
  unfoldable pub emit_lines : ℕ → Bytes → S → Drained S E
  emit_lines zero pending s = drained s pending
  emit_lines (suc fuel) pending s = elim (next_line pending) [
    | none ↦ drained s pending
    | some (line, rest) ↦ elim (emit_line line s) [
      | inl (e, t) ↦ stopped e t
      | inr t ↦ emit_lines fuel rest t
    ]
  ]

  -- The loop over the reads of one drain, up to the end of the file. A read returns some bytes.
  unfoldable pub drain : List Bytes → Bytes → S → Drained S E
  drain [] pending s = drained s pending
  drain (chunk ∷ reads) pending s =
      go_on (emit_lines (suc (length (pending ++ chunk))) (pending ++ chunk) s)
        (λ t rest. drain reads rest t)

  -- One drain at the start, and one for each event of the watcher.
  unfoldable pub drain_events : List (List Bytes) → Bytes → S → Drained S E
  drain_events [] pending s = drained s pending
  drain_events (reads ∷ events) pending s =
      go_on (drain reads pending s) (λ t rest. drain_events events rest t)
