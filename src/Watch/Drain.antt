-- ===== src/Watch/Drain.antt =====
-- However the bytes of the log arrive, each of its lines is emitted once, in order.
use agent_community.Common.{
  suc, ◌≡◌, refl, sym, ap, ◌∙◌, ◌⊎◌, inl, inr, List, [], ◌∷◌, ◌++◌, append-nil, append_assoc,
  length, arith,
}
use agent_community.Watch.{Bytes, Drained, drained, stopped, emit_line, go_on, drain, drain_events}
use agent_community.Watch.Lines.{
  split_lines, split_lines-rest, split_lines-append, emit_each, emit_lines-eq,
}

abbrev pub concat : List Bytes → Bytes
concat [] = []
concat (xs ∷ xss) = xs ++ concat xss

abbrev pub concat_all : List (List Bytes) → Bytes
concat_all [] = []
concat_all (xss ∷ rest) = concat xss ++ concat_all rest

module _ {S E : Type 0} (emit : Bytes → S → (E × S) ⊎ S) where
  -- All the lines of some bytes.
  abbrev pub emit_text : Bytes → S → Drained S E
  emit_text bs s = emit_each emit (split_lines bs).0 (split_lines bs).1 s

  emit_each-append :
      (lines more : List Bytes) (left rest : Bytes) (s : S)
      → emit_each emit (lines ++ more) rest s
        ≡ go_on (emit_each emit lines left s) (λ t _. emit_each emit more rest t)
  unfolding emit_each
  emit_each-append [] more left rest s = refl
  emit_each-append (line ∷ lines) more left rest s =
      elim (emit_line emit line s)
        as (λ r.
          ◌≡◌ {A = Drained S E}
            (elim r [ inl (e, t) ↦ stopped e t | inr t ↦ emit_each emit (lines ++ more) rest t ])
            (go_on (elim r [ inl (e, t) ↦ stopped e t | inr t ↦ emit_each emit lines left t ])
              (λ t _. emit_each emit more rest t))) [
                | inl (e, t) ↦ refl
                | inr t ↦ emit_each-append lines more left rest t
              ]

  -- What comes behind the lines is given the bytes that are left.
  go_on-cong :
      (lines : List Bytes) (left : Bytes) (s : S) (f g : S → Bytes → Drained S E)
      → ((t : S) → f t left ≡ g t left)
      → go_on (emit_each emit lines left s) f ≡ go_on (emit_each emit lines left s) g
  unfolding emit_each
  go_on-cong [] left s f g h = h s
  go_on-cong (line ∷ lines) left s f g h =
      elim (emit_line emit line s)
        as (λ r.
          go_on (elim r [ inl (e, t) ↦ stopped e t | inr t ↦ emit_each emit lines left t ]) f
          ≡ go_on (elim r [ inl (e, t) ↦ stopped e t | inr t ↦ emit_each emit lines left t ]) g) [
            | inl (e, t) ↦ refl
            | inr t ↦ go_on-cong lines left t f g h
          ]

  emit_text-append :
      (xs ys : Bytes) (s : S)
      → emit_text (xs ++ ys) s ≡ go_on (emit_text xs s) (λ t rest. emit_text (rest ++ ys) t)
  emit_text-append xs ys s =
      let (lines, left) = split_lines xs in
      let (more, rest) = split_lines (left ++ ys) in
      ap (λ (q : List Bytes × Bytes). emit_each emit q.0 q.1 s) (split_lines-append xs ys)
      ∙ emit_each-append lines more left rest s
      ∙ go_on-cong lines left s (λ t _. emit_each emit more rest t)
          (λ t r. emit_each emit (split_lines (r ++ ys)).0 (split_lines (r ++ ys)).1 t) (λ t. refl)

  emit_text-clean : (bs : Bytes) (s : S) → split_lines bs ≡ ([], bs) → emit_text bs s ≡ drained s bs
  unfolding emit_each
  emit_text-clean bs s clean = ap (λ (q : List Bytes × Bytes). emit_each emit q.0 q.1 s) clean

  drain-emit_text :
      (reads : List Bytes) (pending : Bytes) (s : S)
      → split_lines pending ≡ ([], pending)
      → drain emit reads pending s ≡ emit_text (pending ++ concat reads) s
  unfolding drain
  drain-emit_text [] pending s clean =
      sym (emit_text-clean pending s clean) ∙ sym (ap (λ bs. emit_text bs s) (append-nil pending))
  drain-emit_text (chunk ∷ reads) pending s clean =
      let bs = pending ++ chunk in
      let (lines, left) = split_lines bs in
      ap (λ r. go_on r (λ t rest. drain emit reads rest t))
        (emit_lines-eq emit (suc (length bs)) bs s (omega arith))
      ∙ go_on-cong lines left s (λ t rest. drain emit reads rest t)
          (λ t rest. emit_text (rest ++ concat reads) t)
          (λ t. drain-emit_text reads left t (split_lines-rest bs))
      ∙ sym (emit_text-append bs (concat reads) s)
      ∙ ap (λ xs. emit_text xs s) (append_assoc pending chunk (concat reads))

  drain_events-emit_text :
      (events : List (List Bytes)) (pending : Bytes) (s : S)
      → split_lines pending ≡ ([], pending)
      → drain_events emit events pending s ≡ emit_text (pending ++ concat_all events) s
  unfolding drain_events
  drain_events-emit_text [] pending s clean =
      sym (emit_text-clean pending s clean) ∙ sym (ap (λ bs. emit_text bs s) (append-nil pending))
  drain_events-emit_text (reads ∷ events) pending s clean =
      let bs = pending ++ concat reads in
      let (lines, left) = split_lines bs in
      ap (λ r. go_on r (λ t rest. drain_events emit events rest t))
        (drain-emit_text reads pending s clean)
      ∙ go_on-cong lines left s (λ t rest. drain_events emit events rest t)
          (λ t rest. emit_text (rest ++ concat_all events) t)
          (λ t. drain_events-emit_text events left t (split_lines-rest bs))
      ∙ sym (emit_text-append bs (concat_all events) s)
      ∙ ap (λ xs. emit_text xs s) (append_assoc pending (concat reads) (concat_all events))

-- Over all the drains, whatever reads each of them makes and however the bytes of the log are cut
-- into reads, the loop emits what one pass over the lines of all the bytes emits: each line that a
-- newline has ended and that is not empty, once and in order, up to an error of the emitter. The
-- bytes behind the last newline stay pending.
pub drain_events-eq :
    {S E : Type 0} (emit : Bytes → S → (E × S) ⊎ S) (events : List (List Bytes)) (s : S)
    → drain_events emit events [] s ≡ emit_text emit (concat_all events) s
unfolding split_lines
drain_events-eq emit events s = drain_events-emit_text emit events [] s refl
