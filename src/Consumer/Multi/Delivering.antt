-- ===== src/Consumer/Multi/Delivering.antt =====
-- What was delivered stays delivered.
use pulsar_rdg_rs.Prelude.{
  continued, ◌≡◌, sym, ap, ◌∙◌, some, List, [], ◌∷◌, Option-cases, subst, inl, inr,
}
use pulsar_rdg_rs.Prelude.Equals.{text_eq}
use pulsar_rdg_rs.Bytes.{Text}
use pulsar_rdg_rs.Proto.{MessageIdData, MessageMetadata}
use pulsar_rdg_rs.Codec.{Payload}
use pulsar_rdg_rs.Consumer.Multi.Polling.{poll_next}
use pulsar_rdg_rs.Consumer.Multi.Running.{
  Event, arrived, ended, poll, Run, step, run, changed, put_item, end_channel, only, given,
  on_outcome,
}
use mathlib.Core.List.{Mem, mem-append_left}

module _ (E : Type 0) (t : Text) (id : MessageIdData) (p : Payload MessageMetadata) where
  step-delivered :
      (e : Event E) (r r' : Run E)
      → step e r ≡ some r'
      → Mem (t, id, p) r.delivered
      → Mem (t, id, p) r'.delivered
  unfolding step
  step-delivered (arrived topic item) r r' h k =
      let same : changed topic (put_item item) r ≡ r' = cc in
      subst (λ (s : Run E). Mem (t, id, p) s.delivered) same k
  step-delivered (ended topic) r r' h k =
      let same : changed topic end_channel r ≡ r' = cc in
      subst (λ (s : Run E). Mem (t, id, p) s.delivered) same k
  step-delivered (poll now fired last) r r' h k =
      elim (Option-cases (poll_next now fired last r.state)) [
        | inl e ↦ absurd (cc (h, ap (on_outcome r) e))
        | inr (o, e) ↦
            let same : given r o ≡ r' = cc (ap (on_outcome r) (sym e) ∙ h) in
            subst (λ (s : Run E). Mem (t, id, p) s.delivered) same
              (mem-append_left (only o.result) k)
      ]

  pub run-delivered :
      (es : List (Event E)) (r r' : Run E)
      → run es r ≡ some r'
      → Mem (t, id, p) r.delivered
      → Mem (t, id, p) r'.delivered
  unfolding run
  run-delivered [] r r' h k =
      let same : r ≡ r' = cc in subst (λ (s : Run E). Mem (t, id, p) s.delivered) same k
  run-delivered (e ∷ es) r r' h k = elim (Option-cases (step e r)) [
    | inl f ↦ absurd (cc)
    | inr (s, f) ↦
        run-delivered es s r' (ap (continued (run es)) (sym f) ∙ h) (step-delivered e r s f k)
  ]
