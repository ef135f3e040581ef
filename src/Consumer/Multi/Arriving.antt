-- ===== src/Consumer/Multi/Arriving.antt =====
-- A message arrives in the channel of a topic.
use pulsar_rdg_rs.Prelude.{
  ◌≡◌, refl, sym, ap, ◌∙◌, true, false, Option, none, some, ok, List, [], ◌∷◌, ◌++◌, Bool-cases,
  if◌then◌else◌, inl, inr,
}
use pulsar_rdg_rs.Prelude.Maps.{lookup, lookup-insert}
use pulsar_rdg_rs.Prelude.Equals.{text_eq}
use pulsar_rdg_rs.Bytes.{Text}
use mathlib.Core.List.{append_assoc, append-nil}
use pulsar_rdg_rs.Consumer.Multi.Items.{oks, oks-append}
use pulsar_rdg_rs.Consumer.Multi.{Body, Member, Item}
use pulsar_rdg_rs.Consumer.Multi.Running.{Run, change, changed, put_item}
use pulsar_rdg_rs.Consumer.Multi.Ordering.{of_topic, InOrder}

module _ (E : Type 0) (t : Text) where
  pub changed-other :
      (xs : List Body) (topic : Text) (f : Member E → Member E) (o : Option (Member E)) (r : Run E)
      → lookup topic r.state.consumers ≡ o
      → text_eq.beq topic t ≡ false
      → InOrder E t xs r
      → InOrder E t xs (record r { state = change topic f o r.state })
  changed-other xs topic f none r h e w = w
  changed-other xs topic f (some c) r h e w = record {
    member = w.member;
    found = lookup-insert topic t (f c) r.state.consumers ∙ rw e w.found;
    going = w.going;
    flow = w.flow;
    captured = w.captured;
  }

  arrived-own :
      (xs : List Body) (topic : Text) (x : Body) (o : Option (Member E)) (r : Run E)
      → lookup topic r.state.consumers ≡ o
      → text_eq.beq topic t ≡ true
      → InOrder E t xs r
      → InOrder E t (xs ++ x ∷ []) (record r { state = change topic (put_item (ok x)) o r.state })
  arrived-own xs topic x none r h e w =
      absurd (cc (h, ap (λ u. lookup u r.state.consumers) ((text_eq.beq_iff topic t).0 e), w.found))
  arrived-own xs topic x (some c) r h e w =
      let same : c ≡ w.member =
        cc (h, ap (λ u. lookup u r.state.consumers) ((text_eq.beq_iff topic t).0 e), w.found) in
      let of_t : List (Item E) = oks (of_topic t r.delivered) in
      record {
        member = put_item (ok x) c;
        found = lookup-insert topic t (put_item (ok x) c) r.state.consumers ∙ rw e refl;
        going = ap (λ (d : Member E). d.ended) same ∙ w.going;
        flow =
            sym (append_assoc of_t c.items (ok x ∷ []))
            ∙ (ap (λ (is : List (Item E)). is ++ ok x ∷ [])
                  (ap (λ (d : Member E). of_t ++ d.items) same ∙ w.flow)
                ∙ sym (oks-append E xs (x ∷ [])));
        captured = w.captured;
      }

  pub arrived-InOrder :
      (xs : List Body) (topic : Text) (x : Body) (r : Run E)
      → InOrder E t xs r
      → InOrder E t
          (xs ++ (if text_eq.beq topic t then x ∷ [] else []))
          (changed topic (put_item (ok x)) r)
  arrived-InOrder xs topic x r w = elim (Bool-cases (text_eq.beq topic t)) [
    | inl e ↦ rw e (arrived-own xs topic x (lookup topic r.state.consumers) r refl e w)
    | inr e ↦
        rw e rw append-nil
          (changed-other xs topic (put_item (ok x)) (lookup topic r.state.consumers) r refl e w)
  ]
