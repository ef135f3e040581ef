-- ===== src/Consumer/DeadLetters.antt =====
-- What the message for the dead letter topic carries over.
use pulsar_rdg_rs.Prelude.{
  ◌≡◌, inl, inr, refl, sym, ap, ◌∙◌, Bool, true, false, Option, none, some, List, [], ◌∷◌,
  if◌then◌else◌, Bool-cases,
}
use pulsar_rdg_rs.Prelude.Maps.{Map, lookup, insert, lookup-insert}
use pulsar_rdg_rs.Prelude.Equals.{text_eq}
use pulsar_rdg_rs.Bytes.{Text}
use pulsar_rdg_rs.Proto.{KeyValue, MessageIdData, MessageMetadata}
use pulsar_rdg_rs.Codec.{Payload}
use pulsar_rdg_rs.Producer.Message.{Message, PartitionKey, IsBase64, key_fields, from_metadata}
use pulsar_rdg_rs.Producer.Keys.{received_key, received_value, from_metadata-key_fields}
use pulsar_rdg_rs.Consumer.Engine.{World}
use pulsar_rdg_rs.Consumer.Deliver.{
  origin, real_topic, origin_message_id, collect_properties, insert_absent, or_insert,
  dead_letter_message,
}

abbrev pub or_else : Option Text → Option Text → Option Text
or_else (some v) other = some v
or_else none other = other

-- The value of the last property with this key.
abbrev pub last_of : Text → List KeyValue → Option Text
last_of k [] = none
last_of k (p ∷ ps) = or_else (last_of k ps) (if text_eq.beq p.key k then some p.value else none)

-- The message that stands for a message `p` with the id `id` of the topic: its value, its
-- properties, of two for a key the last, besides which it names the topic and the id, unless there
-- are properties with these names, its partition key in the form in which it was sent, its ordering
-- key and its time, and nothing else.
pub record IsDeadLetter (w : World) (topic : Text) (id : MessageIdData)
    (p : Payload MessageMetadata) (m : Message) : Type 0 where
  pub value :
      ((p.metadata.null_value ≡ some true) → m.payload ≡ none)
      × (¬ (p.metadata.null_value ≡ some true) → m.payload ≡ some p.payload_data)
  pub kept :
      (k v : Text) → last_of k p.metadata.properties ≡ some v → lookup k m.properties ≡ some v
  pub names_topic :
      last_of real_topic p.metadata.properties ≡ none → lookup real_topic m.properties ≡ some topic
  pub names_id :
      last_of origin_message_id p.metadata.properties ≡ none
      → lookup origin_message_id m.properties ≡ some (origin id)
  pub no_more :
      (k : Text)
      → last_of k p.metadata.properties ≡ none
      → ¬ (real_topic ≡ k)
      → ¬ (origin_message_id ≡ k)
      → lookup k m.properties ≡ none
  pub key :
      IsBase64 w.b64
      → (k : Option PartitionKey)
      → key_fields w.b64 k ≡ (
        p.metadata.partition_key, p.metadata.partition_key_b64_encoded,
        p.metadata.null_partition_key,
      )
      → m.partition_key ≡ k
  pub ordering : m.ordering_key ≡ p.metadata.ordering_key
  pub time : m.event_time ≡ p.metadata.event_time
  pub no_replicas : m.replicate_to ≡ []
  pub no_schema : m.schema_version ≡ none
  pub at_once : m.deliver_at_time ≡ none

or_else_assoc : (a b c : Option Text) → or_else (or_else a b) c ≡ or_else a (or_else b c)
or_else_assoc (some v) b c = refl
or_else_assoc none b c = refl

or_else-if :
    (b : Bool) (v : Text) (o : Option Text)
    → (if b then some v else o) ≡ or_else (if b then some v else none) o
or_else-if true v o = refl
or_else-if false v o = refl

lookup-collect :
    (k : Text) (ps : List KeyValue) (m : Map Text Text)
    → lookup k (collect_properties ps m) ≡ or_else (last_of k ps) (lookup k m)
unfolding collect_properties
lookup-collect k [] m = refl
lookup-collect k (p ∷ ps) m =
    lookup-collect k ps (insert p.key p.value m)
    ∙ ap (or_else (last_of k ps))
        (lookup-insert p.key k p.value m ∙ or_else-if (text_eq.beq p.key k) p.value (lookup k m))
    ∙ sym (
        or_else_assoc (last_of k ps) (if text_eq.beq p.key k then some p.value else none)
          (lookup k m))

lookup-or_insert :
    (k j v : Text) (m : Map Text Text)
    → lookup j (or_insert k v m) ≡ or_else (lookup j m) (if text_eq.beq k j then some v else none)
unfolding or_insert
lookup-or_insert k j v m = go (lookup k m) refl
  where
    go :
        (o : Option Text)
        → lookup k m ≡ o
        → lookup j (insert_absent o k v m)
          ≡ or_else (lookup j m) (if text_eq.beq k j then some v else none)
    go none e = elim (Bool-cases (text_eq.beq k j)) [
      | inl b ↦
          let same : k ≡ j = (text_eq.beq_iff k j).0 b in
          let absent : lookup j m ≡ none = ap (λ i. lookup i m) (sym same) ∙ e in
          lookup-insert k j v m ∙ rw (b, absent) refl
      | inr b ↦ lookup-insert k j v m ∙ rw b (or_else-none (lookup j m))
    ]
      where
        or_else-none : (o : Option Text) → o ≡ or_else o none
        or_else-none none = refl
        or_else-none (some v) = refl
    go (some old) e = elim (Bool-cases (text_eq.beq k j)) [
      | inl b ↦
          let same : k ≡ j = (text_eq.beq_iff k j).0 b in
          let held : lookup j m ≡ some old = ap (λ i. lookup i m) (sym same) ∙ e in rw held refl
      | inr b ↦ rw b (or_else-none (lookup j m))
    ]
      where
        or_else-none : (o : Option Text) → o ≡ or_else o none
        or_else-none none = refl
        or_else-none (some v) = refl

module _ (w : World) (topic : Text) (id : MessageIdData) (p : Payload MessageMetadata) where
  lookup-properties :
      (k : Text)
      → lookup k (dead_letter_message w topic id p).properties
        ≡ or_else (last_of k p.metadata.properties) (
            or_else
              (if text_eq.beq real_topic k then some topic else none)
              (if text_eq.beq origin_message_id k then some (origin id) else none))
  unfolding dead_letter_message lookup
  lookup-properties k =
      lookup-or_insert origin_message_id k (origin id) _
      ∙ ap (λ o. or_else o (if text_eq.beq origin_message_id k then some (origin id) else none))
          (lookup-or_insert real_topic k topic _
            ∙ ap (λ o. or_else o (if text_eq.beq real_topic k then some topic else none))
                (lookup-collect k p.metadata.properties []
                  ∙ or_else-nothing (last_of k p.metadata.properties)))
      ∙ or_else_assoc (last_of k p.metadata.properties)
          (if text_eq.beq real_topic k then some topic else none)
          (if text_eq.beq origin_message_id k then some (origin id) else none)
    where
      or_else-nothing : (o : Option Text) → or_else o none ≡ o
      or_else-nothing none = refl
      or_else-nothing (some v) = refl

  different : (a b : Text) → ¬ (a ≡ b) → text_eq.beq a b ≡ false
  different a b h = elim (Bool-cases (text_eq.beq a b)) [
    | inl e ↦ absurd (h ((text_eq.beq_iff a b).0 e))
    | inr e ↦ e
  ]

  value_of :
      (o : Option Bool)
      → p.metadata.null_value ≡ o
      → ((o ≡ some true) → received_value p ≡ none)
        × (¬ (o ≡ some true) → received_value p ≡ some p.payload_data)
  unfolding received_value
  value_of none e = (λ h. absurd (cc), λ h. rw e refl)
  value_of (some true) e = (λ h. rw e refl, λ h. absurd (h refl))
  value_of (some false) e = (λ h. absurd (cc), λ h. rw e refl)

  pub dead_letter_message-IsDeadLetter :
      IsDeadLetter w topic id p (dead_letter_message w topic id p)
  unfolding dead_letter_message received_key
  dead_letter_message-IsDeadLetter = record {
    value = value_of p.metadata.null_value refl;
    kept = λ k v h. lookup-properties k ∙ rw h refl;
    names_topic = λ h. lookup-properties real_topic ∙ rw h refl;
    names_id = λ h. lookup-properties origin_message_id ∙ rw h refl;
    no_more = λ k h r o.
        lookup-properties k
        ∙ rw (h, different real_topic k r, different origin_message_id k o) refl;
    key = λ is_b64 k e.
        ap (λ f. from_metadata w.b64 f.0 f.1 f.2) (sym e) ∙ from_metadata-key_fields w.b64 is_b64 k;
    ordering = refl;
    time = refl;
    no_replicas = refl;
    no_schema = refl;
    at_once = refl;
  }
