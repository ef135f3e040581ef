-- ===== src/Connection/Answers.antt =====
-- What a request through a ConnectionSender is answered, by way of the receiver.
use mathlib.Core.List.{append_assoc}
use pulsar_rdg_rs.Prelude.{
  ℕ, if◌then◌else◌, not, ◌&&◌, ◌⊎◌, inl, inr, Bool, false, ◌++◌, ◌≡◌, ◌∙◌, refl, ap, true, Option,
  none, some, List, [], ◌∷◌, arith, ok, err, Result, subst,
}
use pulsar_rdg_rs.Prelude.Int.{ℤ}
use pulsar_rdg_rs.Prelude.Maps.{lookup}
use pulsar_rdg_rs.Bytes.{Text}
use pulsar_rdg_rs.Errors.{ConnectionError, pulsar_error, server_error}
use pulsar_rdg_rs.Proto.{BaseCommand, Requested, CommandError, default_command}
use pulsar_rdg_rs.Connection.{
  Message, Receiver, Register, request, register_consumer, remove_consumer, resolve,
}
use pulsar_rdg_rs.Connection.Keys.{RequestKey, request_id, request_key, request_key_eq}
use pulsar_rdg_rs.Connection.Untouched.{
  Event, registered, received, step, run, run-Keeps, none_concerns,
}
use pulsar_rdg_rs.Connection.Rendezvous.{IsAnswer, IsPlain, after, step-answer}
use pulsar_rdg_rs.Connection.Sender
use pulsar_rdg_rs.Connection.Sender.{
  Channels, Begun, begun, control, push_control, send_via, begin, call, announce, answered,
  on_reply, extract_message, extract, Rpc, or_error, or_unexpected, lookup_topic,
  lookup_partitioned_topic, get_consumer_stats, get_last_message_id, create_producer,
  get_topics_of_namespace, close_producer, subscribe, close_consumer, seek, unsubscribe, get_schema,
}

-- The command with which a broker answers, of type `t`.
abbrev pub reply : Rpc → ℤ → Requested → BaseCommand
reply lookup_topic t q = record (default_command t) { lookup_topic_response = some q }
reply (lookup_partitioned_topic enabled) t q = record (default_command t) {
  partition_metadata_response = some q;
}
reply get_consumer_stats t q = record (default_command t) { consumer_stats_response = some q }
reply get_last_message_id t q = record (default_command t) { get_last_message_id_response = some q }
reply create_producer t q = record (default_command t) { producer_success = some q }
reply get_topics_of_namespace t q = record (default_command t) {
  get_topics_of_namespace_response = some q;
}
reply close_producer t q = record (default_command t) { success = some q }
reply (subscribe consumer_id resolver) t q = record (default_command t) { success = some q }
reply (close_consumer consumer_id) t q = record (default_command t) { success = some q }
reply seek t q = record (default_command t) { success = some q }
reply unsubscribe t q = record (default_command t) { success = some q }
reply get_schema t q = record (default_command t) { get_schema_response = some q }

-- Its answer to any of them that went wrong.
abbrev pub error_reply : ℤ → CommandError → BaseCommand
error_reply t e = record (default_command t) { error = some e }

abbrev pub command_of : BaseCommand → Message
command_of c = record { command = c; payload = none }

-- A catch-all clause is checked for each of the methods.
reply-keyed :
    (rpc : Rpc) (t : ℤ) (q : Requested)
    → request_key (reply rpc t q) ≡ some (request_id q.request_id)
unfolding request_key
reply-keyed lookup_topic t q = refl
reply-keyed _ t q = refl

reply-IsPlain : (rpc : Rpc) (t : ℤ) (q : Requested) → IsPlain (command_of (reply rpc t q))
reply-IsPlain lookup_topic t q = record { no_ping = refl; no_pong = refl }
reply-IsPlain _ t q = record { no_ping = refl; no_pong = refl }

reply-error : (rpc : Rpc) (t : ℤ) (q : Requested) → (reply rpc t q).error ≡ none
reply-error lookup_topic t q = refl
reply-error _ t q = refl

extract-reply :
    (rpc : Rpc) (t : ℤ) (q : Requested) → extract rpc (command_of (reply rpc t q)) ≡ some q
unfolding extract
extract-reply lookup_topic t q = refl
extract-reply _ t q = refl

pub reply-IsAnswer :
    (rpc : Rpc) (t : ℤ) (q : Requested)
    → IsAnswer (request_id q.request_id) (command_of (reply rpc t q))
reply-IsAnswer rpc t q = record {
  plain = reply-IsPlain rpc t q;
  matched = refl;
  keyed = reply-keyed rpc t q;
}

pub error_reply-IsAnswer :
    (t : ℤ) (e : CommandError) → IsAnswer (request_id e.request_id) (command_of (error_reply t e))
unfolding request_key
error_reply-IsAnswer t e = record {
  plain = record { no_ping = refl; no_pong = refl };
  matched = refl;
  keyed = refl;
}

extract_message-reply :
    (debug : BaseCommand → Text) (rpc : Rpc) (t : ℤ) (q : Requested)
    → extract_message debug (extract rpc) (command_of (reply rpc t q)) ≡ ok q
unfolding extract_message
extract_message-reply debug rpc t q =
    ap
      (λ (o : Option CommandError).
        or_error o
          (or_unexpected (debug (reply rpc t q)) (extract rpc (command_of (reply rpc t q)))))
      (reply-error rpc t q)
    ∙ ap (or_unexpected (debug (reply rpc t q))) (extract-reply rpc t q)

begin-control :
    (key : RequestKey) (tx : ℕ) (out : Message) (c : Channels)
    → c.registrations_open ≡ true
    → c.control_open ≡ true
    → begin key tx out control c ≡ (push_control out (Sender.registered key tx c), begun)
unfolding begin send_via
begin-control key tx out c o d = ground arith

-- What the method registers before its request.
abbrev pub announced : Rpc → List Register
announced (subscribe consumer_id resolver) = register_consumer consumer_id resolver ∷ []
announced (close_consumer consumer_id) = remove_consumer consumer_id ∷ []
announced _ = []

abbrev pub taken : List Register → List Event
taken [] = []
taken (reg ∷ regs) = registered reg ∷ taken regs

-- The broker can do what is asked.
abbrev pub IsSupported : Rpc → Channels → Type 0
IsSupported (lookup_partitioned_topic enabled) c =
    (enabled ≡ true) ⊎ (c.supports_without_auto_creation ≡ true)
IsSupported _ c = Unit

-- The registrations and the message are on their way.
abbrev pub requested : Rpc → RequestKey → ℕ → Message → Channels → Channels
requested rpc key tx out c = record c {
  registrations = c.registrations ++ (announced rpc ++ request key tx ∷ []);
  control_queue = c.control_queue ++ out ∷ [];
}

if_true : {A : Type 0} (b : Bool) (x y : A) → b ≡ true → (if b then x else y) ≡ x
if_true true x y h = refl
if_true false x y h = absurd (cc)

if_false : {A : Type 0} (b : Bool) (x y : A) → b ≡ false → (if b then x else y) ≡ y
if_false false x y h = refl
if_false true x y h = absurd (cc)

announce-open :
    (reg : Register) (key : RequestKey) (tx : ℕ) (out : Message) (c : Channels)
    → c.registrations_open ≡ true
    → c.control_open ≡ true
    → announce reg c (λ c. begin key tx out control c) ≡ (
      record c {
        registrations = c.registrations ++ (reg ∷ request key tx ∷ []);
        control_queue = c.control_queue ++ out ∷ [];
      },
      begun,
    )
unfolding announce
announce-open reg key tx out c o d =
    let more : Channels = record c { registrations = c.registrations ++ reg ∷ [] } in
    if_true c.registrations_open _ _ o
    ∙ begin-control key tx out more o d
    ∙ ap
        (λ regs.
          (record c { registrations = regs; control_queue = c.control_queue ++ out ∷ [] }, begun))
        (append_assoc c.registrations (reg ∷ []) (request key tx ∷ []))

call-requested :
    (refusal : Text) (rpc : Rpc) (key : RequestKey) (tx : ℕ) (out : Message) (c : Channels)
    → c.registrations_open ≡ true
    → c.control_open ≡ true
    → IsSupported rpc c
    → call refusal rpc key tx out c ≡ (requested rpc key tx out c, begun)
unfolding call
call-requested refusal (subscribe consumer_id resolver) key tx out c o d s =
    announce-open (register_consumer consumer_id resolver) key tx out c o d
call-requested refusal (close_consumer consumer_id) key tx out c o d s =
    announce-open (remove_consumer consumer_id) key tx out c o d
call-requested refusal (lookup_partitioned_topic enabled) key tx out c o d s =
    if_false (not enabled && not c.supports_without_auto_creation) _ _ (allowed s)
    ∙ begin-control key tx out c o d
  where
    allowed :
        (enabled ≡ true) ⊎ (c.supports_without_auto_creation ≡ true)
        → (not enabled && not c.supports_without_auto_creation) ≡ false
    allowed (inl e) = ground (arith, e)
    allowed (inr e) = ground (arith, e)
call-requested refusal _ key tx out c o d s = begin-control key tx out c o d

announced-quiet : (rpc : Rpc) (key : RequestKey) → none_concerns key (taken (announced rpc)) ≡ true
announced-quiet lookup_topic key = refl
announced-quiet _ key = refl

-- Let any of the twelve methods that send a request with an id and wait for its answer be called on
-- a connection that is open, `lookup_partitioned_topic` only with leave to create the topic or on a
-- broker that need not create it. Then the registrations of the method, of which the request's is
-- the last, and the message are on their way. Let the receiver, which keeps no message under the
-- id, take these registrations, and then events that do not concern the id. When the broker's
-- answer is the command that it answers this method with, the receiver hands exactly this answer to
-- the method, keeps nothing of the request, and the method returns the sub-command that it is for;
-- when the answer is an error with this id, the method returns the broker's error.
pub call-answered :
    (rpc : Rpc) (refusal : Text) (debug : BaseCommand → Text) (t : ℤ) (q : Requested)
    (e : CommandError) (tx : ℕ) (out : Message) (c : Channels) (r : Receiver) (es : List Event)
    → c.registrations_open ≡ true
    → c.control_open ≡ true
    → IsSupported rpc c
    → e.request_id ≡ q.request_id
    → lookup (request_id q.request_id) r.received_messages ≡ none
    → none_concerns (request_id q.request_id) es ≡ true
    → let key = request_id q.request_id in
      let good = command_of (reply rpc t q) in
      let bad = command_of (error_reply t e) in
      let c' = requested rpc key tx out c in
      let waiting = after (run r (taken (announced rpc))).0 (registered (request key tx)) es in
      (call refusal rpc key tx out c ≡ (c', begun))
      × ((step waiting (received good)).1 ≡ resolve tx good ∷ [])
      × (lookup key (step waiting (received good)).0.pending_requests ≡ none)
      × (on_reply debug (extract rpc) (answered good) c' ≡ (c', ok q))
      × ((step waiting (received bad)).1 ≡ resolve tx bad ∷ [])
      × (on_reply debug (extract rpc) (answered bad) c'
          ≡ (c', err (pulsar_error (server_error e.error) (some e.message))))
unfolding on_reply extract_message
call-answered rpc refusal debug t q e tx out c r es o d supported same free quiet =
    let key : RequestKey = request_id q.request_id in
    let c' : Channels = requested rpc key tx out c in
    let r' : Receiver = (run r (taken (announced rpc))).0 in
    let free' : lookup key r'.received_messages ≡ none =
      (run-Keeps key r (taken (announced rpc)) (announced-quiet rpc key)).received_ ∙ free in
    let good =
      step-answer key tx (command_of (reply rpc t q)) r' es (reply-IsAnswer rpc t q) free' quiet in
    let bad =
      step-answer key tx (command_of (error_reply t e)) r' es
        (subst (λ (i : ℕ). IsAnswer (request_id i) (command_of (error_reply t e))) same
          (error_reply-IsAnswer t e))
        free' quiet in
    (
      call-requested refusal rpc key tx out c o d supported,
      good.0,
      good.1,
      ap (λ (x : Result ConnectionError Requested). (c', x)) (extract_message-reply debug rpc t q),
      bad.0,
      refl,
    )
