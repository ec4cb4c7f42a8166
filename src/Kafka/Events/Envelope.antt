-- ===== src/Kafka/Events/Envelope.antt =====
-- pkg/kafka/events: envelope.go and the outbox events of event_base.go.
use be_modami_chat_service.Prelude.{◌≡◌, refl, ap, sym, inl, inr, List, Option, Time}
use be_modami_chat_service.Prelude.Int.{ℤ}
use be_modami_chat_service.Text.{GoString}
use be_modami_chat_service.Text.Json.{Json}
use be_modami_chat_service.Result.{Result, ok, Result-cases}
use be_modami_chat_service.Exec.{Exec, pure, lift, total, wrap, wrap_result, ◌>>=◌}
use be_modami_chat_service.Kafka.Events.{EventActor, EventPayload, Stamps, get_type}

-- The payload is JSON as it came.
pub record Envelope : Type 0 where
  pub event_id : GoString
  pub event_type : GoString
  pub payload : GoString
  pub created_at : Time

-- encoding/json on payloads and on envelopes.
pub record EnvelopeJson (V : Type 0) : Type 0 where
  pub marshal_payload : V → Result GoString
  pub marshal : Envelope → Result GoString
  pub unmarshal : GoString → Result Envelope

module _ {V W : Type 0} (json : EnvelopeJson V) (id_func : W → GoString × W)
    (now : W → Time × W) where
  -- NewEnvelope, and DecodeEnvelope below.
  unfoldable pub new_envelope : (event_type : GoString) → V → Exec W (Envelope × GoString)
  new_envelope event_type payload = do
    data' ← wrap "marshal payload" (lift (json.marshal_payload payload))
    id ← total id_func
    created_at ← total now
    let env : Envelope = record {
      event_id = id;
      event_type = event_type;
      payload = data';
      created_at = created_at;
    }
    encoded ← wrap "marshal envelope" (lift (json.marshal env))
    pure (env, encoded)

unfoldable pub decode_envelope : {V : Type 0} → EnvelopeJson V → GoString → Result Envelope
decode_envelope json data' = wrap_result "decode envelope" (json.unmarshal data')

pub record OutboxEventBase : Type 0 where
  pub event_id : GoString
  pub request_id : GoString
  pub aggregate_id : GoString
  pub payload : EventPayload
  pub actor : Option EventActor
  pub created_at : Time

unfoldable pub new_outbox_event_base :
    {W : Type 0}
    → Stamps W
    → EventPayload
    → (aggregate_id : GoString) → Option EventActor
    → W
    → OutboxEventBase × W
new_outbox_event_base stamps payload aggregate_id actor w =
    let (event_id, w₁) = stamps.new_uuid w in
    let (request_id, w₂) = stamps.new_uuid w₁ in
    let (created_at, w₃) = stamps.now w₂ in
    (
      record {
        event_id = event_id;
        request_id = request_id;
        aggregate_id = aggregate_id;
        payload = payload;
        actor = actor;
        created_at = created_at;
      },
      w₃,
    )

-- GetAggregateType and GetEventName
unfoldable pub get_aggregate_type : OutboxEventBase → GoString
get_aggregate_type o = get_type o.payload

pub record OutboxEventMessage : Type 0 where
  pub payload : EventPayload
  pub event_type : GoString
  pub actor : Option EventActor
  pub created_at : Time

pub record CdcSource : Type 0 where
  pub version : GoString
  pub connector : GoString
  pub name : GoString
  pub database : GoString
  pub table : GoString
  pub schema : GoString

pub record CdcEventMessage : Type 0 where
  pub operation : GoString
  pub before : List (GoString × Json)
  pub after : List (GoString × Json)
  pub source : CdcSource
  pub timestamp : ℤ

-- What NewEnvelope encodes is decoded to the envelope that it returns, whose type is the one asked
-- for, if decoding undoes encoding.
decode-new_envelope :
    {V W : Type 0} (json : EnvelopeJson V) (id_func : W → GoString × W) (now : W → Time × W)
    (event_type : GoString) (payload : V) (env : Envelope) (encoded : GoString) (w w' : W)
    → ((e : Envelope) (text : GoString) → json.marshal e ≡ ok text → json.unmarshal text ≡ ok e)
    → new_envelope json id_func now event_type payload w ≡ (ok (env, encoded), w')
    → (decode_envelope json encoded ≡ ok env) × (env.event_type ≡ event_type)
unfolding new_envelope decode_envelope
decode-new_envelope json id_func now event_type payload env encoded w w' back done =
    elim (Result-cases (json.marshal_payload payload)) [
      | inr (e, bad) ↦ cc (rw bad at done)
      | inl (data', good) ↦
          let (id, w₁) = id_func w in
          let env' : Envelope = record {
            event_id = id;
            event_type = event_type;
            payload = data';
            created_at = (now w₁).0;
          } in
          elim (Result-cases (json.marshal env')) [
            | inr (e, bad) ↦ cc (rw (good, bad) at done)
            | inl (text, made) ↦
                let same : ◌≡◌ {A = Result (Envelope × GoString)} (ok (env', text))
                    (ok (env, encoded)) =
                  ap (λ r. r.0) (rw (good, made) at done) in
                let same_env : env' ≡ env = cc in
                let same_text : text ≡ encoded = cc in
                let read : wrap_result "decode envelope" (json.unmarshal text) ≡ ok env' =
                  rw (back env' text made) refl in
                (rw (same_text, same_env) at read, sym (ap (λ e. e.event_type) same_env))
          ]
    ]
