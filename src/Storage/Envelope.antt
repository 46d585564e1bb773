-- ===== src/Storage/Envelope.antt =====
-- The envelopes of shiroe/storage/events.py: how an event is sealed and what a reader accepts. A line
-- of the log that lacks a required field has no counterpart here.
use Prim.Native.String.{◌++◌ as str_append}
use shiroe.Prelude.{
  String, Bool, true, false, Option, List, [], ◌∷◌, contains, ◌==◌, string_eq, if◌then◌else◌,
}
use shiroe.Prelude.Json.{Json, null, bool, num, str, arr, obj, Items, nil, cons, Fields, end, field}

-- an envelope without its hash, which is what the hash covers
pub record Body : Type 0 where
  pub schema : String
  pub event_id : String
  pub timestamp : String
  pub event_type : String
  pub run_id : Option String
  pub actor : String
  pub target : Option String
  pub payload : Json
  pub privacy_class : String
  pub previous_hash : String

pub record Envelope : Type 0 where
  pub body : Body
  pub hash : String

-- What a caller hands to `append`; the id and the time are those that `_prepared` fills in.
pub record Request : Type 0 where
  pub event_type : String
  pub actor : String
  pub payload : Fields
  pub privacy_class : String
  pub run_id : Option String
  pub target : Option String
  pub event_id : String
  pub timestamp : String

pub data LogError : Type 0 where
  wrong_schema wrong_privacy_class payload_not_object unknown_event_type not_json : LogError
  chain_break hash_mismatch : String → LogError
  head_absent head_mismatch : String → LogError

pub data Reply {ℓ} (T : Type ℓ) : Type ℓ where
  good : T → Reply T
  fail : LogError → Reply T

abbrev pub schema_id : String
schema_id = "shiroe.event/v2"

abbrev pub genesis : String
genesis = "sha256:0"

abbrev pub privacy_classes : List String
privacy_classes = "public" ∷ "internal" ∷ "confidential" ∷ "restricted" ∷ []

-- `_KNOWN_EVENT_TYPES`
unfoldable pub known_event_types : List String
known_event_types =
    "memory.written" ∷ "memory.superseded" ∷ "memory.archived" ∷ "memory.rejected"
    ∷ "contradiction.detected" ∷ "contradiction.resolved" ∷ "capability.discovered"
    ∷ "capability.quarantined" ∷ "capability.inspected" ∷ "capability.approved"
    ∷ "capability.benchmarked" ∷ "capability.activated" ∷ "capability.deactivated"
    ∷ "capability.revoked" ∷ "capability.digest_drift" ∷ "capability.invoked" ∷ "capability.stale"
    ∷ "capability.compromised" ∷ "approval.requested" ∷ "approval.decided" ∷ "approval.staled"
    ∷ "adapter.probed" ∷ "adapter.unhealthy" ∷ "run.created" ∷ "run.compiled" ∷ "run.authorized"
    ∷ "run.started" ∷ "run.paused" ∷ "run.resumed" ∷ "run.completed" ∷ "run.failed"
    ∷ "run.cancelled" ∷ "step.started" ∷ "step.completed" ∷ "step.failed" ∷ "step.retried"
    ∷ "attempt.started" ∷ "attempt.completed" ∷ "attempt.failed" ∷ "evidence.reviewed"
    ∷ "evaluator.ran" ∷ "policy.applied" ∷ "policy.denied" ∷ "node.registered"
    ∷ "node.trust_changed" ∷ "node.probed" ∷ "node.lease_acquired" ∷ "node.lease_completed"
    ∷ "node.lease_failed" ∷ "transfer.started" ∷ "transfer.completed" ∷ "transfer.rejected"
    ∷ "remote.execution_started" ∷ "remote.execution_completed" ∷ "remote.execution_failed" ∷ []

is_object : Json → Bool
is_object (obj fields) = true
is_object _ = false

-- `validate_envelope`; the log is read with `strict` off
unfoldable pub validate_envelope : Body → (strict : Bool) → Reply (Unit {0})
unfolding known_event_types is_object
validate_envelope env strict =
    if env.schema == schema_id
    then if contains privacy_classes env.privacy_class
      then if is_object env.payload
        then if strict
          then if contains known_event_types env.event_type
            then good tt
            else fail unknown_event_type
          else good tt
        else fail payload_not_object
      else fail wrong_privacy_class
    else fail wrong_schema

module _ (scrub : String → String) where
  unfoldable mutual
    -- `_walk`: each text is scrubbed, and the structure stays
    pub scrub_json : Json → Json
    scrub_json null = null
    scrub_json (bool b) = bool b
    scrub_json (num n) = num n
    scrub_json (str s) = str (scrub s)
    scrub_json (arr xs) = arr (scrub_items xs)
    scrub_json (obj fs) = obj (scrub_fields fs)

    pub scrub_items : Items → Items
    scrub_items nil = nil
    scrub_items (cons x xs) = cons (scrub_json x) (scrub_items xs)

    pub scrub_fields : Fields → Fields
    scrub_fields end = end
    scrub_fields (field k v rest) = field k (scrub_json v) (scrub_fields rest)

-- `_hash_envelope`, over the library's canonical JSON and SHA-256 in hexadecimal
unfoldable pub hash_envelope : (Body → String) → (String → String) → Body → String
hash_envelope canonical_json sha256 body = str_append "sha256:" (sha256 (canonical_json body))

-- `_prepared`, without the hash
unfoldable pub prepared : Request → (previous_hash : String) → Body
prepared request previous_hash = record {
  schema = schema_id;
  event_id = request.event_id;
  timestamp = request.timestamp;
  event_type = request.event_type;
  run_id = request.run_id;
  actor = request.actor;
  target = request.target;
  payload = obj request.payload;
  privacy_class = request.privacy_class;
  previous_hash = previous_hash;
}
