-- ===== src/Envelope/Samples.antt =====
-- An envelope for the tests: leaves are texts, every value has the JSON text "{}", and no byte is kept.
use tauri_boilerplate.Base.{ℕ, Bool, true, String, Option, some, List, [], Result, ok}
use tauri_boilerplate.Base.Int.{pos}
use tauri_boilerplate.Envelope.Json.{Value, leaf}
use tauri_boilerplate.Envelope.Types.{update, SyncOperation, SyncEnvelope, Literals}
use tauri_boilerplate.Envelope.Builder.{EnvelopeError, seal}

abbrev pub literals : Literals String
literals = record { text = λ t. t; integer = λ n. "number"; undefined = "undefined"; null = "null" }

abbrev pub stringify : Value String → Option String
stringify v = some "{}"

abbrev pub encode : String → List ℕ
encode t = []

abbrev pub iso_date : String → Option String
iso_date t = some t

abbrev pub operation : SyncOperation String
operation = record {
  operation_id = "op";
  application_id = "app";
  organisation_id = "org";
  sync_group_id = "g";
  feature_id = "notes";
  entity_type = "note";
  entity_id = "n";
  operation = update;
  payload = some (leaf "text");
  author_id = "anna";
  device_id = "phone";
  logical_timestamp = "00000000018f_0002_node-a";
  schema_version = pos 1;
  protocol_version = pos 1;
}

abbrev pub key : String
key = "ed25519_pk_0123456789abcdef0123456789abcdef0123456789abcdef0123456789abcdef"

abbrev pub signature : String
signature =
    "0123456789abcdef0123456789abcdef0123456789abcdef0123456789abcdef0123456789abcdef0123456789abcdef0123456789abcdef0123456789abcdef"

abbrev pub sign : List ℕ → Result EnvelopeError String
sign bytes = ok signature

abbrev pub verify_fn : String → List ℕ → String → Result EnvelopeError Bool
verify_fn k bytes s = ok true

abbrev pub envelope : SyncEnvelope String
envelope = seal operation key signature "2026-01-01T00:00:00.000Z"
