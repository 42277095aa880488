-- ===== src/LiveLogs/Events.antt =====
-- src/adapters/service_logs.rs: streams, selections and events. A line is the list of its bytes.
use aku_supervisor.Base.{
  ℕ, String, Bool, true, false, Option, none, some, List, if◌then◌else◌, str_eq, length,
}

pub data LogStream : Type 0 where
  stdout stderr : LogStream

unfoldable pub parse_stream : String → Option LogStream
parse_stream value =
    if str_eq value "stdout"
    then some LogStream.stdout
    else (if str_eq value "stderr" then some LogStream.stderr else none)

pub data LiveLogSelection : Type 0 where
  both stdout stderr : LiveLogSelection

unfoldable pub parse_selection : String → Option LiveLogSelection
parse_selection value =
    if str_eq value "both"
    then some LiveLogSelection.both
    else (if str_eq value "stdout"
        then some LiveLogSelection.stdout
        else (if str_eq value "stderr" then some LiveLogSelection.stderr else none))

abbrev pub includes : LiveLogSelection → LogStream → Bool
includes LiveLogSelection.both stream = true
includes LiveLogSelection.stdout LogStream.stdout = true
includes LiveLogSelection.stderr LogStream.stderr = true
includes _ _ = false

-- `event.stream.is_some_and(|stream| selection.includes(stream))`
abbrev pub selects : LiveLogSelection → Option LogStream → Bool
selects selection none = false
selects selection (some stream) = includes selection stream

pub data LiveLogEventKind : Type 0 where
  line gap heartbeat hub_reset : LiveLogEventKind

pub record LiveLogCursor : Type 0 where
  pub hub_instance_id : String
  pub sequence : ℕ

pub record LiveLogEvent : Type 0 where
  pub schema_version : ℕ
  pub kind : LiveLogEventKind
  pub hub_instance_id : String
  pub service_id : String
  pub sequence : Option ℕ
  pub stream : Option LogStream
  pub observed_at_unix_ms : ℕ
  pub text : Option (List ℕ)
  pub dropped : Option ℕ
  pub previous_hub_instance_id : Option String
  pub replayed : Bool
  pub source_modified_at_unix_ms : Option ℕ

-- `event.text.as_ref().map_or(0, String::len)`
abbrev pub text_len : Option (List ℕ) → ℕ
text_len none = 0
text_len (some text) = length text

-- `now` is the time that the code reads from the system clock.
abbrev pub line_event : (now : ℕ) → String → String → LogStream → ℕ → List ℕ → LiveLogEvent
line_event now instance_id service_id stream sequence text = record {
  schema_version = 1;
  kind = LiveLogEventKind.line;
  hub_instance_id = instance_id;
  service_id = service_id;
  sequence = some sequence;
  stream = some stream;
  observed_at_unix_ms = now;
  text = some text;
  dropped = none;
  previous_hub_instance_id = none;
  replayed = false;
  source_modified_at_unix_ms = none;
}

abbrev time_or : ℕ → Option ℕ → ℕ
time_or now none = now
time_or now (some modified) = modified

abbrev pub replayed_line_event :
    (now : ℕ) → String → String → LogStream → ℕ → List ℕ → Option ℕ → LiveLogEvent
replayed_line_event now instance_id service_id stream sequence text modified =
    record (line_event (time_or now modified) instance_id service_id stream sequence text) {
      replayed = true;
      source_modified_at_unix_ms = modified;
    }

abbrev pub gap_event : (now : ℕ) → LiveLogEvent → ℕ → LiveLogEvent
gap_event now event lost = record {
  schema_version = 1;
  kind = LiveLogEventKind.gap;
  hub_instance_id = event.hub_instance_id;
  service_id = event.service_id;
  sequence = event.sequence;
  stream = none;
  observed_at_unix_ms = now;
  text = none;
  dropped = some lost;
  previous_hub_instance_id = none;
  replayed = false;
  source_modified_at_unix_ms = none;
}

-- `reset_text` is the notice that the event carries.
abbrev pub hub_reset_event :
    (now : ℕ) → (reset_text : List ℕ) → String → String → String → ℕ → LiveLogEvent
hub_reset_event now reset_text instance_id previous service_id high_watermark = record {
  schema_version = 1;
  kind = LiveLogEventKind.hub_reset;
  hub_instance_id = instance_id;
  service_id = service_id;
  sequence = some high_watermark;
  stream = none;
  observed_at_unix_ms = now;
  text = some reset_text;
  dropped = none;
  previous_hub_instance_id = some previous;
  replayed = false;
  source_modified_at_unix_ms = none;
}
