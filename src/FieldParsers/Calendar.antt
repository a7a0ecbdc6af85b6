-- ===== src/FieldParsers/Calendar.antt =====
-- A calendar without bounds, to run the models: a date is its number of seconds.
use rustflow.Prelude.{some}
use rustflow.Prelude.Ints.{ℤ}
use rustflow.FieldParsers.{Chrono}

abbrev pub calendar : Chrono
calendar = record {
  DateTime = ℤ;
  from_timestamp_secs = λ s. some s;
  from_timestamp_millis = λ s. some s;
  from_timestamp = λ s n. some s;
  timestamp = λ s. s;
  timestamp_millis = λ s. s;
  timestamp_subsec_nanos = λ s. 0;
}
