-- ===== src/FieldParsers.antt =====
-- crates/rustflow_core/src/common/parser.rs: the parsers that the protocols share. An IPv4 address
-- is its number, an IPv6 or MAC address its bytes and a string the bytes of its UTF-8. Dates are chrono's,
-- which makes one of a timestamp if it can represent it.
pub mod Utf8
pub mod Takes
pub mod Numbers
pub mod Calendar
use rustflow.Prelude.{
  ℕ, zero, suc, ◌+◌, ◌-◌, ◌*◌, ◌/◌, ◌%◌, ◌^◌, Option, none, some, List, [], ◌∷◌, ◌==◌,
  if◌then◌else◌, length, Bool, true, false, ltb,
}
use rustflow.Prelude.Ints.{ℤ, signed, shift_right, sub_ints}
use rustflow.Wire.Read.{Bytes, Parser, ◌>>=◌, map_value, map_opt}
use rustflow.Wire.Nom.{Nom}
use Utf8.{Text, from_utf8, trim_end_zeros}

-- `DateTime<Utc>`: its constructors, from seconds, milliseconds, or seconds and nanoseconds, and
-- the seconds, milliseconds and nanoseconds of the second that it reads as.
pub record Chrono : Type 1 where
  pub DateTime : Type 0
  pub from_timestamp_secs : ℤ → Option DateTime
  pub from_timestamp_millis : ℤ → Option DateTime
  pub from_timestamp : ℤ → ℕ → Option DateTime
  pub timestamp : DateTime → ℤ
  pub timestamp_millis : DateTime → ℤ
  pub timestamp_subsec_nanos : DateTime → ℕ

abbrev pub ntp_unix_epoch_diff : ℕ
ntp_unix_epoch_diff = 2_208_988_800

-- The fold over the bytes of a number, in u64.
unfoldable pub fold_bytes : ℕ → Bytes → ℕ
fold_bytes acc [] = acc
fold_bytes acc (b ∷ bs) = fold_bytes (acc * 256 % 2 ^ 64 + b) bs

-- `(v as i64).wrapping_shl(shift).wrapping_shr(shift)` in i64, whose shifts are taken modulo 64.
unfoldable pub sign_extend : ℕ → ℕ → ℤ
sign_extend length v =
    let shift = (64 - 8 * length) % 64 in shift_right shift (signed 64 (v * 2 ^ shift % 2 ^ 64))

abbrev boolean_value : ℕ → Option Bool
boolean_value v = if v == 1 then some true else if v == 2 then some false else none

abbrev text : Bytes → Option Text
text v = elim (from_utf8 v) [ none ↦ none | some t ↦ some (trim_end_zeros t) ]

module _ (nom : Nom) where
  open nom use {be_u8, be_u16, be_u32, be_u64, take}

  unfoldable pub ipv4_addr : Parser ℕ
  ipv4_addr = be_u32

  unfoldable pub ipv6_addr : Parser Bytes
  ipv6_addr = take 16

  unfoldable pub macaddr6 : Parser Bytes
  macaddr6 = take 6

  unfoldable pub string : ℕ → Parser (Option Text)
  string length input = map_value text (take length input)

  unfoldable pub boolean : Parser (Option Bool)
  boolean input = map_value boolean_value (be_u8 input)

  unfoldable pub be_uint : ℕ → Parser ℕ
  be_uint length input = map_value (fold_bytes 0) (take length input)

  unfoldable pub be_int : ℕ → Parser ℤ
  be_int length input = map_value (sign_extend length) (be_uint length input)

  unfoldable pub vector : ℕ → Parser Bytes
  vector length input = take length input

  unfoldable pub verify_version : Bytes → ℕ → Option (Bytes × ℕ)
  verify_version input expected_version = do
    (input, v) ← be_u16 input
    if v == expected_version then some (input, v) else none

  unfoldable pub two_u32 : Parser (ℕ × ℕ)
  two_u32 input = do (input, s) ← be_u32 input; (input, f) ← be_u32 input; some (input, (s, f))

  module _ (chrono : Chrono) where
    open chrono use {DateTime, from_timestamp_secs, from_timestamp_millis, from_timestamp}

    unfoldable pub ntp_to_datetime : ℕ × ℕ → Option DateTime
    ntp_to_datetime (ntp_secs, fraction) =
        let unix_secs = sub_ints ntp_secs ntp_unix_epoch_diff in
        let nanos = fraction * 1_000_000_000 / 2 ^ 32 in from_timestamp unix_secs (nanos % 2 ^ 32)

    unfoldable pub timestamp_secs : Parser DateTime
    timestamp_secs input = map_opt (λ v. from_timestamp_secs (ℤ.pos v)) (be_u32 input)

    -- `i64::try_from` of a u64.
    unfoldable pub millis_date : ℕ → Option DateTime
    millis_date v = if ltb v (2 ^ 63) then from_timestamp_millis (ℤ.pos v) else none

    unfoldable pub timestamp_millis : Parser (Option DateTime)
    timestamp_millis input = map_value millis_date (be_u64 input)

    unfoldable pub timestamp_micros : Parser DateTime
    timestamp_micros input = map_opt ntp_to_datetime (two_u32 input)

    unfoldable pub timestamp_nanos : Parser DateTime
    timestamp_nanos input = map_opt ntp_to_datetime (two_u32 input)
