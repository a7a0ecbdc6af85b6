-- ===== src/SflowV5/PartBytes.antt =====
-- The layout of the parts of flow records: addresses, strings and AS paths, in XDR (RFC 4506).
use rustflow.Prelude.{
  ℕ, ◌-◌, ◌%◌, ◌^◌, ◌<◌, ◌≡◌, refl, some, none, Option, List, [], ◌∷◌, ◌++◌, length, All, false,
  arith,
}
use rustflow.FlowCache.{IpAddr}
use rustflow.FieldParsers.{macaddr6}
use rustflow.FieldParsers.Utf8.{Text, from_utf8, from_utf8_lossy-utf8}
use rustflow.Wire.Read.{Bytes}
use rustflow.Wire.Nom.{Nom}
use rustflow.Wire.Write.{number_bytes}
use rustflow.Wire.Layout.{word, IsU32, each, count-each, take-slice}
use rustflow.Wire.RoundTrip.{reads}
use rustflow.SflowV5.Enums.{segment_type_of}
use rustflow.SflowV5.FlowTypes.{AsPathType}
use rustflow.SflowV5.Flows.{
  parse_address, parse_padded_mac, parse_xdr_string, parse_as_path_segment, collect, contains,
}

-- An address with its type.
unfoldable pub address_bytes : Option IpAddr → Bytes → Bytes
address_bytes none rest = word 0 rest
address_bytes (some (IpAddr.v4 a)) rest = word 1 (word a rest)
address_bytes (some (IpAddr.v6 a)) rest = word 2 (number_bytes 16 a ++ rest)

abbrev pub FitsAddress : Option IpAddr → Type 0
FitsAddress none = Unit
FitsAddress (some (IpAddr.v4 a)) = IsU32 a
FitsAddress (some (IpAddr.v6 a)) = a < 2 ^ 128

pub parse_address-bytes :
    (nom : Nom) (a : Option IpAddr) (rest : Bytes)
    → FitsAddress a
    → parse_address nom (address_bytes a rest) ≡ some (rest, a)
unfolding parse_address address_bytes
parse_address-bytes nom none rest h = let k : 0 < 2 ^ 32 = omega arith in simp (reads, k)
parse_address-bytes nom (some (IpAddr.v4 a)) rest h =
    let k : 1 < 2 ^ 32 = omega arith in simp (reads, k, h)
parse_address-bytes nom (some (IpAddr.v6 a)) rest h =
    let k : 2 < 2 ^ 32 = omega arith in simp (reads, k, h)

-- A MAC address is padded to eight bytes.
abbrev pub mac_bytes : Bytes → Bytes → Bytes
mac_bytes mac rest = mac ++ (number_bytes 2 0 ++ rest)

pub parse_padded_mac-bytes :
    (nom : Nom) (mac rest : Bytes)
    → length mac ≡ 6
    → parse_padded_mac nom (mac_bytes mac rest) ≡ some (rest, mac)
unfolding parse_padded_mac macaddr6
parse_padded_mac-bytes nom mac rest h = simp (take-slice, h, reads)

-- What fills bytes up to whole words.
abbrev pub fill_bytes : Bytes → Bytes → Bytes
fill_bytes s rest = number_bytes ((4 - length s % 4) % 4) 0 ++ rest

-- A string is its length and its bytes, filled up to whole words.
abbrev pub string_bytes : Text → Bytes → Bytes
string_bytes s rest = word (length s) (s ++ fill_bytes s rest)

-- A text whose length fits its word.
pub record FitsText (s : Text) : Type 0 where
  pub utf8 : from_utf8 s ≡ some s
  pub length : IsU32 (length s)

pub parse_xdr_string-bytes :
    (nom : Nom) (s : Text) (rest : Bytes)
    → FitsText s
    → parse_xdr_string nom (string_bytes s rest) ≡ some (rest, s)
unfolding parse_xdr_string
parse_xdr_string-bytes nom s rest h =
    let e = from_utf8_lossy-utf8 s h.utf8 in
    simp (reads, h.length, take-slice nom (length s) s _ refl, e)

-- A segment of an AS path, with its type and its length.
unfoldable pub segment_bytes : AsPathType → Bytes → Bytes
segment_bytes (AsPathType.as_set l) rest = word 1 (word (length l) (each word l rest))
segment_bytes (AsPathType.as_sequence l) rest = word 2 (word (length l) (each word l rest))

-- Each element once.
abbrev pub Distinct : List ℕ → Type 0
Distinct [] = Unit
Distinct (a ∷ l) = (contains a l ≡ false) × Distinct l

abbrev pub FitsSegment : AsPathType → Type 0
FitsSegment (AsPathType.as_set l) = IsU32 (length l) × All IsU32 l × Distinct l
FitsSegment (AsPathType.as_sequence l) = IsU32 (length l) × All IsU32 l

collect-Distinct : (l : List ℕ) → Distinct l → collect l ≡ l
unfolding collect
collect-Distinct [] h = refl
collect-Distinct (a ∷ l) h = rw (collect-Distinct l h.1) (rw h.0 refl)

module _ (nom : Nom) where
  pub count-words :
      (l : List ℕ) (rest : Bytes)
      → All IsU32 l
      → nom.count ℕ nom.be_u32 (length l) (each word l rest) ≡ some (rest, l)
  count-words l rest h =
      count-each word nom.be_u32 IsU32 nom l rest (λ a after k. simp (reads, k)) h

  pub parse_as_path_segment-bytes :
      (s : AsPathType) (rest : Bytes)
      → FitsSegment s
      → parse_as_path_segment nom (segment_bytes s rest) ≡ some (rest, s)
  unfolding parse_as_path_segment segment_bytes segment_type_of
  parse_as_path_segment-bytes (AsPathType.as_set l) rest h =
      let k : 1 < 2 ^ 32 = omega arith in
      simp (reads, k, h.0, count-words l rest h.1, collect-Distinct l h.2)
  parse_as_path_segment-bytes (AsPathType.as_sequence l) rest h =
      let k : 2 < 2 ^ 32 = omega arith in simp (reads, k, h.0, count-words l rest h.1)
