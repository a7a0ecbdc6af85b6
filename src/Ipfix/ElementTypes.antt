-- ===== src/Ipfix/ElementTypes.antt =====
-- crates/rustflow_core/src/ipfix/element_types.rs: what an exporter says of its own information
-- elements in type records (RFC 5610). The log calls are left out.
use Prim.Native.Nat.{bit_and}
use rustflow.Prelude.{
  ℕ, ◌+◌, ◌^◌, Bool, true, false, ◌&&◌, ◌||◌, not, Option, none, some, List, [], ◌∷◌, ◌++◌, ◌==◌,
  ltb, leb, if◌then◌else◌, length, ℕ_discrete,
}
use rustflow.Prelude.Assoc.{Assoc, lookup as find, insert}
use rustflow.Prelude.Decimal.{decimal}
use rustflow.IeRegistry.{IeRegistry, IeDefinition, DataType, Text, lookup as registered}
use rustflow.Wire.Read.{◌>>=◌}
use rustflow.Ipfix.Types.{FieldSpecifier, Field, FieldValue, Values, no_values, value, DataRecord}

abbrev pub max_elements : ℕ
max_elements = 1024

abbrev pub max_name_length : ℕ
max_name_length = 256

-- An element's ID and enterprise number.
abbrev pub ElementKey : Type 0
ElementKey = ℕ × Option ℕ

unfoldable pub ElementKey-discrete : Discrete ElementKey
ElementKey-discrete = hlevel ℕ_discrete

pub record Description : Type 0 where
  pub id : ℕ
  pub enterprise_number : Option ℕ
  pub data_type : ℕ
  pub semantics : ℕ
  pub name : Option Text

unfoldable pub Description-discrete : Discrete Description
Description-discrete = hlevel ℕ_discrete

pub data Learned : Type 0 where
  defined : Description → IeDefinition → Learned
  conflicting : Learned

-- The elements of each observation domain.
pub record ElementTypes : Type 0 where
  pub domains : Assoc ℕ (Assoc ElementKey Learned)
  pub len : ℕ

unfoldable pub no_elements : ElementTypes
no_elements = record { domains = []; len = 0 }

unfoldable pub found : ℕ → ElementKey → ElementTypes → Option Learned
found domain key types =
    find ℕ_discrete domain types.domains >>= λ elements. find ElementKey-discrete key elements

abbrev pub definition_of : Learned → Option IeDefinition
definition_of (defined description definition) = some definition
definition_of conflicting = none

unfoldable pub lookup : ℕ → ℕ → Option ℕ → ElementTypes → Option IeDefinition
lookup domain id enterprise_number types =
    found domain (id, enterprise_number) types >>= definition_of

-- The name of an element that nothing defines: its number, behind that of its enterprise and a dot.
unfoldable pub unknown_element_name : ℕ → Option ℕ → Text
unknown_element_name id none = decimal id
unknown_element_name id (some enterprise) = decimal enterprise ++ (46 ∷ decimal id)

-- The information elements that a type record is made of, by their IDs.
abbrev pub information_element_id : ℕ
information_element_id = 303

abbrev pub information_element_data_type : ℕ
information_element_data_type = 339

abbrev pub information_element_name : ℕ
information_element_name = 341

abbrev pub information_element_semantics : ℕ
information_element_semantics = 344

abbrev pub private_enterprise_number : ℕ
private_enterprise_number = 346

-- The number `v` as one of `w` bits, by `try_from`.
abbrev narrow : ℕ → ℕ → Option ℕ
narrow w v = if ltb v (2 ^ w) then some v else none

abbrev contains : ℕ → Text → Bool
contains a [] = false
contains a (b ∷ l) = a == b || contains a l

abbrev nonempty : Text → Bool
nonempty [] = false
nonempty (b ∷ l) = true

abbrev usable : Text → Bool
usable name = nonempty name && leb (length name) max_name_length && not (contains 0 name)

-- What is known of a description while its record is read.
pub record Parts : Type 0 where
  pub id : Option ℕ
  pub enterprise_number : Option ℕ
  pub data_type : Option ℕ
  pub semantics : ℕ
  pub name : Option Text

abbrev nonzero : Option ℕ → Option ℕ
nonzero none = none
nonzero (some n) = if n == 0 then none else some n

abbrev described : Parts → Option Description
described parts = do
  id ← parts.id
  data_type ← parts.data_type
  some (record {
    id = id;
    enterprise_number = nonzero parts.enterprise_number;
    data_type = data_type;
    semantics = parts.semantics;
    name = parts.name;
  })

module _ {D : Type 0} where
  unfoldable pub unsigned : FieldValue D → Option ℕ
  unsigned (FieldValue.unsigned8 v) = some v
  unsigned (FieldValue.unsigned16 v) = some v
  unsigned (FieldValue.unsigned32 v) = some v
  unsigned (FieldValue.unsigned64 v) = some v
  unsigned _ = none

  unfoldable pub usable_name : FieldValue D → Option Text
  usable_name (FieldValue.string name) = if usable name then some name else none
  usable_name _ = none

  abbrev known_field : ℕ → FieldValue D → Parts → Option Parts
  known_field id v parts =
      if id == information_element_id
      then some
          (record parts { id = unsigned v >>= λ n. narrow 16 n >>= λ n. some (bit_and n 0x7fff) })
      else if id == private_enterprise_number
      then some (record parts { enterprise_number = unsigned v >>= narrow 32 })
      else if id == information_element_data_type
      then some (record parts { data_type = unsigned v >>= narrow 8 })
      else if id == information_element_semantics
      then (unsigned v >>= λ n. narrow 8 n >>= λ n. some (record parts { semantics = n }))
      else if id == information_element_name
      then some (record parts { name = usable_name v })
      else some parts

  -- A field of an enterprise's own is passed over.
  unfoldable read_field : FieldSpecifier → FieldValue D → Parts → Option Parts
  read_field spec v parts = elim (spec.enterprise_number) [
    | some _ ↦ some parts
    | none ↦ known_field spec.information_element_identifier v parts
  ]

  -- The loop over the fields and their values, as far as both go.
  unfoldable read_fields : List Field → Values D → Parts → Option Parts
  read_fields [] vs parts = some parts
  read_fields (f ∷ fs) no_values parts = some parts
  read_fields (f ∷ fs) (value v vs) parts =
      read_field f.spec v parts >>= λ parts'. read_fields fs vs parts'

  -- `Description::read`
  unfoldable pub read : DataRecord D → Option Description
  unfolding read_field read_fields
  read r =
      let start : Parts = record {
        id = none;
        enterprise_number = none;
        data_type = none;
        semantics = 0;
        name = none;
      } in
      read_fields r.fields r.values start >>= described

abbrev within : ℕ → ℕ → ℕ → Bool
within low high n = leb low n && leb n high

-- Whether the semantics fit the data type.
unfoldable pub semantics_fit : ℕ → ℕ → Bool
semantics_fit data_type semantics =
    if within 1 4 data_type
    then leb semantics 5 || within 7 8 semantics
    else if within 5 8 data_type
    then leb semantics 4
    else if within 9 10 data_type
    then leb semantics 3
    else if within 20 22 data_type
    then semantics == 0 || semantics == 6
    else semantics == 0

unfoldable pub type_of : ℕ → Option DataType
type_of n =
    if n == 0
    then some DataType.octet_array
    else if within 1 4 n
    then some DataType.unsigned
    else if within 5 8 n
    then some DataType.signed
    else if within 9 10 n
    then some DataType.float
    else if n == 11
    then some DataType.boolean
    else if n == 12
    then some DataType.mac_address
    else if n == 13
    then some DataType.string
    else if n == 14
    then some DataType.date_time_seconds
    else if n == 15
    then some DataType.date_time_milliseconds
    else if n == 16
    then some DataType.date_time_microseconds
    else if n == 17
    then some DataType.date_time_nanoseconds
    else if n == 18
    then some DataType.ipv4_address
    else if n == 19
    then some DataType.ipv6_address
    else if n == 20
    then some DataType.basic_list
    else if n == 21
    then some DataType.sub_template_list
    else if n == 22
    then some DataType.sub_template_multi_list
    else none

-- `Description::data_type`
unfoldable pub described_type : Description → Option DataType
described_type d = if semantics_fit d.data_type d.semantics then type_of d.data_type else none

abbrev name_or_number : ElementKey → Option Text → Text
name_or_number (id, enterprise_number) none = unknown_element_name id enterprise_number
name_or_number key (some name) = name

abbrev pub elements_of : Option (Assoc ElementKey Learned) → Assoc ElementKey Learned
elements_of none = []
elements_of (some elements) = elements

-- What is stored of an element, in a domain that may be new.
unfoldable pub set_learned : ℕ → ElementKey → Learned → ElementTypes → ElementTypes
set_learned domain key learned types =
    let elements = elements_of (find ℕ_discrete domain types.domains) in
    record types {
      domains =
          insert ℕ_discrete domain (insert ElementKey-discrete key learned elements) types.domains;
    }

abbrev pub same : Description → Description → Bool
same a b = elim (Description-discrete a b) [ yes _ ↦ true | no _ ↦ false ]

-- What is stored of a described element.
abbrev pub described_by : Description → DataType → Learned
described_by d data_type = defined d (record {
  id = d.id;
  enterprise_number = d.enterprise_number;
  name = name_or_number (d.id, d.enterprise_number) d.name;
  data_type = data_type;
})

-- The `match` of `learn` on what is already known of an element.
unfoldable pub learn_element :
    ℕ → Description → DataType → ElementTypes → Option Learned → ElementTypes × Bool
learn_element domain d data_type types (some (defined known definition)) =
    if same known d
    then (types, false)
    else (set_learned domain (d.id, d.enterprise_number) conflicting types, true)
learn_element domain d data_type types (some conflicting) = (types, false)
learn_element domain d data_type types none =
    let stored = set_learned domain (d.id, d.enterprise_number) (described_by d data_type) types in
    if ltb types.len max_elements
    then (record stored { len = types.len + 1 }, true)
    else (types, false)

abbrev pub learn_typed : ℕ → Description → ElementTypes → Option DataType → ElementTypes × Bool
learn_typed domain d types none = (types, false)
learn_typed domain d types (some data_type) =
    learn_element domain d data_type types (found domain (d.id, d.enterprise_number) types)

abbrev pub learn_unknown :
    ℕ → Description → ElementTypes → Option IeDefinition → ElementTypes × Bool
learn_unknown domain d types (some _) = (types, false)
learn_unknown domain d types none = learn_typed domain d types (described_type d)

-- What the type record `d` changes, unless the registry defines the element.
unfoldable pub learn_description :
    ℕ → IeRegistry → ElementTypes → Option Description → ElementTypes × Bool
learn_description domain registry types none = (types, false)
learn_description domain registry types (some d) =
    learn_unknown domain d types (registered d.id d.enterprise_number registry)

-- The element types, and whether what `lookup` gives for an element changed.
unfoldable pub learn :
    {D : Type 0} → ℕ → DataRecord D → IeRegistry → ElementTypes → ElementTypes × Bool
learn domain r registry types = learn_description domain registry types (read r)
