-- ===== src/IeRegistry.antt =====
-- crates/rustflow_core/src/common/ie_registry.rs: the information elements that the parsers know,
-- by their number and that of the enterprise. Names are the bytes of their UTF-8. The shared
-- reference around the map is left out: nothing else holds a registry that `add_element` changes.
use rustflow.Prelude.{ℕ, Option, List, [], ℕ_discrete}
use rustflow.Prelude.Assoc.{Assoc, lookup as find, insert}

pub data DataType : Type 0 where
  unsigned signed float boolean mac_address octet_array string date_time_seconds : DataType
  date_time_milliseconds date_time_microseconds date_time_nanoseconds ipv4_address : DataType
  ipv6_address basic_list sub_template_list sub_template_multi_list : DataType

abbrev pub Text : Type 0
Text = List ℕ

pub record IeDefinition : Type 0 where
  pub id : ℕ
  pub enterprise_number : Option ℕ
  pub name : Text
  pub data_type : DataType

abbrev pub IeKey : Type 0
IeKey = ℕ × Option ℕ

unfoldable pub IeKey-discrete : Discrete IeKey
IeKey-discrete = hlevel ℕ_discrete

pub record IeRegistry : Type 0 where
  pub elements : Assoc IeKey IeDefinition

unfoldable pub new : IeRegistry
new = record { elements = [] }

unfoldable pub add_element : ℕ → Option ℕ → Text → DataType → IeRegistry → IeRegistry
add_element id enterprise_number name data_type registry =
    let def : IeDefinition = record {
      id = id;
      enterprise_number = enterprise_number;
      name = name;
      data_type = data_type;
    } in
    record { elements = insert IeKey-discrete (id, enterprise_number) def registry.elements }

unfoldable pub lookup : ℕ → Option ℕ → IeRegistry → Option IeDefinition
lookup id enterprise_number registry = find IeKey-discrete (id, enterprise_number) registry.elements
