-- ===== src/DataRecord.antt =====
-- crates/rustflow_core/src/common/data_record.rs: a record's values beside their fields. The field
-- list that a record shares with the template cache is the list itself. Serialization is left out.
use rustflow.Prelude.{ℕ, List, [], ◌∷◌, length, Bool, ◌==◌}
use rustflow.IeRegistry.{Text, DataType}

pub record ResolvedField (S : Type 0) : Type 0 where
  pub spec : S
  pub data_type : DataType
  pub name : Text

pub record DataRecord (S V : Type 0) : Type 0 where
  pub fields : List (ResolvedField S)
  pub values : List V

module _ {S V : Type 0} where
  unfoldable pub from_template : List (ResolvedField S) → List V → DataRecord S V
  from_template fields values = record { fields = fields; values = values }

  unfoldable pub len : DataRecord S V → ℕ
  len r = length r.values

  unfoldable pub is_empty : DataRecord S V → Bool
  is_empty r = len r == 0

  -- `zip` stops at the shorter list.
  abbrev zip : List (ResolvedField S) → List V → List (S × Text × V)
  zip [] vs = []
  zip (f ∷ fs) [] = []
  zip (f ∷ fs) (v ∷ vs) = (f.spec, f.name, v) ∷ zip fs vs

  unfoldable pub iter : DataRecord S V → List (S × Text × V)
  iter r = zip r.fields r.values
