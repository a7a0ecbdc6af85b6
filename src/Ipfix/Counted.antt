-- ===== src/Ipfix/Counted.antt =====
-- How many elements an exporter can describe.
use rustflow.Prelude.{
  ℕ, ◌+◌, ◌≤◌, ◌≡◌, refl, ap, Option, none, some, ltb, arith, length, ℕ_discrete, Bool-cases, inl,
  inr, ltb→lt,
}
use rustflow.Prelude.Assoc.{
  Assoc, lookup as find, insert, weight, weight-insert, weight_of, length-weight,
}
use rustflow.IeRegistry.{IeRegistry, IeDefinition, DataType, lookup as registered}
use rustflow.Ipfix.Types.{DataRecord}
use rustflow.Ipfix.Described.{elements_found}
use rustflow.Ipfix.ElementTypes.{
  ElementKey, ElementKey-discrete, ElementTypes, Learned, defined, conflicting, Description, found,
  set_learned, elements_of, learn_element, learn_typed, learn_unknown, learn_description, learn,
  described_type, described_by, read, max_elements, same,
}

-- The count is that of the elements of all domains, and within its bound.
pub record IsCounted (types : ElementTypes) : Type 0 where
  pub counted : types.len ≡ weight length types.domains
  pub bounded : types.len ≤ max_elements

weight_of-elements :
    (o : Option (Assoc ElementKey Learned)) → weight_of length o ≡ length (elements_of o)
unfolding weight_of
weight_of-elements none = refl
weight_of-elements (some elements) = refl

weight-set_learned :
    (d : ℕ) (k : ElementKey) (v : Learned) (types : ElementTypes)
    → weight length (set_learned d k v types).domains + weight_of (λ _. 1) (found d k types)
      ≡ weight length types.domains + 1
unfolding set_learned found
weight-set_learned d k v types =
    let o = find ℕ_discrete d types.domains in
    let inner = elements_of o in
    let new = insert ElementKey-discrete k v inner in
    omega (
      arith,
      weight-insert ℕ_discrete length d new types.domains,
      length-weight new,
      length-weight inner,
      weight-insert ElementKey-discrete (λ _. 1) k v inner,
      weight_of-elements o,
      ap (weight_of (λ _. 1)) (elements_found k o),
    )

len-set_learned :
    (d : ℕ) (k : ElementKey) (v : Learned) (types : ElementTypes)
    → (set_learned d k v types).len ≡ types.len
unfolding set_learned
len-set_learned d k v types = refl

module _ (domain : ℕ) (d : Description) (types : ElementTypes) (h : IsCounted types) where
  learn_element-IsCounted :
      (t : DataType) (o : Option Learned)
      → found domain (d.id, d.enterprise_number) types ≡ o
      → IsCounted (learn_element domain d t types o).0
  unfolding learn_element weight_of
  learn_element-IsCounted t (some (defined known definition)) e = elim (Bool-cases (same known d)) [
    | inl b ↦ rw b h
    | inr b ↦ rw b (record {
      counted = omega (
        arith,
        weight-set_learned domain (d.id, d.enterprise_number) conflicting types,
        ap (weight_of (λ _. 1)) e,
        len-set_learned domain (d.id, d.enterprise_number) conflicting types,
        h.counted,
      );
      bounded =
          omega (
            arith,
            len-set_learned domain (d.id, d.enterprise_number) conflicting types,
            h.bounded,
          );
    })
  ]
  learn_element-IsCounted t (some conflicting) e = h
  learn_element-IsCounted t none e = elim (Bool-cases (ltb types.len max_elements)) [
    | inl b ↦ rw b (record {
      counted = omega (
        arith,
        weight-set_learned domain (d.id, d.enterprise_number) (described_by d t) types,
        ap (weight_of (λ _. 1)) e,
        h.counted,
      );
      bounded = omega (arith, ltb→lt _ _ b);
    })
    | inr b ↦ rw b h
  ]

  learn_typed-IsCounted : (o : Option DataType) → IsCounted (learn_typed domain d types o).0
  learn_typed-IsCounted none = h
  learn_typed-IsCounted (some t) =
      learn_element-IsCounted t (found domain (d.id, d.enterprise_number) types) refl

  learn_unknown-IsCounted : (o : Option IeDefinition) → IsCounted (learn_unknown domain d types o).0
  learn_unknown-IsCounted (some ie) = h
  learn_unknown-IsCounted none = learn_typed-IsCounted (described_type d)

learn_description-IsCounted :
    (domain : ℕ) (registry : IeRegistry) (types : ElementTypes) (o : Option Description)
    → IsCounted types
    → IsCounted (learn_description domain registry types o).0
unfolding learn_description
learn_description-IsCounted domain registry types none h = h
learn_description-IsCounted domain registry types (some d) h =
    learn_unknown-IsCounted domain d types h (registered d.id d.enterprise_number registry)

-- Whatever type records an exporter sends, the count of described elements stays that of the elements
-- of all its domains, and at most 1,024: an element that is described again, or brought into conflict,
-- is not counted twice.
pub learn-IsCounted :
    {D : Type 0} (domain : ℕ) (r : DataRecord D) (registry : IeRegistry) (types : ElementTypes)
    → IsCounted types
    → IsCounted (learn domain r registry types).0
unfolding learn
learn-IsCounted domain r registry types h =
    learn_description-IsCounted domain registry types (read r) h
