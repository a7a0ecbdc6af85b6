-- ===== src/Ipfix/Described.antt =====
-- What learning from type records keeps and changes of what is known of an exporter's elements.
use rustflow.Prelude.{
  ℕ, ◌+◌, ◌≡◌, ◌≢◌, ◌↔◌, refl, sym, ap, ◌∙◌, Bool, true, false, Option, none, some, ltb, ℕ_discrete,
  ite, if_pos, if_neg, Bool-cases, inl, inr,
}
use rustflow.Prelude.Assoc.{Assoc, lookup as find, insert, lookup-insert}
use rustflow.IeRegistry.{IeRegistry, IeDefinition, DataType, lookup as registered}
use rustflow.Wire.Read.{◌>>=◌}
use rustflow.Ipfix.Types.{DataRecord}
use rustflow.Ipfix.ElementTypes.{
  ElementKey, ElementKey-discrete, ElementTypes, Learned, defined, conflicting, Description, found,
  lookup, set_learned, elements_of, learn_element, learn_typed, learn_unknown, learn_description,
  learn, described_type, read, max_elements, same, definition_of, described_by,
}

pub elements_found :
    (k : ElementKey) (o : Option (Assoc ElementKey Learned))
    → find ElementKey-discrete k (elements_of o)
      ≡ (o >>= λ elements. find ElementKey-discrete k elements)
unfolding find
elements_found k none = refl
elements_found k (some elements) = refl

-- What is found of an element after one was stored: that one, or what was found before.
pub found-set_learned :
    (d d' : ℕ) (k k' : ElementKey) (v : Learned) (types : ElementTypes)
    → found d' k' (set_learned d k v types)
      ≡ ite
          (ℕ_discrete d' d)
          (ite (ElementKey-discrete k' k) (some v) (found d' k' types))
          (found d' k' types)
unfolding found set_learned
found-set_learned d d' k k' v types =
    let new = insert ElementKey-discrete k v (elements_of (find ℕ_discrete d types.domains)) in
    rw (lookup-insert ℕ_discrete d d' new types.domains) (elim (ℕ_discrete d' d) [
      | no ne ↦ rw (if_neg _ ne) (rw (if_neg _ ne) refl)
      | yes e ↦ rw (if_pos _ e) (
          rw (if_pos _ e) (
            lookup-insert ElementKey-discrete k k' v (elements_of (find ℕ_discrete d types.domains))
            ∙ ap (λ o. ite (ElementKey-discrete k' k) (some v) o)
                (elements_found k' (find ℕ_discrete d types.domains)
                  ∙ ap
                      (λ (n : ℕ). find ℕ_discrete n types.domains >>= λ elements.
                        find ElementKey-discrete k' elements)
                      (sym e))))
    ])

-- What a type record about the element `key` of `domain` may change: the definition of no other
-- element; that of this one exactly if the Boolean says so; and nothing of one in conflict.
pub record IsLearned (domain : ℕ) (key : ElementKey) (types types' : ElementTypes) (changed : Bool)
    : Type 0 where
  pub others :
      (d id : ℕ) (number : Option ℕ)
      → ¬ ((d ≡ domain) × (◌≡◌ {A = ElementKey} (id, number) key))
      → lookup d id number types' ≡ lookup d id number types
  pub noticed :
      (changed ≡ true) ↔ (lookup domain key.0 key.1 types' ≢ lookup domain key.0 key.1 types)
  pub settled : found domain key types ≡ some conflicting → types' ≡ types

module _ (domain : ℕ) (key : ElementKey) (types : ElementTypes) where
  unchanged-IsLearned : IsLearned domain key types types false
  unchanged-IsLearned = record {
    others = λ d id number h. refl;
    noticed = ((λ h. cc), (λ h. absurd (h refl)));
    settled = λ h. refl;
  }

  found_self : (v : Learned) → found domain key (set_learned domain key v types) ≡ some v
  found_self v = rw (found-set_learned domain domain key key v types) (
      rw (if_pos (ℕ_discrete domain domain) refl)
        (rw (if_pos (ElementKey-discrete key key) refl) refl))

  found_other :
      (v : Learned) (d : ℕ) (k : ElementKey)
      → ¬ ((d ≡ domain) × (k ≡ key))
      → found d k (set_learned domain key v types) ≡ found d k types
  found_other v d k h = rw (found-set_learned domain d key k v types) (elim (ℕ_discrete d domain) [
    | no ne ↦ rw (if_neg (ℕ_discrete d domain) ne) refl
    | yes e ↦ rw (if_pos (ℕ_discrete d domain) e) (elim (ElementKey-discrete k key) [
      | no ne ↦ rw (if_neg (ElementKey-discrete k key) ne) refl
      | yes e' ↦ absurd (h (e, e'))
    ])
  ])

  -- Where what is stored gives another definition than what was found.
  stored-IsLearned :
      (v : Learned) (n : ℕ)
      → definition_of v ≢ lookup domain key.0 key.1 types
      → found domain key types ≢ some conflicting
      → IsLearned domain key types (record (set_learned domain key v types) { len = n }) true
  unfolding lookup found
  stored-IsLearned v n ne free = record {
    others = λ d id number h. ap (λ o. o >>= definition_of) (found_other v d (id, number) h);
    noticed =
        ((λ _ same. ne (sym (ap (λ o. o >>= definition_of) (found_self v)) ∙ same)), (λ _. refl));
    settled = λ h. absurd (free h);
  }

module _ (domain : ℕ) (d : Description) (types : ElementTypes) where
  abbrev Key : ElementKey
  Key = (d.id, d.enterprise_number)

  learn_element-IsLearned :
      (t : DataType) (o : Option Learned)
      → found domain Key types ≡ o
      → IsLearned domain Key types
          (learn_element domain d t types o).0
          (learn_element domain d t types o).1
  unfolding learn_element set_learned
  learn_element-IsLearned t (some (defined known definition)) e = elim (Bool-cases (same known d)) [
    | inl b ↦ rw b (unchanged-IsLearned domain Key types)
    | inr b ↦ rw b (
        stored-IsLearned domain Key types conflicting types.len
          (λ h. unfold lookup in (let f = h ∙ ap (λ o. o >>= definition_of) e in cc))
          (λ h. let f = sym e ∙ h in cc))
  ]
  learn_element-IsLearned t (some conflicting) e = unchanged-IsLearned domain Key types
  learn_element-IsLearned t none e = elim (Bool-cases (ltb types.len max_elements)) [
    | inl b ↦ rw b (
        stored-IsLearned domain Key types (described_by d t) (types.len + 1)
          (λ h. unfold lookup in (let f = h ∙ ap (λ o. o >>= definition_of) e in cc))
          (λ h. let f = sym e ∙ h in cc))
    | inr b ↦ rw b (unchanged-IsLearned domain Key types)
  ]

  learn_typed-IsLearned :
      (o : Option DataType)
      → IsLearned domain Key types (learn_typed domain d types o).0 (learn_typed domain d types o).1
  learn_typed-IsLearned none = unchanged-IsLearned domain Key types
  learn_typed-IsLearned (some t) = learn_element-IsLearned t (found domain Key types) refl

  learn_unknown-IsLearned :
      (o : Option IeDefinition)
      → IsLearned domain Key types
          (learn_unknown domain d types o).0
          (learn_unknown domain d types o).1
  learn_unknown-IsLearned (some ie) = unchanged-IsLearned domain Key types
  learn_unknown-IsLearned none = learn_typed-IsLearned (described_type d)

pub learn-IsLearned :
    {D : Type 0} (domain : ℕ) (r : DataRecord D) (registry : IeRegistry) (types : ElementTypes)
    (d : Description)
    → read r ≡ some d
    → IsLearned domain
        (d.id, d.enterprise_number)
        types
        (learn domain r registry types).0
        (learn domain r registry types).1
unfolding learn learn_description
learn-IsLearned domain r registry types d e =
    rw e (learn_unknown-IsLearned domain d types (registered d.id d.enterprise_number registry))
