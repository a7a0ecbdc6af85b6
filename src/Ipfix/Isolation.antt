-- ===== src/Ipfix/Isolation.antt =====
-- What an IPFIX message changes of a parser: nothing that belongs to another observation domain.
use rustflow.Prelude.{
  ℕ, ◌≤◌, ◌<◌, ◌^◌, ◌≡◌, ◌≢◌, refl, ◌∙◌, Bool, false, ◌||◌, Option, List, [], ◌∷◌, length,
  length-map, arith, ◌==◌, ==_iff, Bool-cases, Option-cases, inl, inr, All,
}
use rustflow.IeRegistry.{IeRegistry}
use rustflow.TemplateCache.{get}
use rustflow.TemplateCache.Valid.{IsValid}
use rustflow.TemplateCache.Contract.{get-insert, get-remove, get-remove_domain}
use rustflow.TemplateCache.Preserve.{insert-IsValid, remove-IsValid, remove_domain-IsValid}
use rustflow.Ipfix.Types.{
  FieldSpecifier, TemplateRecord, OptionsTemplateRecord, Record, DataRecord, template,
  options_template, data_of, options_data,
}
use rustflow.Ipfix.ElementTypes.{ElementTypes, lookup, learn, read, learn_description}
use rustflow.Ipfix.Described.{learn-IsLearned}
use rustflow.Ipfix.DataRecords.{IpfixParser, Templates}
use rustflow.Ipfix.Sets.{
  withdraw_templates, apply_template, apply_templates, apply_options, resolve_fields,
  is_valid_template_id, learn_record, learn_records,
}

-- What changes of a cache `c` at `now`, for the templates of `domain` only.
record CacheKeeps (now domain : ℕ) (c c' : Templates) : Type 0 where
  valid : IsValid now c'
  kept : (t d i : ℕ) → now ≤ t → d ≢ domain → get t (d, i) c' ≡ get t (d, i) c

-- What a message of `domain` at `now` keeps of a parser `p`: both caches are valid, and from `now` on
-- the templates of every other domain, and the definitions of its elements, are as they were.
pub record Keeps (now domain : ℕ) (p p' : IpfixParser) : Type 0 where
  pub templates_valid : IsValid now p'.templates
  pub options_valid : IsValid now p'.options_templates
  pub templates_kept :
      (t d i : ℕ) → now ≤ t → d ≢ domain → get t (d, i) p'.templates ≡ get t (d, i) p.templates
  pub options_kept :
      (t d i : ℕ)
      → now ≤ t
      → d ≢ domain
      → get t (d, i) p'.options_templates ≡ get t (d, i) p.options_templates
  pub types_kept :
      (d id : ℕ) (number : Option ℕ)
      → d ≢ domain
      → lookup d id number p'.element_types ≡ lookup d id number p.element_types

pub ne_false : (d domain : ℕ) → d ≢ domain → (d == domain) ≡ false
ne_false d domain ne = elim (Bool-cases (d == domain)) [
  | inl e ↦ absurd (ne ((==_iff d domain).0 e))
  | inr e ↦ e
]

pub length-resolve_fields :
    (r : IeRegistry) (types : ElementTypes) (domain : ℕ) (fields : List FieldSpecifier)
    → length (resolve_fields r types domain fields) ≡ length fields
unfolding resolve_fields
length-resolve_fields r types domain fields = length-map _ fields

module _ (now domain : ℕ) (r : IeRegistry) (types : ElementTypes) where
  withdraw-CacheKeeps :
      (id all_id : ℕ) (c : Templates)
      → IsValid now c
      → CacheKeeps now domain c (withdraw_templates domain id all_id c)
  unfolding withdraw_templates
  withdraw-CacheKeeps id all_id c v = elim (Bool-cases (id == all_id)) [
    | inl e ↦ rw e (record {
      valid = remove_domain-IsValid c domain v;
      kept = λ t d i le ne. get-remove_domain now t domain d i c v ∙ rw (ne_false d domain ne) refl;
    })
    | inr e ↦ rw e (record {
      valid = remove-IsValid c domain id v;
      kept = λ t d i le ne. get-remove now t domain id d i c v ∙ rw (ne_false d domain ne) refl;
    })
  ]

  apply-CacheKeeps :
      (id all_id : ℕ) (fields : List FieldSpecifier) (c : Templates)
      → IsValid now c
      → length fields < 2 ^ 63
      → CacheKeeps now domain c (apply_template now r types domain all_id id fields c)
  unfolding apply_template
  apply-CacheKeeps id all_id [] c v short = withdraw-CacheKeeps id all_id c v
  apply-CacheKeeps id all_id (f ∷ fs) c v short = elim (Bool-cases (is_valid_template_id id)) [
    | inr e ↦ rw e (record { valid = v; kept = λ t d i le ne. refl })
    | inl e ↦
        let fields = resolve_fields r types domain (f ∷ fs) in
        let short' : length fields < 2 ^ 63 =
          omega (arith, short, length-resolve_fields r types domain (f ∷ fs)) in
        rw e (record {
          valid = insert-IsValid now c domain id fields v short';
          kept = λ t d i le ne.
              get-insert now t domain id d i fields c v short' le ∙ rw (ne_false d domain ne) refl;
        })
  ]

module _ (now domain : ℕ) (p : IpfixParser) where
  pub apply_templates-Keeps :
      (ts : List TemplateRecord) (p' : IpfixParser)
      → All (λ t. length t.fields < 2 ^ 63) ts
      → Keeps now domain p p'
      → Keeps now domain p (apply_templates now domain ts p')
  unfolding apply_templates
  apply_templates-Keeps [] p' h k = k
  apply_templates-Keeps (t ∷ ts) p' (h, hs) k =
      let step =
        apply-CacheKeeps now domain p'.ie_registry p'.element_types t.template_id 2 t.fields
          p'.templates k.templates_valid h in
      apply_templates-Keeps ts _ hs (record {
        templates_valid = step.valid;
        options_valid = k.options_valid;
        templates_kept = λ u d i le ne. step.kept u d i le ne ∙ k.templates_kept u d i le ne;
        options_kept = k.options_kept;
        types_kept = k.types_kept;
      })

  pub apply_options-Keeps :
      (ts : List OptionsTemplateRecord) (p' : IpfixParser)
      → All (λ t. length t.fields < 2 ^ 63) ts
      → Keeps now domain p p'
      → Keeps now domain p (apply_options now domain ts p')
  unfolding apply_options
  apply_options-Keeps [] p' h k = k
  apply_options-Keeps (t ∷ ts) p' (h, hs) k =
      let step =
        apply-CacheKeeps now domain p'.ie_registry p'.element_types t.template_id 3 t.fields
          p'.options_templates k.options_valid h in
      apply_options-Keeps ts _ hs (record {
        templates_valid = k.templates_valid;
        options_valid = step.valid;
        templates_kept = k.templates_kept;
        options_kept = λ u d i le ne. step.kept u d i le ne ∙ k.options_kept u d i le ne;
        types_kept = k.types_kept;
      })

module _ {D : Type 0} (domain : ℕ) (registry : IeRegistry) where
  learn-others :
      (r : DataRecord D) (types : ElementTypes) (d id : ℕ) (number : Option ℕ)
      → d ≢ domain
      → lookup d id number (learn domain r registry types).0 ≡ lookup d id number types
  learn-others r types d id number ne = elim (Option-cases (read r)) [
    | inl e ↦ unfold learn learn_description in rw e refl
    | inr (description, e) ↦
        (learn-IsLearned domain r registry types description e).others d id number (λ h. ne h.0)
  ]

  learn_record-others :
      (r : Record D) (types : ElementTypes) (d id : ℕ) (number : Option ℕ)
      → d ≢ domain
      → lookup d id number (learn_record domain registry r types).0 ≡ lookup d id number types
  learn_record-others (template _) types d id number ne = refl
  learn_record-others (options_template _) types d id number ne = refl
  learn_record-others (data_of _) types d id number ne = refl
  learn_record-others (options_data r) types d id number ne = learn-others r types d id number ne

  pub learn_records-others :
      (rs : List (Record D)) (types : ElementTypes) (changed : Bool) (d id : ℕ) (number : Option ℕ)
      → d ≢ domain
      → lookup d id number (learn_records domain registry rs types changed).0
        ≡ lookup d id number types
  unfolding learn_records
  learn_records-others [] types changed d id number ne = refl
  learn_records-others (r ∷ rs) types changed d id number ne =
      learn_records-others rs (learn_record domain registry r types).0
        (changed || (learn_record domain registry r types).1) d id number ne
      ∙ learn_record-others r types d id number ne
