-- ===== src/TemplateCache/Refresh.antt =====
-- `refresh_domain`, which resolves the templates of one domain anew.
use rustflow.Prelude.{
  ℕ, ◌+◌, ◌≤◌, ◌<◌, ◌^◌, ◌≡◌, refl, ◌∙◌, Option, none, some, List, [], ◌∷◌, if◌then◌else◌, length,
  ℕ_discrete, arith, Option-cases, inl, inr, ◌==◌,
}
use rustflow.Prelude.Assoc.{
  Assoc, weight, weight_of, is_empty, lookup, Every, Every-lookup, lookup-insert, Distinct,
  weight-insert, weight_of-le,
}
use rustflow.Prelude.Assoc
use rustflow.Prelude.Words.{add_usize, sub_usize}
use rustflow.TemplateCache.{
  TemplateCache, Entry, entry_len, get, refresh_entries, refresh_domain, domain_refreshed,
}
use rustflow.TemplateCache.Levels.{find, total, IsDomain}
use rustflow.TemplateCache.Valid.{IsTimely, IsValid}

module _ {F : Type 0} (resolve : List F → List F) where
  abbrev resolved : Option (List F) → Option (List F)
  resolved none = none
  resolved (some fields) = some (resolve fields)

  abbrev resolved_entry : Option (Entry F) → Option (Entry F)
  resolved_entry none = none
  resolved_entry (some e) = some (record e { fields = resolve e.fields })

  lookup-refresh_entries :
      (i n : ℕ) (ts : Assoc ℕ (Entry F))
      → lookup ℕ_discrete i (refresh_entries resolve ts n).0
        ≡ resolved_entry (lookup ℕ_discrete i ts)
  unfolding lookup refresh_entries
  lookup-refresh_entries i n [] = refl
  lookup-refresh_entries i n ((j, e) ∷ ts) = ground (
    arith,
    lookup-refresh_entries i (add_usize (sub_usize n (entry_len e)) (length (resolve e.fields))) ts,
  )

  -- `refresh_domain` resolves what is read in the domain, at any time, and nothing else.
  pub get-refresh_domain :
      (t d d' i' : ℕ) (c : TemplateCache F)
      → get t (d', i') (refresh_domain d resolve c)
        ≡ (if d' == d then resolved (get t (d', i') c) else get t (d', i') c)
  unfolding refresh_domain get find
  get-refresh_domain t d d' i' c = elim (Option-cases (lookup ℕ_discrete d c.domains)) [
    | inl n ↦ rw n (ground arith)
    | inr (ts, s) ↦ rw s (
        ground (
          arith,
          lookup-insert ℕ_discrete d d' (refresh_entries resolve ts c.fields).0 c.domains,
          lookup-refresh_entries i' c.fields ts,
        ))
  ]

  module _ (keeps : (fields : List F) → length (resolve fields) ≡ length fields) where
    refresh_entries-weight :
        (n : ℕ) (ts : Assoc ℕ (Entry F))
        → weight entry_len (refresh_entries resolve ts n).0 ≡ weight entry_len ts
    unfolding weight refresh_entries
    refresh_entries-weight n [] = refl
    refresh_entries-weight n ((j, e) ∷ ts) = omega (
      arith,
      keeps e.fields,
      refresh_entries-weight (add_usize (sub_usize n (entry_len e)) (length (resolve e.fields))) ts,
    )

    one_entry :
        (n : ℕ) (e : Entry F)
        → entry_len e ≤ n
        → n < 2 ^ 64
        → add_usize (sub_usize n (entry_len e)) (length (resolve e.fields)) ≡ n
    unfolding add_usize sub_usize
    one_entry n e h lt = omega (arith, keeps e.fields)

    refresh_entries-count :
        (n : ℕ) (ts : Assoc ℕ (Entry F))
        → weight entry_len ts ≤ n
        → n < 2 ^ 64
        → (refresh_entries resolve ts n).1 ≡ n
    unfolding weight refresh_entries
    refresh_entries-count n [] h lt = refl
    refresh_entries-count n ((j, e) ∷ ts) h lt =
        rw (one_entry n e (omega arith) lt) (refresh_entries-count n ts (omega arith) lt)

    refresh_entries-IsDomain :
        (P : Entry F → Type 0)
        → ((e : Entry F) → P e → P (record e { fields = resolve e.fields }))
        → (n : ℕ) (ts : Assoc ℕ (Entry F)) → Distinct ℕ_discrete ts × Every P ts
        → Distinct ℕ_discrete (refresh_entries resolve ts n).0
          × Every P (refresh_entries resolve ts n).0
    unfolding lookup refresh_entries
    refresh_entries-IsDomain P h n [] (d, e) = (tt, tt)
    refresh_entries-IsDomain P h n ((j, x) ∷ ts) ((fresh, d), (p, e)) =
        let n' = add_usize (sub_usize n (entry_len x)) (length (resolve x.fields)) in
        let (d', e') = refresh_entries-IsDomain P h n' ts (d, e) in
        ((lookup-refresh_entries j n' ts ∙ rw fresh refl, d'), (h x p, e'))

    refresh_entries-nonempty :
        (n : ℕ) (ts : Assoc ℕ (Entry F)) → is_empty (refresh_entries resolve ts n).0 ≡ is_empty ts
    unfolding is_empty refresh_entries
    refresh_entries-nonempty n [] = refl
    refresh_entries-nonempty n (x ∷ ts) = refl

    refreshed-IsValid :
        {now : ℕ} (c : TemplateCache F) (d : ℕ) (ts : Assoc ℕ (Entry F))
        → IsValid now c
        → lookup ℕ_discrete d c.domains ≡ some ts
        → IsValid now (domain_refreshed d resolve (some ts) c)
    unfolding total weight_of
    refreshed-IsValid {now} c d ts v s =
        let P : Entry F → Type 0 = IsTimely now c.timeout c.next_expiry in
        let r : IsDomain P ts = Every-lookup ℕ_discrete (IsDomain P) d c.domains v.tidy.each s in
        let (d', e') = refresh_entries-IsDomain P (λ e p. p) c.fields ts (r.0, r.2) in
        let below = weight_of-le ℕ_discrete (weight entry_len) d c.domains in
        let below' : weight entry_len ts ≤ weight (weight entry_len) c.domains = rw s at below in
        let count =
          refresh_entries-count c.fields ts (omega (arith, below', v.counted))
            (omega (arith, v.budget)) in
        let ts' = (refresh_entries resolve ts c.fields).0 in
        let sum = weight-insert ℕ_discrete (weight entry_len) d ts' c.domains in
        let sum' : weight (weight entry_len) (Assoc.insert ℕ_discrete d ts' c.domains)
              + weight entry_len ts
            ≡ weight (weight entry_len) c.domains + weight entry_len ts' =
          rw s at sum in
        record {
          tidy = record {
            distinct = Assoc.insert-Distinct ℕ_discrete d ts' c.domains v.tidy.distinct;
            each =
                Assoc.Every-insert ℕ_discrete (IsDomain P) d ts' c.domains
                  (d', refresh_entries-nonempty c.fields ts ∙ r.1, e') v.tidy.each;
          };
          counted = omega (arith, count, sum', refresh_entries-weight c.fields ts, v.counted);
          budget = omega (arith, count, v.budget);
        }

    -- Resolving anew keeps the invariant, if it keeps the number of a template's fields.
    pub refresh_domain-IsValid :
        {now : ℕ} (c : TemplateCache F) (d : ℕ)
        → IsValid now c
        → IsValid now (refresh_domain d resolve c)
    unfolding refresh_domain
    refresh_domain-IsValid c d v = elim (Option-cases (lookup ℕ_discrete d c.domains)) [
      | inl n ↦ rw n v
      | inr (ts, s) ↦ rw s (refreshed-IsValid c d ts v s)
    ]
