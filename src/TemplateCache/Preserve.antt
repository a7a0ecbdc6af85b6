-- ===== src/TemplateCache/Preserve.antt =====
-- Every operation of the template cache keeps its invariant.
use rustflow.Prelude.{
  ℕ, ◌+◌, ◌-◌, ◌≤◌, ◌<◌, ◌^◌, ◌%◌, ◌≡◌, refl, Bool, true, some, List, leb, length, ℕ_discrete,
  arith, Bool-cases, Option-cases, inl, inr, leb→le,
}
use rustflow.Prelude.Assoc.{
  Assoc, weight, weight_of, is_empty, lookup, Every, Every-map, Every-lookup, Every-remove,
  weight-remove, weight_of-le, remove-Distinct,
}
use rustflow.Prelude.Assoc
use rustflow.Prelude.Words.{add_usize, usize_mod, add_usize_exact, sub_usize_exact}
use rustflow.TemplateCache.{
  TemplateCache, Entry, max_template_fields, entry_len, is_live, fits, remove_expired, remove,
  refuse, store_entry, swept, make_room, insert, remove_domain, removed_from, is_due,
}
use rustflow.TemplateCache.Levels.{
  Domains, find, store, put_back, retain_all, total, IsTidy-map, IsDomain, total-store,
  find-le-total, total-put_back, total-retain_all, retain_all-IsTidy, store-IsTidy, put_back-IsTidy,
  remove_domain-IsTidy, IsTidy-both, total-split,
}
use rustflow.TemplateCache.Valid.{
  IsTimely, IsValid, Precedes-min_left, Precedes-min_right, earliest-each,
}

module _ {F : Type 0} where
  pub remove_expired-IsValid :
      (now : ℕ) (c : TemplateCache F) → IsValid now c → IsValid now (remove_expired now c)
  unfolding remove_expired
  remove_expired-IsValid now c v = record {
    tidy =
        IsTidy-both _ _ _ live
          (λ e (p : IsTimely now c.timeout c.next_expiry e × (alive e ≡ true)) q. (p.0.0, q))
          (retain_all-IsTidy _ alive c.domains v.tidy) (earliest-each c.timeout live);
    counted = omega (arith, sum_fits);
    budget = omega (arith, sum_fits);
  }
    where
      alive : Entry F → Bool
      alive = is_live now c.timeout

      live : Domains (Entry F)
      live = retain_all alive c.domains

      sum_fits : total entry_len live ≤ max_template_fields
      sum_fits = omega (
        arith,
        total-retain_all alive entry_len c.domains,
        total-split alive entry_len c.domains,
        v.counted,
        v.budget,
      )

  -- `fits` computes what it means: without wrapping, and with no subtraction below 0.
  pub fits_lem :
      {now : ℕ} (c : TemplateCache F) (d i : ℕ) (fields : List F)
      → IsValid now c
      → length fields < 2 ^ 63
      → fits (d, i) fields c
        ≡ leb
            (c.fields - weight_of entry_len (find d i c.domains) + length fields)
            max_template_fields
  unfolding fits
  fits_lem c d i fields v h =
      let below = find-le-total entry_len d i c.domains in
      let exact =
        sub_usize_exact c.fields (weight_of entry_len (find d i c.domains))
          (omega (arith, below, v.counted)) (omega (arith, v.budget)) in
      rw
        (
          exact,
          add_usize_exact (c.fields - weight_of entry_len (find d i c.domains)) (length fields)
              (omega (arith, v.budget)),
        )
        refl

  -- What `store_entry` leaves in `fields`.
  pub store_entry-fields :
      {now : ℕ} (c : TemplateCache F) (d i : ℕ) (fields : List F)
      → IsValid now c
      → length fields < 2 ^ 63
      → (store_entry now (d, i) fields c).fields + weight_of entry_len (find d i c.domains)
        ≡ c.fields + length fields
  unfolding store_entry weight_of
  store_entry-fields c d i fields v h = elim (Option-cases (find d i c.domains)) [
    | inl n ↦
        rw (n, store_entry)
          (omega (arith, add_usize_exact c.fields (length fields) (omega (arith, v.budget))))
    | inr (e, s) ↦
        let below : entry_len e ≤ total entry_len c.domains =
          rw s at (find-le-total entry_len d i c.domains) in
        let exact = add_usize_exact c.fields (length fields) (omega (arith, v.budget)) in
        rw (s, store_entry)
          (omega (
            arith,
            exact,
            v.counted,
            sub_usize_exact (add_usize c.fields (length fields)) (entry_len e)
                (omega (arith, exact, below, v.counted)) (omega (arith, exact, v.budget)),
          ))
  ]

  pub store_entry-IsValid :
      (now : ℕ) (c : TemplateCache F) (d i : ℕ) (fields : List F)
      → IsValid now c
      → length fields < 2 ^ 63
      → fits (d, i) fields c ≡ true
      → IsValid now (store_entry now (d, i) fields c)
  unfolding store_entry
  store_entry-IsValid now c d i fields v h room = record {
    tidy =
        store-IsTidy _ d i e c.domains
          (omega arith, Precedes-min_left (now + c.timeout) c.next_expiry)
          (IsTidy-map (IsTimely now c.timeout c.next_expiry) _ c.domains
            (λ x p. (p.0, Precedes-min_right (now + c.timeout) c.next_expiry _ p.1)) v.tidy);
    counted = omega (arith, after, stored, below, v.counted);
    budget =
        omega (arith, after, v.counted, below, leb→le _ _ (rw (fits_lem c d i fields v h) at room));
  }
    where
      e : Entry F
      e = record { fields = fields; sent_at = now }

      after :
          (store_entry now (d, i) fields c).fields + weight_of entry_len (find d i c.domains)
          ≡ c.fields + length fields
      after = store_entry-fields c d i fields v h

      stored :
          total entry_len (store d i e c.domains) + weight_of entry_len (find d i c.domains)
          ≡ total entry_len c.domains + length fields
      stored = total-store entry_len d i e c.domains

      below : weight_of entry_len (find d i c.domains) ≤ total entry_len c.domains
      below = find-le-total entry_len d i c.domains

  removed_fields :
      {now : ℕ} (c : TemplateCache F) (d i : ℕ) (ts : Assoc ℕ (Entry F))
      → IsValid now c
      → lookup ℕ_discrete d c.domains ≡ some ts
      → (removed_from d i (some ts) c).fields + weight_of entry_len (lookup ℕ_discrete i ts)
        ≡ c.fields
  unfolding weight_of
  removed_fields c d i ts v s =
      let whole = weight_of-le ℕ_discrete (weight entry_len) d c.domains in
      let whole' : weight entry_len ts ≤ total entry_len c.domains =
        unfold total in rw s at whole in
      let part = weight_of-le ℕ_discrete entry_len i ts in
      elim (Option-cases (lookup ℕ_discrete i ts)) [
        | inl n ↦ rw (n, removed_from) (omega arith)
        | inr (e, r) ↦
            let below : entry_len e ≤ weight entry_len ts = rw r at part in
            rw (r, removed_from)
              (omega (
                arith,
                v.counted,
                below,
                whole',
                sub_usize_exact c.fields (entry_len e) (omega (arith, v.counted, below, whole'))
                    (omega (arith, v.budget)),
              ))
      ]

  removed_from-IsValid :
      {now : ℕ} (c : TemplateCache F) (d i : ℕ) (ts : Assoc ℕ (Entry F))
      → IsValid now c
      → lookup ℕ_discrete d c.domains ≡ some ts
      → IsValid now (removed_from d i (some ts) c)
  unfolding weight_of
  removed_from-IsValid {now} c d i ts v s =
      let domain : IsDomain (IsTimely now c.timeout c.next_expiry) ts =
        Every-lookup ℕ_discrete (IsDomain (IsTimely now c.timeout c.next_expiry)) d c.domains
          v.tidy.each s in
      let left = total-put_back entry_len d (Assoc.remove ℕ_discrete i ts) c.domains in
      let left' : total entry_len (put_back d (Assoc.remove ℕ_discrete i ts) c.domains)
            + weight entry_len ts
          ≡ total entry_len c.domains + weight entry_len (Assoc.remove ℕ_discrete i ts) =
        rw s at left in
      record {
        tidy =
            put_back-IsTidy (IsTimely now c.timeout c.next_expiry) d _ c.domains
              (remove-Distinct ℕ_discrete i ts domain.0)
              (Every-remove ℕ_discrete (IsTimely now c.timeout c.next_expiry) i ts domain.2) v.tidy;
        counted = omega (
          arith,
          removed_fields c d i ts v s,
          v.counted,
          left',
          weight-remove ℕ_discrete entry_len i ts,
        );
        budget = omega (arith, removed_fields c d i ts v s, v.budget);
      }

  pub remove-IsValid :
      {now : ℕ} (c : TemplateCache F) (d i : ℕ) → IsValid now c → IsValid now (remove (d, i) c)
  unfolding remove
  remove-IsValid c d i v = elim (Option-cases (lookup ℕ_discrete d c.domains)) [
    | inl n ↦ rw (n, removed_from) v
    | inr (ts, s) ↦ rw s (removed_from-IsValid c d i ts v s)
  ]

  pub remove_domain-IsValid :
      {now : ℕ} (c : TemplateCache F) (d : ℕ) → IsValid now c → IsValid now (remove_domain d c)
  unfolding remove_domain weight_of total
  remove_domain-IsValid {now} c d v = elim (Option-cases (lookup ℕ_discrete d c.domains)) [
    | inl n ↦ rw n v
    | inr (ts, s) ↦
        let gone = weight-remove ℕ_discrete (weight entry_len) d c.domains in
        let gone' : weight (weight entry_len) (Assoc.remove ℕ_discrete d c.domains)
              + weight entry_len ts
            ≡ weight (weight entry_len) c.domains =
          rw s at gone in
        let exact =
          sub_usize_exact c.fields (weight entry_len ts % usize_mod)
            (omega (arith, v.counted, gone', v.budget)) (omega (arith, v.budget)) in
        rw s (record {
          tidy = remove_domain-IsTidy (IsTimely now c.timeout c.next_expiry) d c.domains v.tidy;
          counted = omega (arith, exact, v.counted, gone', v.budget);
          budget = omega (arith, exact, v.budget);
        })
  ]

  pub swept-IsValid : (now : ℕ) (c : TemplateCache F) → IsValid now c → IsValid now (swept now c)
  unfolding swept
  swept-IsValid now c v = elim (Bool-cases (leb c.next_sweep now)) [
    | inl t ↦ rw t (remove_expired-IsValid now c v)
    | inr t ↦ rw t v
  ]

  pub make_room-IsValid :
      (now : ℕ) (c : TemplateCache F) → IsValid now c → IsValid now (make_room now c)
  unfolding make_room
  make_room-IsValid now c v = elim (Bool-cases (is_due now c.next_expiry)) [
    | inl t ↦ rw t (remove_expired-IsValid now c v)
    | inr t ↦ rw t v
  ]

  pub refuse-IsValid :
      {now : ℕ} (c : TemplateCache F) (d i : ℕ) → IsValid now c → IsValid now (refuse (d, i) c)
  unfolding refuse
  refuse-IsValid c d i v =
      remove-IsValid (record c { refusing = true }) d i
        (record { tidy = v.tidy; counted = v.counted; budget = v.budget })

  -- Storing a template keeps the invariant, whether the template is stored or refused: no template
  -- is listed twice, the count of fields is exact and within the budget, and `next_expiry` comes
  -- no later than any entry's expiry.
  pub insert-IsValid :
      (now : ℕ) (c : TemplateCache F) (d i : ℕ) (fields : List F)
      → IsValid now c
      → length fields < 2 ^ 63
      → IsValid now (insert now (d, i) fields c)
  unfolding insert
  insert-IsValid now c d i fields v h =
      let v1 = swept-IsValid now c v in
      let v2 = make_room-IsValid now (swept now c) v1 in
      elim (Bool-cases (fits (d, i) fields (swept now c))) [
        | inl t ↦ rw t (store_entry-IsValid now (swept now c) d i fields v1 h t)
        | inr t ↦ rw t (elim (Bool-cases (fits (d, i) fields (make_room now (swept now c)))) [
          | inl u ↦ rw u (store_entry-IsValid now _ d i fields v2 h u)
          | inr u ↦ rw u (refuse-IsValid _ d i v2)
        ])
      ]
