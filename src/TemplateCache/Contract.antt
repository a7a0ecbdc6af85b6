-- ===== src/TemplateCache/Contract.antt =====
-- What the template cache promises: which templates `insert` stores, and what every operation
-- leaves for later reads.
use rustflow.Prelude.{
  ℕ, ◌-◌, ◌≤◌, ◌<◌, ◌^◌, ◌≡◌, ◌∙◌, Bool, true, none, some, List, ltb, if◌then◌else◌, length,
  ℕ_discrete, arith, Option-cases, inl, inr, ◌==◌, ◌&&◌,
}
use rustflow.Prelude.Assoc.{
  Assoc, weight, weight_of, is_empty, lookup, Every, lookup-remove_ne, lookup-remove_self,
  Every-lookup, lookup-insert,
}
use rustflow.Prelude.Assoc
use rustflow.TemplateCache.{
  TemplateKey, TemplateCache, Entry, get, remove_expired, remove, refuse, store_entry, swept,
  make_room, insert, remove_domain, removed_from,
}
use rustflow.TemplateCache.Levels.{find, IsDomain, find-store, find-put_back}
use rustflow.TemplateCache.Valid.{IsTimely, IsValid}
use rustflow.TemplateCache.Preserve.{swept-IsValid, make_room-IsValid}
use rustflow.TemplateCache.Reads.{
  admits, fits→admits, fits-admits, get-swept, get-make_room, admits-swept, admits-make_room,
  make_room-AllLive,
}

abbrev pub same_key : TemplateKey → TemplateKey → Bool
same_key (d, i) (d', i') = (d' == d) && (i' == i)

module _ {F : Type 0} where
  get-store_entry :
      (now t d i d' i' : ℕ) (fields : List F) (c : TemplateCache F)
      → get t (d', i') (store_entry now (d, i) fields c) ≡ (
          if same_key (d, i) (d', i')
          then (if ltb (t - now) c.timeout then some fields else none)
          else get t (d', i') c)
  unfolding get store_entry
  get-store_entry now t d i d' i' fields c =
      rw (find-store d i d' i' (record { fields = fields; sent_at = now }) c.domains) (ground arith)

  get-removed_from :
      {now : ℕ} (t d i d' i' : ℕ) (c : TemplateCache F) (ts : Assoc ℕ (Entry F))
      → IsValid now c
      → lookup ℕ_discrete d c.domains ≡ some ts
      → get t (d', i') (removed_from d i (some ts) c)
        ≡ (if same_key (d, i) (d', i') then none else get t (d', i') c)
  unfolding get find
  get-removed_from {now} t d i d' i' c ts v s =
      let domain : IsDomain (IsTimely now c.timeout c.next_expiry) ts =
        Every-lookup ℕ_discrete (IsDomain (IsTimely now c.timeout c.next_expiry)) d c.domains
          v.tidy.each s in
      ground (
        arith,
        find-put_back _ d d' i' (Assoc.remove ℕ_discrete i ts) c.domains v.tidy,
        lookup-remove_self ℕ_discrete i ts domain.0,
        lookup-remove_ne ℕ_discrete i i' ts,
      )

  get_absent :
      (t d i d' i' : ℕ) (c : TemplateCache F)
      → lookup ℕ_discrete d c.domains ≡ none
      → get t (d', i') c ≡ (if same_key (d, i) (d', i') then none else get t (d', i') c)
  unfolding get find
  get_absent t d i d' i' c n = ground arith

  -- After `remove` the template is gone, and every other read is as before.
  pub get-remove :
      (now t d i d' i' : ℕ) (c : TemplateCache F)
      → IsValid now c
      → get t (d', i') (remove (d, i) c)
        ≡ (if (d' == d) && (i' == i) then none else get t (d', i') c)
  unfolding remove
  get-remove now t d i d' i' c v = elim (Option-cases (lookup ℕ_discrete d c.domains)) [
    | inl n ↦ rw (n, removed_from) (get_absent t d i d' i' c n)
    | inr (ts, s) ↦ rw s (get-removed_from t d i d' i' c ts v s)
  ]

  -- `remove_domain` withdraws every template of the domain, and no other.
  pub get-remove_domain :
      (now t d d' i' : ℕ) (c : TemplateCache F)
      → IsValid now c
      → get t (d', i') (remove_domain d c) ≡ (if d' == d then none else get t (d', i') c)
  unfolding remove_domain get find
  get-remove_domain now t d d' i' c v = elim (Option-cases (lookup ℕ_discrete d c.domains)) [
    | inl n ↦ rw n (ground arith)
    | inr (ts, s) ↦ rw s (
        ground (
          arith,
          lookup-remove_self ℕ_discrete d c.domains v.tidy.distinct,
          lookup-remove_ne ℕ_discrete d d' c.domains,
        ))
  ]

  swept-timeout : (now : ℕ) (c : TemplateCache F) → (swept now c).timeout ≡ c.timeout
  unfolding swept remove_expired
  swept-timeout now c = ground arith

  make_room-timeout : (now : ℕ) (c : TemplateCache F) → (make_room now c).timeout ≡ c.timeout
  unfolding make_room remove_expired
  make_room-timeout now c = ground arith

  get-refuse :
      (now t d i d' i' : ℕ) (c : TemplateCache F)
      → IsValid now c
      → get t (d', i') (refuse (d, i) c)
        ≡ (if same_key (d, i) (d', i') then none else get t (d', i') c)
  unfolding refuse
  get-refuse now t d i d' i' c v =
      get-remove now t d i d' i' (record c { refusing = true })
        (record { tidy = v.tidy; counted = v.counted; budget = v.budget })
      ∙ unfold get in ground arith

  -- From `now` on, a read of the stored key finds the new fields until the timeout, if the live
  -- templates beside the replaced one leave room for them within the budget, and nothing if not:
  -- skipping a sweep that would free nothing changes no decision. A read of any other key finds
  -- what it found before.
  pub get-insert :
      (now t d i d' i' : ℕ) (fields : List F) (c : TemplateCache F)
      → IsValid now c
      → length fields < 2 ^ 63
      → now ≤ t
      → get t (d', i') (insert now (d, i) fields c) ≡ (
          if (d' == d) && (i' == i)
          then (if admits now (d, i) fields c && ltb (t - now) c.timeout then some fields else none)
          else get t (d', i') c)
  unfolding insert
  get-insert now t d i d' i' fields c v short later =
      let c1 = swept now c in
      let c2 = make_room now c1 in
      let v1 = swept-IsValid now c v in
      let v2 = make_room-IsValid now c1 v1 in
      ground (
        arith,
        get-store_entry now t d i d' i' fields c1,
        get-store_entry now t d i d' i' fields c2,
        get-refuse now t d i d' i' c2 v2,
        swept-timeout now c,
        make_room-timeout now c1,
        get-swept now d i c v t d' i' later,
        get-make_room now d i c1 v1 t d' i' later,
        admits-swept now d i c v fields,
        admits-make_room now d i c1 v1 fields,
        fits→admits now d i fields short c1 v1,
        fits-admits now d i fields short c2 v2 (make_room-AllLive now d i c1 v1),
      )
