-- ===== src/TemplateCache/Levels.antt =====
-- The two levels of maps in a template cache: a map from domains to maps from template IDs.
use rustflow.Prelude.{
  ℕ, ◌+◌, ◌≤◌, ◌≡◌, refl, ◌∙◌, Bool, true, false, not, ◌&&◌, Option, none, some, [], ◌∷◌,
  if◌then◌else◌, ◌==◌, ℕ_discrete, arith, Bool-cases, Option-cases, inl, inr,
}
use rustflow.Prelude.Assoc.{
  Assoc, weight, weight_of, retain, is_empty, lookup, insert, remove, Distinct, Every,
  weight-insert, weight-remove, lookup-insert, lookup-remove_ne, lookup-remove_self, weight_of-le,
  Every-map, Every-both, weight-add, weight-eq, Every-lookup, Every-insert, Every-remove,
  insert-Distinct, remove-Distinct, retain-Distinct, Every-retain, lookup-retain,
}

abbrev pub Domains : Type 0 → Type 0
Domains E = Assoc ℕ (Assoc ℕ E)

module _ {E : Type 0} where
  abbrev or_default : Option (Assoc ℕ E) → Assoc ℕ E
  or_default none = []
  or_default (some m) = m

  abbrev find_in : Option (Assoc ℕ E) → ℕ → Option E
  find_in none i = none
  find_in (some m) i = lookup ℕ_discrete i m

  -- `domains.get(&domain)?.get(&id)`
  unfoldable pub find : ℕ → ℕ → Domains E → Option E
  find d i m = find_in (lookup ℕ_discrete d m) i

  -- `domains.entry(domain).or_default().insert(id, entry)`
  unfoldable pub store : ℕ → ℕ → E → Domains E → Domains E
  store d i e m = insert ℕ_discrete d (insert ℕ_discrete i e (or_default (lookup ℕ_discrete d m))) m

  -- A domain whose last template goes is removed too.
  unfoldable pub put_back : ℕ → Assoc ℕ E → Domains E → Domains E
  put_back d ts m = if is_empty ts then remove ℕ_discrete d m else insert ℕ_discrete d ts m

  -- `domains.retain(…)` around `templates.retain(…)`
  unfoldable pub retain_all : (E → Bool) → Domains E → Domains E
  retain_all p [] = []
  retain_all p ((d, ts) ∷ m) =
      let rest = retain_all p m in
      let ts' = retain p ts in if is_empty ts' then rest else (d, ts') ∷ rest

  -- A number summed over every entry.
  unfoldable pub total : (E → ℕ) → Domains E → ℕ
  total f = weight (weight f)

  pub total-store :
      (f : E → ℕ) (d i : ℕ) (e : E) (m : Domains E)
      → total f (store d i e m) + weight_of f (find d i m) ≡ total f m + f e
  unfolding total store find weight_of weight
  total-store f d i e m = elim (Option-cases (lookup ℕ_discrete d m)) [
    | inl n ↦ rw n (
        unfold lookup insert in
        ground (arith, weight-insert ℕ_discrete (weight f) d ((i, e) ∷ []) m))
    | inr (ts, s) ↦ rw s (
        ground (
          arith,
          weight-insert ℕ_discrete (weight f) d (insert ℕ_discrete i e ts) m,
          weight-insert ℕ_discrete f i e ts,
        ))
  ]

  pub find-le-total : (f : E → ℕ) (d i : ℕ) (m : Domains E) → weight_of f (find d i m) ≤ total f m
  unfolding total find weight_of weight
  find-le-total f d i m = elim (Option-cases (lookup ℕ_discrete d m)) [
    | inl n ↦ rw n (omega arith)
    | inr (ts, s) ↦
        ground (arith, weight_of-le ℕ_discrete (weight f) d m, weight_of-le ℕ_discrete f i ts)
  ]

  pub total-put_back :
      (f : E → ℕ) (d : ℕ) (ts : Assoc ℕ E) (m : Domains E)
      → total f (put_back d ts m) + weight_of (weight f) (lookup ℕ_discrete d m)
        ≡ total f m + weight f ts
  unfolding total put_back weight_of weight is_empty
  total-put_back f d [] m = weight-remove ℕ_discrete (weight f) d m ∙ omega arith
  total-put_back f d (t ∷ ts) m = weight-insert ℕ_discrete (weight f) d (t ∷ ts) m

  pub find-store :
      (d i d' i' : ℕ) (e : E) (m : Domains E)
      → find d' i' (store d i e m) ≡ (if (d' == d) && (i' == i) then some e else find d' i' m)
  unfolding find store lookup
  find-store d i d' i' e m =
      let ts = or_default (lookup ℕ_discrete d m) in
      ground (
        arith,
        lookup-insert ℕ_discrete d d' (insert ℕ_discrete i e ts) m,
        lookup-insert ℕ_discrete i i' e ts,
      )

  -- Each domain is listed once and holds a template, each template is listed once, and `P` holds
  -- of every entry.
  abbrev pub IsDomain : (E → Type 0) → Assoc ℕ E → Type 0
  IsDomain P ts = Distinct ℕ_discrete ts × (is_empty ts ≡ false) × Every P ts

  pub record IsTidy (P : E → Type 0) (m : Domains E) : Type 0 where
    pub distinct : Distinct ℕ_discrete m
    pub each : Every (IsDomain P) m

  pub IsTidy-map :
      (P Q : E → Type 0) (m : Domains E) → ((e : E) → P e → Q e) → IsTidy P m → IsTidy Q m
  IsTidy-map P Q m h t = record {
    distinct = t.distinct;
    each =
        Every-map (IsDomain P) (IsDomain Q) (λ ts r. (r.0, r.1, Every-map P Q h ts r.2)) m t.each;
  }

  pub IsTidy-both :
      (P Q R : E → Type 0) (m : Domains E)
      → ((e : E) → P e → Q e → R e)
      → IsTidy P m
      → Every (Every Q) m
      → IsTidy R m
  IsTidy-both P Q R m h t q = record {
    distinct = t.distinct;
    each =
        Every-both (IsDomain P) (Every Q) (IsDomain R)
          (λ ts r s. (r.0, r.1, Every-both P Q R h ts r.2 s)) m t.each q;
  }

  insert-ne-empty : (i : ℕ) (e : E) (ts : Assoc ℕ E) → is_empty (insert ℕ_discrete i e ts) ≡ false
  unfolding insert is_empty
  insert-ne-empty i e [] = refl
  insert-ne-empty i e ((j, x) ∷ ts) = ground arith

  insert-IsDomain :
      (P : E → Type 0) (i : ℕ) (e : E) (ts : Assoc ℕ E)
      → P e
      → Distinct ℕ_discrete ts
      → Every P ts
      → IsDomain P (insert ℕ_discrete i e ts)
  insert-IsDomain P i e ts p d h = (
    insert-Distinct ℕ_discrete i e ts d,
    insert-ne-empty i e ts,
    Every-insert ℕ_discrete P i e ts p h,
  )

  pub find-tidy :
      (P : E → Type 0) (d i : ℕ) (m : Domains E) {e : E} → IsTidy P m → find d i m ≡ some e → P e
  unfolding find
  find-tidy P d i m t h = elim (Option-cases (lookup ℕ_discrete d m)) [
    | inl n ↦ cc
    | inr (ts, s) ↦
        let r : IsDomain P ts = Every-lookup ℕ_discrete (IsDomain P) d m t.each s in
        Every-lookup ℕ_discrete P i ts r.2 (ground arith)
  ]

  pub store-IsTidy :
      (P : E → Type 0) (d i : ℕ) (e : E) (m : Domains E)
      → P e
      → IsTidy P m
      → IsTidy P (store d i e m)
  unfolding store
  store-IsTidy P d i e m p t = record {
    distinct = insert-Distinct ℕ_discrete d _ m t.distinct;
    each = Every-insert ℕ_discrete (IsDomain P) d _ m domain t.each;
  }
    where
      domain : IsDomain P (insert ℕ_discrete i e (or_default (lookup ℕ_discrete d m)))
      domain = elim (Option-cases (lookup ℕ_discrete d m)) [
        | inl n ↦ rw n (insert-IsDomain P i e [] p tt tt)
        | inr (ts, s) ↦
            let r : IsDomain P ts = Every-lookup ℕ_discrete (IsDomain P) d m t.each s in
            rw s (insert-IsDomain P i e ts p r.0 r.2)
      ]

  pub put_back-IsTidy :
      (P : E → Type 0) (d : ℕ) (ts : Assoc ℕ E) (m : Domains E)
      → Distinct ℕ_discrete ts
      → Every P ts
      → IsTidy P m
      → IsTidy P (put_back d ts m)
  unfolding put_back is_empty
  put_back-IsTidy P d [] m dt e t = record {
    distinct = remove-Distinct ℕ_discrete d m t.distinct;
    each = Every-remove ℕ_discrete (IsDomain P) d m t.each;
  }
  put_back-IsTidy P d (x ∷ ts) m dt e t = record {
    distinct = insert-Distinct ℕ_discrete d (x ∷ ts) m t.distinct;
    each = Every-insert ℕ_discrete (IsDomain P) d (x ∷ ts) m (dt, refl, e) t.each;
  }

  pub remove_domain-IsTidy :
      (P : E → Type 0) (d : ℕ) (m : Domains E) → IsTidy P m → IsTidy P (remove ℕ_discrete d m)
  remove_domain-IsTidy P d m t = record {
    distinct = remove-Distinct ℕ_discrete d m t.distinct;
    each = Every-remove ℕ_discrete (IsDomain P) d m t.each;
  }

  pub find-put_back :
      (P : E → Type 0) (d d' i' : ℕ) (ts : Assoc ℕ E) (m : Domains E)
      → IsTidy P m
      → find d' i' (put_back d ts m) ≡ (if d' == d then lookup ℕ_discrete i' ts else find d' i' m)
  unfolding find put_back is_empty lookup
  find-put_back P d d' i' [] m t = elim (ℕ_discrete d' d) [
    | yes p ↦ rw p (ground (arith, lookup-remove_self ℕ_discrete d m t.distinct))
    | no p ↦ ground (arith, lookup-remove_ne ℕ_discrete d d' m p)
  ]
  find-put_back P d d' i' (x ∷ ts) m t = ground (arith, lookup-insert ℕ_discrete d d' (x ∷ ts) m)

  -- The number of the entries that pass a test.
  abbrev pub kept : (E → Bool) → (E → ℕ) → E → ℕ
  kept p f e = if p e then f e else 0

  -- A sum splits into the part that passes a test and the part that does not.
  pub total-split :
      (p : E → Bool) (f : E → ℕ) (m : Domains E)
      → total (kept p f) m + total (kept (λ e. not (p e)) f) m ≡ total f m
  unfolding total
  total-split p f m = weight-add _ _ _ (λ ts. weight-add _ _ _ (λ e. ground arith) ts) m

  pub weight_of-split :
      (p : E → Bool) (f : E → ℕ) (o : Option E)
      → weight_of (kept p f) o + weight_of (kept (λ e. not (p e)) f) o ≡ weight_of f o
  unfolding weight_of
  weight_of-split p f none = omega arith
  weight_of-split p f (some e) = ground arith

  weight-retain :
      (p : E → Bool) (f : E → ℕ) (ts : Assoc ℕ E) → weight f (retain p ts) ≡ weight (kept p f) ts
  unfolding weight retain
  weight-retain p f [] = refl
  weight-retain p f ((i, e) ∷ ts) = ground (arith, weight-retain p f ts)

  pub total-retain_all :
      (p : E → Bool) (f : E → ℕ) (m : Domains E) → total f (retain_all p m) ≡ total (kept p f) m
  unfolding total weight retain_all is_empty
  total-retain_all p f [] = refl
  total-retain_all p f ((d, ts) ∷ m) = ground (arith, weight-retain p f ts, total-retain_all p f m)

  pub retain_all-none :
      (p : E → Bool) (d : ℕ) (m : Domains E)
      → lookup ℕ_discrete d m ≡ none
      → lookup ℕ_discrete d (retain_all p m) ≡ none
  unfolding lookup retain_all is_empty
  retain_all-none p d [] h = refl
  retain_all-none p d ((j, ts) ∷ m) h = ground (arith, retain_all-none p d m)

  pub retain_all-IsTidy :
      (P : E → Type 0) (p : E → Bool) (m : Domains E)
      → IsTidy P m
      → IsTidy (λ e. P e × (p e ≡ true)) (retain_all p m)
  unfolding retain_all
  retain_all-IsTidy P p [] t = record { distinct = tt; each = tt }
  retain_all-IsTidy P p ((d, ts) ∷ m) t =
      let rest = retain_all-IsTidy P p m (record { distinct = t.distinct.1; each = t.each.1 }) in
      elim (Bool-cases (is_empty (retain p ts))) [
        | inl none_left ↦ rw none_left rest
        | inr some_left ↦ rw some_left (record {
          distinct = (retain_all-none p d m t.distinct.0, rest.distinct);
          each = (
            (retain-Distinct ℕ_discrete p ts t.each.0.0, some_left, Every-retain P p ts t.each.0.2),
            rest.each,
          );
        })
      ]

  find_in-empty : (ts : Assoc ℕ E) (i : ℕ) → is_empty ts ≡ true → lookup ℕ_discrete i ts ≡ none
  unfolding lookup is_empty
  find_in-empty [] i h = refl
  find_in-empty (x ∷ ts) i h = cc

  abbrev pub filtered : (E → Bool) → Option E → Option E
  filtered p none = none
  filtered p (some e) = if p e then some e else none

  lookup-filtered :
      (p : E → Bool) (i : ℕ) (ts : Assoc ℕ E)
      → Distinct ℕ_discrete ts
      → lookup ℕ_discrete i (retain p ts) ≡ filtered p (lookup ℕ_discrete i ts)
  lookup-filtered p i ts d = lookup-retain ℕ_discrete p i ts d ∙ ground arith

  pub find-retain_all :
      (P : E → Type 0) (p : E → Bool) (d i : ℕ) (m : Domains E)
      → IsTidy P m
      → find d i (retain_all p m) ≡ filtered p (find d i m)
  unfolding find retain_all lookup
  find-retain_all P p d i [] t = refl
  find-retain_all P p d i ((j, ts) ∷ m) t = ground (
    arith,
    find_in-empty (retain p ts) i,
    lookup-filtered p i ts t.each.0.0,
    find-retain_all P p d i m (record { distinct = t.distinct.1; each = t.each.1 }),
    retain_all-none p d m,
    t.distinct.0,
  )

  -- Where every entry passes the test, the part that passes is the whole.
  pub total-kept_all :
      (p : E → Bool) (f : E → ℕ) (m : Domains E)
      → IsTidy (λ e. p e ≡ true) m
      → total (kept p f) m ≡ total f m
  unfolding total
  total-kept_all p f m t = weight-eq _ _ m (
      Every-map (IsDomain (λ e. p e ≡ true)) _
        (λ ts r. weight-eq _ _ ts (Every-map _ _ (λ e h. rw h refl) ts r.2)) m t.each)

  pub find-kept_all :
      (p : E → Bool) (f : E → ℕ) (d i : ℕ) (m : Domains E)
      → IsTidy (λ e. p e ≡ true) m
      → weight_of (kept p f) (find d i m) ≡ weight_of f (find d i m)
  unfolding weight_of
  find-kept_all p f d i m t = elim (Option-cases (find d i m)) [
    | inl n ↦ rw n refl
    | inr (e, s) ↦ rw s (rw (find-tidy _ d i m t s) refl)
  ]
