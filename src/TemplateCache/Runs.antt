-- ===== src/TemplateCache/Runs.antt =====
-- Every cache that a parser can have: a new one, and what the operations make of it as time goes.
use rustflow.Prelude.{ℕ, ◌≤◌, ◌<◌, ◌^◌, ◌≡◌, List, length, arith}
use rustflow.TemplateCache.{
  TemplateCache, new, insert, remove, remove_domain, refresh_domain, entry_len, max_template_fields,
}
use rustflow.TemplateCache.Levels.{total}
use rustflow.TemplateCache.Valid.{IsValid, IsValid-later, new-IsValid}
use rustflow.TemplateCache.Preserve.{insert-IsValid, remove-IsValid, remove_domain-IsValid}
use rustflow.TemplateCache.Refresh.{refresh_domain-IsValid}

pub data Reach (F : Type 0) : ℕ → TemplateCache F → Type 0 where
  created : (now timeout : ℕ) → Reach F now (new now timeout)
  waited :
      {now : ℕ} {c : TemplateCache F} → Reach F now c → (later : ℕ) → now ≤ later → Reach F later c
  inserted :
      {now : ℕ} {c : TemplateCache F}
      → Reach F now c
      → (d i : ℕ) (fields : List F) → length fields < 2 ^ 63
      → Reach F now (insert now (d, i) fields c)
  removed :
      {now : ℕ} {c : TemplateCache F} → Reach F now c → (d i : ℕ) → Reach F now (remove (d, i) c)
  withdrawn :
      {now : ℕ} {c : TemplateCache F} → Reach F now c → (d : ℕ) → Reach F now (remove_domain d c)
  refreshed :
      {now : ℕ} {c : TemplateCache F}
      → Reach F now c
      → (d : ℕ) (resolve : List F → List F)
      → ((fields : List F) → length (resolve fields) ≡ length fields)
      → Reach F now (refresh_domain d resolve c)

module _ {F : Type 0} where
  pub Reach-IsValid : {now : ℕ} {c : TemplateCache F} → Reach F now c → IsValid now c
  Reach-IsValid (created now timeout) = new-IsValid now timeout
  Reach-IsValid (waited {c} r later h) = IsValid-later c h (Reach-IsValid r)
  Reach-IsValid (inserted {now} {c} r d i fields h) =
      insert-IsValid now c d i fields (Reach-IsValid r) h
  Reach-IsValid (removed {c} r d i) = remove-IsValid c d i (Reach-IsValid r)
  Reach-IsValid (withdrawn {c} r d) = remove_domain-IsValid c d (Reach-IsValid r)
  Reach-IsValid (refreshed {c} r d resolve h) =
      refresh_domain-IsValid resolve h c d (Reach-IsValid r)

  -- However its exporter behaves, a cache counts exactly the fields of the templates it holds,
  -- and they never exceed the budget of 65,536. Templates that come in are shorter than 2 ^ 63,
  -- and a refresh keeps the number of a template's fields.
  pub Reach-budget :
      {now : ℕ} {c : TemplateCache F}
      → Reach F now c
      → (c.fields ≡ total entry_len c.domains) × (total entry_len c.domains ≤ max_template_fields)
  Reach-budget r = let v = Reach-IsValid r in (v.counted, omega (arith, v.counted, v.budget))
