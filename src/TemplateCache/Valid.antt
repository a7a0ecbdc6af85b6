-- ===== src/TemplateCache/Valid.antt =====
-- The invariant of a template cache, and that every operation keeps it.
use rustflow.Prelude.{ℕ, ◌+◌, ◌≤◌, ◌≡◌, refl, Option, none, some, [], ◌∷◌, arith}
use rustflow.Prelude.Assoc.{Assoc, weight, Every, Every-map}
use rustflow.TemplateCache.{
  TemplateCache, Entry, max_template_fields, entry_len, min_option, new, earliest_in, earliest,
}
use rustflow.TemplateCache.Levels.{Domains, total, IsTidy, IsTidy-map}

-- The time from which a sweep may free something does not come after `t`.
abbrev pub Precedes : Option ℕ → ℕ → Type 0
Precedes none t = ⊥
Precedes (some s) t = s ≤ t

abbrev pub IsTimely : {F : Type 0} → ℕ → ℕ → Option ℕ → Entry F → Type 0
IsTimely now timeout next e = (e.sent_at ≤ now) × Precedes next (e.sent_at + timeout)

pub Precedes-min_left : (a : ℕ) (o : Option ℕ) → Precedes (min_option a o) a
Precedes-min_left a none = omega arith
Precedes-min_left a (some b) = omega arith

pub Precedes-min_right : (a : ℕ) (o : Option ℕ) (t : ℕ) → Precedes o t → Precedes (min_option a o) t
Precedes-min_right a none t h = absurd h
Precedes-min_right a (some b) t h = omega arith

module _ {F : Type 0} where
  pub record IsValid (now : ℕ) (c : TemplateCache F) : Type 0 where
    pub tidy : IsTidy (IsTimely now c.timeout c.next_expiry) c.domains
    pub counted : c.fields ≡ total entry_len c.domains
    pub budget : c.fields ≤ max_template_fields

  pub new-IsValid : (now timeout : ℕ) → IsValid now (new now timeout)
  unfolding new total weight
  new-IsValid now timeout = record {
    tidy = record { distinct = tt; each = tt };
    counted = refl;
    budget = omega arith;
  }

  -- The clock moves on.
  pub IsValid-later :
      {now now' : ℕ} (c : TemplateCache F) → now ≤ now' → IsValid now c → IsValid now' c
  IsValid-later c h v = record {
    tidy =
        IsTidy-map _ _ c.domains
          (λ e (p : IsTimely _ c.timeout c.next_expiry e). (omega arith, p.1)) v.tidy;
    counted = v.counted;
    budget = v.budget;
  }

  earliest_in-rest :
      (timeout : ℕ) (ts : Assoc ℕ (Entry F)) (o : Option ℕ) (t : ℕ)
      → Precedes o t
      → Precedes (earliest_in timeout ts o) t
  unfolding earliest_in
  earliest_in-rest timeout [] o t h = h
  earliest_in-rest timeout ((i, e) ∷ ts) o t h =
      Precedes-min_right _ _ t (earliest_in-rest timeout ts o t h)

  earliest_in-each :
      (timeout : ℕ) (ts : Assoc ℕ (Entry F)) (o : Option ℕ)
      → Every (λ e. Precedes (earliest_in timeout ts o) (e.sent_at + timeout)) ts
  unfolding earliest_in
  earliest_in-each timeout [] o = tt
  earliest_in-each timeout ((i, e) ∷ ts) o = (
    Precedes-min_left _ _,
    Every-map _ _ (λ x p. Precedes-min_right _ (earliest_in timeout ts o) _ p) ts
        (earliest_in-each timeout ts o),
  )

  pub earliest-each :
      (timeout : ℕ) (m : Domains (Entry F))
      → Every (Every (λ e. Precedes (earliest timeout m) (e.sent_at + timeout))) m
  unfolding earliest
  earliest-each timeout [] = tt
  earliest-each timeout ((d, ts) ∷ m) = (
    earliest_in-each timeout ts (earliest timeout m),
    Every-map _ _
        (λ us q. Every-map _ _ (λ x p. earliest_in-rest timeout ts (earliest timeout m) _ p) us q) m
        (earliest-each timeout m),
  )
