-- ===== src/TemplateCache/Tests.antt =====
-- The template cache at concrete inputs.
use rustflow.Prelude.{
  ℕ, ◌-◌, ◌≤◌, ◌≡◌, refl, none, some, List, [], ◌∷◌, if◌then◌else◌, ℕ_discrete, arith, ltb, ◌&&◌,
}
use rustflow.Prelude.Assoc.{
  weight, weight_of, retain, is_empty, lookup, insert as put, remove as delete,
}
use rustflow.Prelude.Words.{add_usize, sub_usize}
use rustflow.TemplateCache.{
  TemplateCache, new, get, contains_key, fits, earliest_in, earliest, remove_expired, remove,
  refuse, store_entry, swept, make_room, insert, remove_domain, refresh_entries, refresh_domain,
  len, entry_len, max_template_fields,
}
use rustflow.TemplateCache.Levels.{find, store, put_back, retain_all, total}
use rustflow.TemplateCache.Valid.{IsValid, new-IsValid}
use rustflow.TemplateCache.Valid
use rustflow.TemplateCache.Preserve.{insert-IsValid}
use rustflow.TemplateCache.Contract
use rustflow.TemplateCache.Refresh
use rustflow.TemplateCache.Reads.{admits}
use rustflow.TemplateCache.Runs

program : Unit {0}
unfolding weight weight_of retain is_empty lookup put delete add_usize sub_usize new get
    contains_key fits earliest_in earliest remove_expired remove refuse store_entry swept make_room
    insert remove_domain refresh_entries refresh_domain len find store put_back retain_all total
    ℕ_discrete
program = tt

abbrev two : TemplateCache ℕ
two = insert 5 (1, 257) (7 ∷ []) (insert 3 (1, 256) (8 ∷ 9 ∷ []) (new 0 10))

-- A template is found until its timeout, and not after it.
two_reads : (get 12 (1, 256) two ≡ some (8 ∷ 9 ∷ [])) × (get 13 (1, 256) two ≡ none) × (len two ≡ 2)
unfolding program
two_reads = (refl, refl, refl)

-- The sweep at the next insertion drops the expired template and frees its share.
after_sweep :
    (len (insert 14 (2, 300) (1 ∷ []) two) ≡ 2) × ((insert 14 (2, 300) (1 ∷ []) two).fields ≡ 2)
unfolding program
after_sweep = (refl, refl)

two-IsValid : IsValid 5 two
two-IsValid =
    insert-IsValid 5 _ 1 257 (7 ∷ [])
      (Valid.IsValid-later _ (omega arith) (
        insert-IsValid 3 (new 0 10) 1 256 (8 ∷ 9 ∷ [])
          (Valid.IsValid-later _ (omega arith) (new-IsValid 0 10)) (omega arith)))
      (omega arith)

insert-IsValid_example : IsValid 5 (insert 5 (2, 300) (1 ∷ []) two)
insert-IsValid_example = insert-IsValid 5 two 2 300 (1 ∷ []) two-IsValid (omega arith)

get-insert_example :
    get 6 (2, 300) (insert 5 (2, 300) (1 ∷ []) two)
    ≡ (if admits 5 (2, 300) (1 ∷ []) two && ltb (6 - 5) two.timeout then some (1 ∷ []) else none)
get-insert_example =
    Contract.get-insert 5 6 2 300 2 300 (1 ∷ []) two two-IsValid (omega arith) (omega arith)

get-remove_example : get 6 (1, 256) (remove (1, 257) two) ≡ get 6 (1, 256) two
get-remove_example = Contract.get-remove 5 6 1 257 1 256 two two-IsValid

get-remove_domain_example : get 6 (1, 256) (remove_domain 1 two) ≡ none
get-remove_domain_example = Contract.get-remove_domain 5 6 1 1 256 two two-IsValid

get-refresh_domain_example : get 6 (1, 257) (refresh_domain 1 (λ l. l) two) ≡ get 6 (1, 257) two
unfolding program
get-refresh_domain_example = Refresh.get-refresh_domain (λ (l : List ℕ). l) 6 1 1 257 two

refresh_domain-IsValid_example : IsValid 5 (refresh_domain 1 (λ l. l) two)
refresh_domain-IsValid_example =
    Refresh.refresh_domain-IsValid (λ (l : List ℕ). l) (λ l. refl) two 1 two-IsValid

-- Two templates come in while time goes, one is removed and the other is refreshed.
abbrev after_a_run : TemplateCache ℕ
after_a_run = refresh_domain 1 (λ l. l) (remove (1, 256) two)

Reach-budget_example :
    (after_a_run.fields ≡ total entry_len after_a_run.domains)
    × (total entry_len after_a_run.domains ≤ max_template_fields)
Reach-budget_example = Runs.Reach-budget (
    Runs.Reach.refreshed
      (Runs.Reach.removed
        (Runs.Reach.inserted
          (Runs.Reach.waited
            (Runs.Reach.inserted (Runs.Reach.waited (Runs.Reach.created 0 10) 3 (omega arith)) 1 256
              (8 ∷ 9 ∷ []) (omega arith))
            5 (omega arith))
          1 257 (7 ∷ []) (omega arith))
        1 256)
      1 (λ l. l) (λ l. refl))
