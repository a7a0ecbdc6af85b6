-- ===== src/TemplateCache/Reads.antt =====
-- What `get` finds after each operation of the template cache, and when `insert` stores.
use rustflow.Prelude.{
  ℕ, ◌+◌, ◌-◌, ◌≤◌, ◌<◌, ◌^◌, ◌≡◌, refl, ◌∙◌, Bool, true, false, Option, none, some, List, leb,
  length, arith, Bool-cases, inl, inr, not, leb→le, le→leb,
}
use rustflow.Prelude.Assoc.{weight_of}
use mathlib.Core.Path.{fun_ext}
use rustflow.TemplateCache.{
  TemplateKey, TemplateCache, Entry, max_template_fields, entry_len, is_live, live_fields, get,
  fits, remove_expired, swept, make_room, is_due,
}
use rustflow.TemplateCache.Levels.{
  find, total, IsTidy, IsTidy-map, kept, total-split, find-le-total, total-retain_all,
  retain_all-IsTidy, find-retain_all, total-kept_all, find-kept_all, filtered, weight_of-split,
}
use rustflow.TemplateCache.Valid.{IsTimely, IsValid}
use rustflow.TemplateCache.Preserve.{fits_lem}

module _ {F : Type 0} where
  -- The fields of the live templates, that of the key left out, leave room for `fields`.
  pub admits : ℕ → TemplateKey → List F → TemplateCache F → Bool
  admits now (d, i) fields c =
      let live = kept (is_live now c.timeout) entry_len in
      leb (total live c.domains - weight_of live (find d i c.domains) + length fields)
        max_template_fields

  abbrev pub AllLive : ℕ → TemplateCache F → Type 0
  AllLive now c = IsTidy (λ e. is_live now c.timeout e ≡ true) c.domains

  module _ (now d i : ℕ) (fields : List F) (short : length fields < 2 ^ 63) where
    pub fits→admits :
        (c : TemplateCache F)
        → IsValid now c
        → fits (d, i) fields c ≡ true
        → admits now (d, i) fields c ≡ true
    unfolding admits
    fits→admits c v h =
        let alive : Entry F → Bool = is_live now c.timeout in
        let dead : Entry F → ℕ = kept (λ e. not (alive e)) entry_len in
        le→leb _ _ (
          omega (
            arith,
            leb→le _ _ (rw (fits_lem c d i fields v short) at h),
            total-split alive entry_len c.domains,
            weight_of-split alive entry_len (find d i c.domains),
            find-le-total dead d i c.domains,
            v.counted,
          ))

    pub fits-admits :
        (c : TemplateCache F)
        → IsValid now c
        → AllLive now c
        → fits (d, i) fields c ≡ admits now (d, i) fields c
    unfolding admits
    fits-admits c v a =
        fits_lem c d i fields v short
        ∙ rw
            (
              total-kept_all (is_live now c.timeout) entry_len c.domains a,
              find-kept_all (is_live now c.timeout) entry_len d i c.domains a,
              v.counted,
            )
            refl

  remove_expired-AllLive :
      (now : ℕ) (c : TemplateCache F) → IsValid now c → AllLive now (remove_expired now c)
  unfolding remove_expired
  remove_expired-AllLive now c v =
      IsTidy-map _ _ _
        (λ e (p : IsTimely now c.timeout c.next_expiry e × (is_live now c.timeout e ≡ true)). p.1)
        (retain_all-IsTidy _ (is_live now c.timeout) c.domains v.tidy)

  live_before :
      (now timeout : ℕ) (o : Option ℕ) (e : Entry F)
      → is_due now o ≡ false
      → IsTimely now timeout o e
      → is_live now timeout e ≡ true
  live_before now timeout none e h p = absurd p.1
  live_before now timeout (some x) e h p = ground arith

  not_due-AllLive :
      (now : ℕ) (c : TemplateCache F)
      → IsValid now c
      → is_due now c.next_expiry ≡ false
      → AllLive now c
  not_due-AllLive now c v h =
      IsTidy-map _ _ c.domains
        (λ e (p : IsTimely now c.timeout c.next_expiry e).
          live_before now c.timeout c.next_expiry e h p)
        v.tidy

  live-remove_expired :
      (now t : ℕ) (timeout : ℕ) (o : Option (Entry F))
      → now ≤ t
      → live_fields t timeout (filtered (is_live now timeout) o) ≡ live_fields t timeout o
  live-remove_expired now t timeout none h = refl
  live-remove_expired now t timeout (some e) h = ground arith

  -- A sweep takes away nothing that a later `get` could find.
  get-remove_expired :
      (now t d i : ℕ) (c : TemplateCache F)
      → now ≤ t
      → IsValid now c
      → get t (d, i) (remove_expired now c) ≡ get t (d, i) c
  unfolding get remove_expired
  get-remove_expired now t d i c h v =
      rw
        (find-retain_all (IsTimely now c.timeout c.next_expiry) (is_live now c.timeout) d i
          c.domains v.tidy)
        (live-remove_expired now t c.timeout (find d i c.domains) h)

  live_part :
      (now timeout : ℕ) (o : Option (Entry F))
      → weight_of (kept (is_live now timeout) entry_len) (filtered (is_live now timeout) o)
        ≡ weight_of (kept (is_live now timeout) entry_len) o
  unfolding weight_of
  live_part now timeout none = refl
  live_part now timeout (some e) = ground arith

  kept_twice : (p : Entry F → Bool) (f : Entry F → ℕ) → kept p (kept p f) ≡ kept p f
  kept_twice p f = fun_ext λ e. ground arith

  admits-remove_expired :
      (now d i : ℕ) (fields : List F) (c : TemplateCache F)
      → IsValid now c
      → admits now (d, i) fields (remove_expired now c) ≡ admits now (d, i) fields c
  unfolding admits remove_expired
  admits-remove_expired now d i fields c v =
      rw
        (
          total-retain_all (is_live now c.timeout) (kept (is_live now c.timeout) entry_len)
              c.domains,
          kept_twice (is_live now c.timeout) entry_len,
          find-retain_all (IsTimely now c.timeout c.next_expiry) (is_live now c.timeout) d i
              c.domains v.tidy,
          live_part now c.timeout (find d i c.domains),
        )
        refl

  module _ (now d i : ℕ) (c : TemplateCache F) (v : IsValid now c) where
    pub get-swept : (t d' i' : ℕ) → now ≤ t → get t (d', i') (swept now c) ≡ get t (d', i') c
    unfolding swept
    get-swept t d' i' h = elim (Bool-cases (leb c.next_sweep now)) [
      | inl b ↦ rw b (get-remove_expired now t d' i' c h v)
      | inr b ↦ rw b refl
    ]

    pub get-make_room :
        (t d' i' : ℕ) → now ≤ t → get t (d', i') (make_room now c) ≡ get t (d', i') c
    unfolding make_room
    get-make_room t d' i' h = elim (Bool-cases (is_due now c.next_expiry)) [
      | inl b ↦ rw b (get-remove_expired now t d' i' c h v)
      | inr b ↦ rw b refl
    ]

    pub admits-swept :
        (fields : List F) → admits now (d, i) fields (swept now c) ≡ admits now (d, i) fields c
    unfolding swept
    admits-swept fields = elim (Bool-cases (leb c.next_sweep now)) [
      | inl b ↦ rw b (admits-remove_expired now d i fields c v)
      | inr b ↦ rw b refl
    ]

    pub admits-make_room :
        (fields : List F) → admits now (d, i) fields (make_room now c) ≡ admits now (d, i) fields c
    unfolding make_room
    admits-make_room fields = elim (Bool-cases (is_due now c.next_expiry)) [
      | inl b ↦ rw b (admits-remove_expired now d i fields c v)
      | inr b ↦ rw b refl
    ]

    pub make_room-AllLive : AllLive now (make_room now c)
    unfolding make_room
    make_room-AllLive = elim (Bool-cases (is_due now c.next_expiry)) [
      | inl b ↦ rw b (remove_expired-AllLive now c v)
      | inr b ↦ rw b (not_due-AllLive now c v b)
    ]
