-- ===== src/TemplateCache.antt =====
-- crates/rustflow_core/src/common/template_cache.rs: the templates of one exporter, by
-- observation domain. An `Instant` and a `Duration` are numbers on one clock, which an operation
-- that reads it takes as `now`; `Instant::duration_since` and `elapsed` stop at 0. The log calls
-- are left out. A template's fields are a list, over any type of fields.
pub mod Levels
pub mod Valid
pub mod Preserve
pub mod Reads
pub mod Contract
pub mod Refresh
pub mod Runs
mod Tests
use rustflow.Prelude.{
  ℕ, zero, suc, ◌+◌, ◌-◌, ◌≤◌, ◌<◌, min, Bool, true, false, not, Option, none, some, List, [], ◌∷◌,
  ltb, leb, if◌then◌else◌, length, ℕ_discrete, ◌%◌, ◌==◌,
}
use rustflow.Prelude.Assoc.{
  Assoc, weight, weight_of, is_empty, lookup, insert as put, remove as delete,
}
use rustflow.Prelude.Words.{add_usize, sub_usize, usize_mod}
use Levels.{Domains, find, store, put_back, retain_all, total}

abbrev pub max_template_fields : ℕ
max_template_fields = 65_536

abbrev pub TemplateKey : Type 0
TemplateKey = ℕ × ℕ

pub record Entry (F : Type 0) : Type 0 where
  pub fields : List F
  pub sent_at : ℕ

pub record TemplateCache (F : Type 0) : Type 0 where
  pub domains : Domains (Entry F)
  pub timeout : ℕ
  pub fields : ℕ
  pub next_sweep : ℕ
  pub next_expiry : Option ℕ
  pub refusing : Bool

-- The earlier of a time and one that may be missing.
abbrev pub min_option : ℕ → Option ℕ → Option ℕ
min_option a none = some a
min_option a (some b) = some (min a b)

abbrev is_due : ℕ → Option ℕ → Bool
is_due now none = false
is_due now (some expiry) = leb expiry now

module _ {F : Type 0} where
  unfoldable pub new : ℕ → ℕ → TemplateCache F
  new now timeout = record {
    domains = [];
    timeout = timeout;
    fields = 0;
    next_sweep = now + timeout;
    next_expiry = none;
    refusing = false;
  }

  abbrev pub entry_len : Entry F → ℕ
  entry_len e = length e.fields

  -- An entry whose template was last sent less than `timeout` ago.
  abbrev pub is_live : ℕ → ℕ → Entry F → Bool
  is_live now timeout e = ltb (now - e.sent_at) timeout

  abbrev live_fields : ℕ → ℕ → Option (Entry F) → Option (List F)
  live_fields now timeout none = none
  live_fields now timeout (some e) = if is_live now timeout e then some e.fields else none

  unfoldable pub get : ℕ → TemplateKey → TemplateCache F → Option (List F)
  get now (domain, id) c = live_fields now c.timeout (find domain id c.domains)

  abbrev is_some : Option (List F) → Bool
  is_some none = false
  is_some (some _) = true

  unfoldable pub contains_key : ℕ → TemplateKey → TemplateCache F → Bool
  contains_key now key c = is_some (get now key c)

  unfoldable pub fits : TemplateKey → List F → TemplateCache F → Bool
  fits (domain, id) fields c =
      let replaced = weight_of entry_len (find domain id c.domains) in
      leb (add_usize (sub_usize c.fields replaced) (length fields)) max_template_fields

  -- The least `sent_at + timeout` of the entries, as an iterator's `min` finds it.
  unfoldable pub earliest_in : ℕ → Assoc ℕ (Entry F) → Option ℕ → Option ℕ
  earliest_in timeout [] rest = rest
  earliest_in timeout ((_, e) ∷ ts) rest =
      min_option (e.sent_at + timeout) (earliest_in timeout ts rest)

  unfoldable pub earliest : ℕ → Domains (Entry F) → Option ℕ
  earliest timeout [] = none
  earliest timeout ((_, ts) ∷ m) = earliest_in timeout ts (earliest timeout m)

  unfoldable pub remove_expired : ℕ → TemplateCache F → TemplateCache F
  remove_expired now c =
      let live = retain_all (is_live now c.timeout) c.domains in
      record c {
        domains = live;
        fields = total entry_len live % usize_mod;
        next_expiry = earliest c.timeout live;
        next_sweep = now + c.timeout;
      }

  abbrev removed_from : ℕ → ℕ → Option (Assoc ℕ (Entry F)) → TemplateCache F → TemplateCache F
  removed_from domain id none c = c
  removed_from domain id (some templates) c = record c {
    domains = put_back domain (delete ℕ_discrete id templates) c.domains;
    fields = elim (lookup ℕ_discrete id templates) [
      | none ↦ c.fields
      | some e ↦ sub_usize c.fields (entry_len e)
    ];
  }

  unfoldable pub remove : TemplateKey → TemplateCache F → TemplateCache F
  remove (domain, id) c = removed_from domain id (lookup ℕ_discrete domain c.domains) c

  pub refuse : TemplateKey → TemplateCache F → TemplateCache F
  refuse key c = remove key (record c { refusing = true })

  -- The end of `insert`, where the template is stored.
  unfoldable pub store_entry : ℕ → TemplateKey → List F → TemplateCache F → TemplateCache F
  store_entry now (domain, id) fields c =
      let replaced = find domain id c.domains in
      let sum = add_usize c.fields (length fields) in
      record c {
        domains = store domain id (record { fields = fields; sent_at = now }) c.domains;
        fields = elim replaced [ none ↦ sum | some e ↦ sub_usize sum (entry_len e) ];
        refusing = elim replaced [ none ↦ false | some e ↦ c.refusing ];
        next_expiry = min_option (now + c.timeout) c.next_expiry;
      }

  -- The regular sweep that opens `insert`, and the sweep for room.
  unfoldable pub swept : ℕ → TemplateCache F → TemplateCache F
  swept now c = if leb c.next_sweep now then remove_expired now c else c

  unfoldable pub make_room : ℕ → TemplateCache F → TemplateCache F
  make_room now c = if is_due now c.next_expiry then remove_expired now c else c

  unfoldable pub insert : ℕ → TemplateKey → List F → TemplateCache F → TemplateCache F
  insert now key fields c =
      let c1 = swept now c in
      let c2 = make_room now c1 in
      if fits key fields c1
      then store_entry now key fields c1
      else if fits key fields c2
      then store_entry now key fields c2
      else refuse key c2

  abbrev domain_removed : ℕ → Option (Assoc ℕ (Entry F)) → TemplateCache F → TemplateCache F
  domain_removed domain none c = c
  domain_removed domain (some templates) c = record c {
    domains = delete ℕ_discrete domain c.domains;
    fields = sub_usize c.fields (weight entry_len templates % usize_mod);
  }

  pub remove_domain : ℕ → TemplateCache F → TemplateCache F
  remove_domain domain c = domain_removed domain (lookup ℕ_discrete domain c.domains) c

  -- The loop of `refresh_domain` over one domain's entries: the entries, and `self.fields`.
  pub refresh_entries : (List F → List F) → Assoc ℕ (Entry F) → ℕ → Assoc ℕ (Entry F) × ℕ
  refresh_entries resolve [] n = ([], n)
  refresh_entries resolve ((id, e) ∷ ts) n =
      let fields = resolve e.fields in
      let (ts', n') =
        refresh_entries resolve ts (add_usize (sub_usize n (entry_len e)) (length fields)) in
      ((id, record e { fields = fields }) ∷ ts', n')

  abbrev domain_refreshed :
      ℕ → (List F → List F) → Option (Assoc ℕ (Entry F)) → TemplateCache F → TemplateCache F
  domain_refreshed domain resolve none c = c
  domain_refreshed domain resolve (some templates) c =
      let (ts, n) = refresh_entries resolve templates c.fields in
      record c { domains = put ℕ_discrete domain ts c.domains; fields = n }

  pub refresh_domain : ℕ → (List F → List F) → TemplateCache F → TemplateCache F
  refresh_domain domain resolve c =
      domain_refreshed domain resolve (lookup ℕ_discrete domain c.domains) c

  -- `len` and `is_empty`.
  pub len : TemplateCache F → ℕ
  len c = total (λ e. 1) c.domains

  pub is_empty_cache : TemplateCache F → Bool
  is_empty_cache c = is_empty c.domains
