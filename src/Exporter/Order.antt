-- ===== src/Exporter/Order.antt =====
-- The order in which exporter.rs sends records: none is lost, and none is sent twice.
use rustflow.Prelude.{
  ℕ, ◌+◌, ◌≤◌, ◌≡◌, refl, ap, ◌∙◌, sym, Bool, true, false, not, ◌&&◌, ◌||◌, List, [], ◌∷◌, ◌++◌,
  ◌==◌, ltb, arith, Bool-cases, inl, inr, ◌⊎◌,
}
use mathlib.Core.List.{append_assoc, append-nil}
use rustflow.Wire.Read.{Bytes}
use rustflow.Wire.Write.{BufMut}
use rustflow.FieldParsers.{Chrono}
use rustflow.Ipfix.Types.{DataRecord, Record, Set}
use rustflow.Exporter.{
  max_set_body, Message, Batch, is_empty, send_data, send_sets, flush, record_len, must_flush,
  add_record, send_loop, flush_rest,
}

module _ {D : Type 0} where
  -- Records with the template that they are sent by.
  unfoldable pub tag : ℕ → List (Record D) → List (ℕ × Record D)
  tag id [] = []
  tag id (r ∷ rs) = (id, r) ∷ tag id rs

  unfoldable pub tag_sets : List (Set D) → List (ℕ × Record D)
  tag_sets [] = []
  tag_sets (s ∷ ss) = tag s.id s.records ++ tag_sets ss

  unfoldable pub tagged : List (Message D) → List (ℕ × Record D)
  unfolding tag tag_sets
  tagged [] = []
  tagged (m ∷ ms) = tag_sets m.sets ++ tagged ms

  unfoldable pub all_data : List (ℕ × DataRecord D) → List (ℕ × Record D)
  all_data [] = []
  all_data ((id, r) ∷ rs) = (id, Record.data_of r) ∷ all_data rs

  tag-append : (id : ℕ) (rs ss : List (Record D)) → tag id (rs ++ ss) ≡ tag id rs ++ tag id ss
  unfolding tag
  tag-append id [] ss = refl
  tag-append id (r ∷ rs) ss = ap (◌∷◌ (id, r)) (tag-append id rs ss)

  pub tagged-append : (ms ns : List (Message D)) → tagged (ms ++ ns) ≡ tagged ms ++ tagged ns
  unfolding tagged
  tagged-append [] ns = refl
  tagged-append (m ∷ ms) ns =
      ap (λ l. tag_sets m.sets ++ l) (tagged-append ms ns)
      ∙ sym (append_assoc (tag_sets m.sets) (tagged ms) (tagged ns))

  -- What was sent and what is pending.
  unfoldable pub so_far : Batch D → List (ℕ × Record D)
  so_far b = tagged b.exporter.sent ++ tag b.template_id b.pending

pub is_empty-nil : {A : Type 0} (l : List A) → is_empty l ≡ true → l ≡ []
is_empty-nil [] h = refl
is_empty-nil (x ∷ l) h = absurd (ground arith)

room_left :
    {A : Type 0} (id t size len : ℕ) (pending : List A)
    → (not (is_empty pending) && (ltb max_set_body (size + len) || not (id == t))) ≡ false
    → (pending ≡ []) ⊎ ((id ≡ t) × (size + len ≤ max_set_body))
room_left id t size len [] h = inl refl
room_left id t size len (x ∷ xs) h = inr (ground arith, ground arith)

module _ (buf : BufMut) (chrono : Chrono) (send_to : List (Message chrono.DateTime) → Bytes → Bool)
    (time : chrono.DateTime) where
  abbrev D : Type 0
  D = chrono.DateTime

  flush-so_far : (b : Batch D) → so_far (flush buf chrono send_to time b) ≡ so_far b
  unfolding so_far flush send_data send_sets tag tag_sets tagged
  flush-so_far b = simp (tagged-append, append-nil)

  add_record-so_far :
      (id : ℕ) (r : DataRecord D) (b : Batch D)
      → (b.pending ≡ []) ⊎ (id ≡ b.template_id)
      → so_far (add_record buf chrono send_to time id r b)
        ≡ so_far b ++ ((id, Record.data_of r) ∷ [])
  unfolding so_far add_record tag tagged
  add_record-so_far id r b (inl e) = simp (e, append-nil)
  add_record-so_far id r b (inr e) = simp (e, tag-append, append_assoc)

  pub not_must_flush :
      (id : ℕ) (r : DataRecord D) (b : Batch D)
      → must_flush buf chrono send_to time id r b ≡ false
      → (b.pending ≡ [])
        ⊎ ((id ≡ b.template_id) × (b.size + record_len buf chrono send_to time r ≤ max_set_body))
  unfolding must_flush
  not_must_flush id r b h =
      room_left id b.template_id b.size (record_len buf chrono send_to time r) b.pending h

  same_template :
      (id : ℕ) (r : DataRecord D) (b : Batch D)
      → (b.pending ≡ [])
        ⊎ ((id ≡ b.template_id) × (b.size + record_len buf chrono send_to time r ≤ max_set_body))
      → (b.pending ≡ []) ⊎ (id ≡ b.template_id)
  same_template id r b (inl e) = inl e
  same_template id r b (inr e) = inr (e.0)

  pub send_loop-so_far :
      (rs : List (ℕ × DataRecord D)) (b : Batch D)
      → so_far (send_loop buf chrono send_to time rs b) ≡ so_far b ++ all_data rs
  unfolding send_loop all_data
  send_loop-so_far [] b = sym (append-nil (so_far b))
  send_loop-so_far ((id, r) ∷ rs) b =
      elim (Bool-cases (must_flush buf chrono send_to time id r b)) [
        | inl e ↦ rw e (
            let b' = flush buf chrono send_to time b in
            let empty : b'.pending ≡ [] = unfold flush in refl in
            send_loop-so_far rs (add_record buf chrono send_to time id r b')
            ∙ ap (λ l. l ++ all_data rs)
                (add_record-so_far id r b' (inl empty)
                  ∙ ap (λ l. l ++ ((id, Record.data_of r) ∷ [])) (flush-so_far b))
            ∙ append_assoc (so_far b) ((id, Record.data_of r) ∷ []) (all_data rs))
        | inr e ↦ rw e (
            send_loop-so_far rs (add_record buf chrono send_to time id r b)
            ∙ ap (λ l. l ++ all_data rs)
                (add_record-so_far id r b (same_template id r b (not_must_flush id r b e)))
            ∙ append_assoc (so_far b) ((id, Record.data_of r) ∷ []) (all_data rs))
      ]

  flush-sent : (b : Batch D) → tagged (flush buf chrono send_to time b).exporter.sent ≡ so_far b
  unfolding so_far flush send_data send_sets tag tag_sets tagged
  flush-sent b = simp (tagged-append, append-nil)

  pub none_pending : (b : Batch D) → b.pending ≡ [] → tagged b.exporter.sent ≡ so_far b
  unfolding so_far tag
  none_pending b e = rw e (sym (append-nil (tagged b.exporter.sent)))

  pub flush_rest-sent :
      (b : Batch D) → tagged (flush_rest buf chrono send_to time b).exporter.sent ≡ so_far b
  unfolding flush_rest
  flush_rest-sent b = elim (Bool-cases (is_empty b.pending)) [
    | inl e ↦ rw e (none_pending b (is_empty-nil b.pending e))
    | inr e ↦ rw e (flush-sent b)
  ]
