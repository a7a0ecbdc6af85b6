-- ===== src/Exporter/Batches.antt =====
-- How exporter.rs fills its messages: their size, and the order of their records.
use rustflow.Prelude.{
  ℕ, ◌+◌, ◌≤◌, ◌≡◌, refl, ap, ◌∙◌, sym, Bool, true, false, not, ◌&&◌, List, [], ◌∷◌, ◌++◌, length,
  arith, All, Bool-cases, inl, inr, ◌⊎◌,
}
use mathlib.Core.List.{append-nil}
use rustflow.Wire.Read.{Bytes}
use rustflow.Wire.Write.{BufMut}
use rustflow.FieldParsers.{Chrono}
use rustflow.Ipfix.Types.{DataRecord, Record, Set}
use rustflow.Ipfix.Encoder.{encode, encode_record, encode_records}
use rustflow.Ipfix.Sizes.{length-encode, length-encode_records}
use rustflow.Exporter.{
  max_message_size, packet, max_set_body, Message, Exporter, Batch, is_empty, send_data, flush,
  send_sets, record_len, must_flush, add_record, send_loop, flush_rest, send_records,
}
use rustflow.Exporter.Order.{
  tagged, all_data, not_must_flush, send_loop-so_far, none_pending, flush_rest-sent,
}

full_only : (empty test : Bool) → empty ≡ true → (not empty && test) ≡ true → ⊥
full_only true test e h = ground arith
full_only false test e h = ground arith

module _ (buf : BufMut) (chrono : Chrono) (send_to : List (Message chrono.DateTime) → Bytes → Bool)
    (time : chrono.DateTime) where
  abbrev D : Type 0
  D = chrono.DateTime

  -- The length of the records' encodings.
  unfoldable pub body : List (Record D) → ℕ
  body [] = 0
  body (r ∷ rs) = length (encode_record buf chrono r []) + body rs

  body-encode_records : (rs : List (Record D)) → length (encode_records buf chrono rs []) ≡ body rs
  unfolding body
  body-encode_records [] = unfold encode_records in refl
  body-encode_records (r ∷ rs) =
      omega (arith, length-encode_records buf chrono r rs, body-encode_records rs)

  length-message :
      (id : ℕ) (rs : List (Record D)) (e : Exporter D)
      → length (
          encode buf chrono
            (packet buf chrono send_to time (record { id = id; length = 0; records = rs } ∷ []) e)
            [])
        ≡ 20 + body rs
  unfolding packet
  length-message id rs e = omega (arith, length-encode buf chrono _ _ refl, body-encode_records rs)

  unfoldable pub records_in : List (Set D) → List (Record D)
  records_in [] = []
  records_in (s ∷ ss) = s.records ++ records_in ss

  -- A message has records, and its bytes fit a message unless they are a single record's.
  pub record IsFilled (m : Message D) : Type 0 where
    pub some_records : is_empty (records_in m.sets) ≡ false
    pub fits : (length m.encoded ≤ max_message_size) ⊎ (length (records_in m.sets) ≡ 1)

  -- What the loop keeps: the size is that of the pending records.
  record IsSized (b : Batch D) : Type 0 where
    sent : All IsFilled b.exporter.sent
    size : b.size ≡ body b.pending
    fits : (body b.pending ≤ max_set_body) ⊎ (length b.pending ≡ 1)

  All-append :
      {A : Type 0} (P : A → Type 0) (xs ys : List A) → All P xs → All P ys → All P (xs ++ ys)
  All-append P [] ys h h' = h'
  All-append P (x ∷ xs) ys (h, hs) h' = (h, All-append P xs ys hs h')

  body-append : (rs ss : List (Record D)) → body (rs ++ ss) ≡ body rs + body ss
  unfolding body
  body-append [] ss = omega arith
  body-append (r ∷ rs) ss = omega (arith, body-append rs ss)

  flush-IsSized :
      (b : Batch D)
      → is_empty b.pending ≡ false
      → IsSized b
      → IsSized (flush buf chrono send_to time b)
  unfolding flush send_data send_sets body records_in
  flush-IsSized b full s = record {
    sent = All-append _ b.exporter.sent _ s.sent (
      record {
        some_records = rw (append-nil b.pending) full;
        fits = elim s.fits [
          | inl le ↦ inl (omega (arith, le, length-message b.template_id b.pending b.exporter))
          | inr one ↦ inr (rw (append-nil b.pending) one)
        ];
      },
      _,
    );
    size = refl;
    fits = inl (omega arith);
  }

  add_record-IsSized :
      (id : ℕ) (r : DataRecord D) (b : Batch D)
      → (b.pending ≡ []) ⊎ (b.size + record_len buf chrono send_to time r ≤ max_set_body)
      → IsSized b
      → IsSized (add_record buf chrono send_to time id r b)
  unfolding add_record body record_len encode_record
  add_record-IsSized id r b h s =
      let total = body-append b.pending (Record.data_of r ∷ []) in
      record {
        sent = s.sent;
        size = omega (arith, s.size, total);
        fits = elim h [
          | inl e ↦ inr (ap (λ l. length (l ++ (Record.data_of r ∷ []))) e)
          | inr le ↦ inl (omega (arith, s.size, total, le))
        ];
      }

  must_flush-full :
      (id : ℕ) (r : DataRecord D) (b : Batch D)
      → must_flush buf chrono send_to time id r b ≡ true
      → is_empty b.pending ≡ false
  unfolding must_flush
  must_flush-full id r b h = elim (Bool-cases (is_empty b.pending)) [
    | inl e ↦ absurd (full_only (is_empty b.pending) _ e h)
    | inr e ↦ e
  ]

  room :
      (id : ℕ) (r : DataRecord D) (b : Batch D)
      → (b.pending ≡ [])
        ⊎ ((id ≡ b.template_id) × (b.size + record_len buf chrono send_to time r ≤ max_set_body))
      → (b.pending ≡ []) ⊎ (b.size + record_len buf chrono send_to time r ≤ max_set_body)
  room id r b (inl e) = inl e
  room id r b (inr e) = inr (e.1)

  send_loop-IsSized :
      (rs : List (ℕ × DataRecord D)) (b : Batch D)
      → IsSized b
      → IsSized (send_loop buf chrono send_to time rs b)
  unfolding send_loop
  send_loop-IsSized [] b s = s
  send_loop-IsSized ((id, r) ∷ rs) b s =
      elim (Bool-cases (must_flush buf chrono send_to time id r b)) [
        | inl e ↦ rw e (
            send_loop-IsSized rs _ (
              add_record-IsSized id r (flush buf chrono send_to time b) (inl (unfold flush in refl))
                (flush-IsSized b (must_flush-full id r b e) s)))
        | inr e ↦ rw e (
            send_loop-IsSized rs _ (
              add_record-IsSized id r b
                (room id r b (not_must_flush buf chrono send_to time id r b e)) s))
      ]

  flush_rest-IsSized : (b : Batch D) → IsSized b → IsSized (flush_rest buf chrono send_to time b)
  unfolding flush_rest
  flush_rest-IsSized b s = elim (Bool-cases (is_empty b.pending)) [
    | inl e ↦ rw e s
    | inr e ↦ rw e (flush-IsSized b e s)
  ]

  -- Whatever the socket accepts, the messages that are tried hold every record once, in order and
  -- under its own template, behind what was sent before; and each has records, and is encoded to at
  -- most 1,400 bytes or has a single record. All messages sent before were so.
  pub send_records-sent :
      (rs : List (ℕ × DataRecord D)) (e : Exporter D)
      → All IsFilled e.sent
      → (tagged (send_records buf chrono send_to time rs e).0.sent ≡ tagged e.sent ++ all_data rs)
        × All IsFilled (send_records buf chrono send_to time rs e).0.sent
  unfolding send_records
  send_records-sent rs e h =
      let start : Batch D = record {
        exporter = e;
        result = true;
        pending = [];
        template_id = 0;
        size = 0;
      } in
      let loop = send_loop buf chrono send_to time rs start in
      let start-IsSized : IsSized start =
        unfold body in record { sent = h; size = refl; fits = inl (omega arith) } in
      (
        flush_rest-sent buf chrono send_to time loop
            ∙ send_loop-so_far buf chrono send_to time rs start
            ∙ ap (λ l. l ++ all_data rs) (sym (none_pending buf chrono send_to time start refl)),
        (flush_rest-IsSized loop (send_loop-IsSized rs start start-IsSized)).sent,
      )
