-- ===== src/SflowV5/Bounds.antt =====
-- How much an sFlow datagram needs of its input for the samples that it states.
use rustflow.Prelude.{
  ℕ, ◌+◌, ◌*◌, ◌-◌, ◌^◌, ◌≤◌, ◌≡◌, Option, none, some, length, arith, min, Bool-cases, inl, inr,
  ◌==◌, ==_iff, sym, subst,
}
use rustflow.Wire.Read.{Bytes}
use rustflow.Wire.Nom.{Nom}
use rustflow.Wire.Many.{Gives, then-Gives, map_value-Gives, either-Gives}
use rustflow.FieldParsers.Numbers.{
  Counted, read_count-Counted, Shrinks, taken-Shrinks, u32-Shrinks, take-Takes, u128-Takes,
}
use rustflow.SflowV5.Flows.{parse_address}
use rustflow.SflowV5.Samples.{Sample, parse_sample}
use rustflow.SflowV5.{parse, parse_sflow_v5, verify, sflow_v5_version}

module _ (nom : Nom) where
  any_value : {A : Type 0} (o : Option (Bytes × A)) → Gives (λ rest a. Unit) o
  unfolding Gives
  any_value none = _
  any_value (some t) = _

  -- A sample that is read takes at least its format and its length.
  parse_sample-Shrinks : (input : Bytes) → Gives (Shrinks 8 input) (parse_sample nom input)
  unfolding parse_sample Gives
  parse_sample-Shrinks input =
      then-Gives _ _ (nom.be_u32 input) _ (any_value (nom.be_u32 input)) (λ r1 format s1.
        then-Gives _ _ (nom.be_u32 r1) _ (any_value (nom.be_u32 r1)) (λ r2 len s2.
          then-Gives _ _ (nom.take (min (len + 8) (2 ^ 64 - 1)) input) _
            (taken-Shrinks (min (len + 8) (2 ^ 64 - 1)) input _
              (take-Takes nom input (min (len + 8) (2 ^ 64 - 1))))
            (λ r3 bytes s3. omega (arith, s3))))

  verify-Gives :
      (v : ℕ) (input : Bytes) (o : Option (Bytes × ℕ))
      → Gives (Shrinks 4 input) o
      → Gives (λ rest a. (a ≡ v) × (4 + length rest ≤ length input)) (verify nom v o)
  unfolding Gives
  verify-Gives v input none h = _
  verify-Gives v input (some (rest, a)) h = elim (Bool-cases (a == v)) [
    | inl b ↦ rw b ((==_iff a v).0 b, h)
    | inr b ↦ rw b _
  ]

  parse_address-Shrinks : (input : Bytes) → Gives (Shrinks 4 input) (parse_address nom input)
  unfolding parse_address Gives
  parse_address-Shrinks input =
      then-Gives _ _ (nom.be_u32 input) _ (u32-Shrinks nom input) (λ rest t s.
        either-Gives (Shrinks 4 input) (t == 0) _ _ s (
          either-Gives (Shrinks 4 input) (t == 1) _ _
            (map_value-Gives (Shrinks 4 rest) (Shrinks 4 input) (nom.be_u32 rest)
              (λ r a k. omega (arith, s, k)) (u32-Shrinks nom rest))
            (either-Gives (Shrinks 4 input) (t == 2) _ _
              (map_value-Gives (Shrinks 16 rest) (Shrinks 4 input) (nom.be_u128 rest)
                (λ r a k. omega (arith, s, k))
                (taken-Shrinks 16 rest (nom.be_u128 rest) (u128-Takes nom rest)))
              _)))

  -- A datagram that is read is of version 5, and had at least 24 bytes for its header and 8 for
  -- each sample: whatever number of samples its header states, no more are kept than its bytes can
  -- hold.
  pub parse-Bounded :
      (input : Bytes)
      → Gives
          (λ rest d. (d.version ≡ 5) × (24 + 8 * length d.samples + length rest ≤ length input))
          (parse nom input)
  unfolding parse parse_sflow_v5 Gives
  parse-Bounded input =
      then-Gives _ _ (verify nom sflow_v5_version (nom.be_u32 input)) _
        (verify-Gives sflow_v5_version input (nom.be_u32 input) (u32-Shrinks nom input))
        (λ r1 version s1.
          then-Gives _ _ (parse_address nom r1) _ (parse_address-Shrinks r1) (λ r2 address s2.
            then-Gives _ _ (nom.be_u32 r2) _ (u32-Shrinks nom r2) (λ r3 sub s3.
              then-Gives _ _ (nom.be_u32 r3) _ (u32-Shrinks nom r3) (λ r4 seq s4.
                then-Gives _ _ (nom.be_u32 r4) _ (u32-Shrinks nom r4) (λ r5 uptime s5.
                  then-Gives _ _ (nom.be_u32 r5) _ (u32-Shrinks nom r5) (λ r6 n s6.
                    then-Gives (Counted 8 n r6) _ (nom.count Sample (parse_sample nom) n r6) _
                      (subst (Gives (Counted 8 n r6))
                        (sym (nom.count_lem Sample (parse_sample nom) n r6))
                        (read_count-Counted (parse_sample nom) 8 n r6 parse_sample-Shrinks))
                      (λ r7 samples s7. (s1.0, omega (arith, s1.1, s2, s3, s4, s5, s6, s7.1)))))))))
