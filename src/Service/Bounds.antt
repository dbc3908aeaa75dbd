-- ===== src/Service/Bounds.antt =====
-- The bounds on what an execution may return.
use runner_engine.Prelude.{
  ℕ, ◌+◌, ◌≤◌, ◌≡◌, refl, ap, subst, String, string_eq, true, List, [], ◌∷◌, length, map, contains,
  ltb, arith, All, Bool-cases, inl, inr,
}
use runner_engine.Errors.{Result-cases, ok}
use runner_engine.Dict.{Dict, restrict}
use runner_engine.Model.{Value, text_value, other_value, OperatorRelease, RunResult}
use runner_engine.Backend.{Backend}
use runner_engine.Service.{Service, filter_attributes, attribute_bytes, validate_attributes}
use runner_engine.Service.Request.{Context, Vetted, safe_result}
use runner_engine.Service.Invoke.{execute}
use runner_engine.Service.Storing.{execute_safe}

abbrev pub as_value : String × String → String × Value
as_value (key, value) = (key, text_value value)

module _ (utf8_length : String → ℕ) where
  -- The bytes of the keys and of the texts.
  abbrev pub text_bytes : Dict String String → ℕ
  text_bytes [] = 0
  text_bytes ((key, value) ∷ d) = utf8_length key + utf8_length value + text_bytes d

  -- What a release may return: names that it lists, texts, and both within the limits.
  pub record Bounded (allowed : List String) (result : RunResult) : Type 0 where
    pub content_bytes : length result.content ≤ 8_388_608
    pub count : length result.attributes ≤ 128
    pub allowed_names : All (λ (p : String × Value). contains p.0 allowed ≡ true) result.attributes
    pub texts : Dict String String
    pub are_texts : result.attributes ≡ map as_value texts
    pub total_bytes : text_bytes texts ≤ 65_536

  abbrev Texts : Dict String Value → ℕ → Type 0
  Texts values total =
      (texts : Dict String String) × (values ≡ map as_value texts) × (text_bytes texts ≡ total)

  attribute_bytes-Texts :
      (values : Dict String Value) (total : ℕ)
      → attribute_bytes utf8_length values ≡ ok total
      → Texts values total
  attribute_bytes-Texts [] total h = ([], refl, cc h)
  attribute_bytes-Texts ((key, other_value value) ∷ d) total h = cc h
  attribute_bytes-Texts ((key, text_value value) ∷ d) total h =
      elim (Result-cases (attribute_bytes utf8_length d)) [
        | inr (e, raised) ↦ cc (rw raised at h)
        | inl (n, summed) ↦
            let (texts, same, bytes) = attribute_bytes-Texts d n summed in
            (
              (key, value) ∷ texts,
              ap (λ rest. (key, text_value value) ∷ rest) same,
              cc (rw summed at h, bytes),
            )
      ]

  -- What _validate_attributes lets pass.
  validated :
      (values : Dict String Value) (u : Unit {0})
      → validate_attributes utf8_length values ≡ ok u
      → (length values ≤ 128) × ((total : ℕ) × Texts values total × (total ≤ 65_536))
  unfolding validate_attributes
  validated values u h = elim (Bool-cases (ltb 128 (length values))) [
    | inl many ↦ cc (rw many at h)
    | inr few ↦ elim (Result-cases (attribute_bytes utf8_length values)) [
      | inr (e, raised) ↦ cc (rw (few, raised) at h)
      | inl (total, summed) ↦ elim (Bool-cases (ltb 65_536 total)) [
        | inl large ↦ cc (rw (few, summed, large) at h)
        | inr small ↦ (
          ground (arith, few),
          (total, attribute_bytes-Texts values total summed, ground (arith, small)),
        )
      ]
    ]
  ]

  restrict-All :
      (ks : List String) (d : Dict String Value)
      → All (λ (p : String × Value). contains p.0 ks ≡ true) (restrict ks d)
  unfolding restrict
  restrict-All ks [] = tt
  restrict-All ks ((key, value) ∷ d) = elim (Bool-cases (contains key ks)) [
    | inl listed ↦ rw listed (listed, restrict-All ks d)
    | inr other ↦ rw other (restrict-All ks d)
  ]

  filter_attributes-All :
      (values : Dict String Value) (allowed : List String)
      → All (λ (p : String × Value). contains p.0 allowed ≡ true) (filter_attributes values allowed)
  unfolding filter_attributes
  filter_attributes-All values [] = tt
  filter_attributes-All values (k ∷ ks) = restrict-All (k ∷ ks) values

  safe_result-Bounded :
      (rel : OperatorRelease) (raw result : RunResult)
      → safe_result utf8_length rel raw ≡ ok result
      → Bounded rel.output_attributes result
  unfolding safe_result
  safe_result-Bounded rel raw result h =
      let safe = filter_attributes raw.attributes rel.output_attributes in
      elim (Result-cases (validate_attributes utf8_length safe)) [
        | inr (e, raised) ↦ cc (rw (safe_result, raised) at h)
        | inl (u, valid) ↦ elim (Bool-cases (ltb 8_388_608 (length raw.content))) [
          | inl large ↦ cc (rw (safe_result, valid, large) at h)
          | inr small ↦
              let same : ok (record raw { attributes = safe }) ≡ ok result =
                rw (safe_result, valid, small) at h in
              let (count, (total, (texts, are_texts, bytes), bounded)) = validated safe u valid in
              let made : Bounded rel.output_attributes (record raw { attributes = safe }) = record {
                content_bytes = ground (arith, small);
                count = count;
                allowed_names = filter_attributes-All raw.attributes rel.output_attributes;
                texts = texts;
                are_texts = are_texts;
                total_bytes = omega (arith, bytes, bounded);
              } in
              subst (Bounded rel.output_attributes) (cc same) made
        ]
      ]

-- If an execution returns a result, its content has at most 8388608 bytes, it has at most 128
-- attributes, the release lists the names of all of them, the values are all texts, and the names
-- and values have at most 65536 bytes together, whatever the sandbox answered.
pub execute_bounds :
    {W : Type 0} (backend : Backend W) (x : Context) (run_id : String) (v : Vetted) (s : Service W)
    (result : RunResult)
    → (execute backend x run_id v s).0 ≡ ok result
    → Bounded x.utf8_length v.rel.output_attributes result
execute_bounds backend x run_id v s result done =
    let (raw, safe) = execute_safe backend x run_id v s result done in
    safe_result-Bounded x.utf8_length v.rel raw result safe
