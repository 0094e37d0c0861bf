-- ===== src/Schema/Check/Verdicts.antt =====
-- core/src/schema.rs: what `check` and `unwrap_output` give, against a description of their own.
use core_tempo.Common.{
  ℕ, ◌⊎◌, ◌↔◌, ◌≡◌, ◌≢◌, refl, true, false, not, ==_iff, ◌||◌, List, [], ◌∷◌, Option, none, some,
  arith, inl, inr, ◌==◌, string_eq, is_some, codes, take, concat, Bool-cases, sym, ◌∙◌, subst,
  String,
}
use core_tempo.Types.Json.{Json, null, bool, number, string, array, object, end, field}
use core_tempo.Schema.Repair.{repair_text}
use core_tempo.Workflow.Validate.{Outcome, ok, err}
use core_tempo.Schema.Check.{
  OutputContract, at_key, is_object_type, declares, sole_output, unwrap_output, first_errors,
  validated, check,
}

-- A schema whose root is an object and declares no property `output`.
abbrev pub IsOpen : Json → Type 0
IsOpen schema =
    ((at_key "type" schema ≡ some (string "object"))
      ⊎ ((p : Json) × (at_key "properties" schema ≡ some p)))
    × ((p v : Json) → at_key "properties" schema ≡ some p → at_key "output" p ≢ some v)

abbrev pub Wraps : Json → Json → Type 0
Wraps parsed value = parsed ≡ object (field "output" value end)

-- What is checked of a parsed value: what it wraps, under a schema that does not declare the wrapper, and
-- else itself.
abbrev pub Unwrapped : Json → Json → Json → Type 0
Unwrapped schema parsed value =
    (IsOpen schema × Wraps parsed value)
    ⊎ ((value ≡ parsed) × ((v : Json) → IsOpen schema → ¬ (Wraps parsed v)))

-- A result, from what was parsed: the value, if the validator finds no violation in it; the one line of a
-- parser's error; or the first ten violations, where there are some.
abbrev pub Promised :
    (List ℕ → Outcome Json String) → OutputContract → String → Outcome Json (List String) → Type 0
Promised parse c raw (ok value) =
    (parsed : Json) × ((parse (repair_text (codes raw)) ≡ ok parsed)
      × (Unwrapped c.schema parsed value × (c.iter_errors value ≡ [])))
Promised parse c raw (err lines) =
    ((e : String) × ((parse (repair_text (codes raw)) ≡ err e)
        × (lines ≡ concat ("not valid JSON: " ∷ e ∷ []) ∷ [])))
    ⊎ ((parsed : Json) × ((value : Json) × ((parse (repair_text (codes raw)) ≡ ok parsed)
            × (Unwrapped c.schema parsed value
                × ((c.iter_errors value ≢ []) × (lines ≡ take 10 (c.iter_errors value)))))))

is_object_type_iff : (t : Option Json) → is_object_type t ≡ true → t ≡ some (string "object")
is_object_type_iff (some (string s)) h = rw ((==_iff s "object").0 h)
is_object_type_iff none h = cc
is_object_type_iff (some _) h = cc

is_some-witness {ℓ} : {A : Type ℓ} (o : Option A) → is_some o ≡ true → (x : A) × (o ≡ some x)
is_some-witness none h = cc
is_some-witness (some x) h = (x, refl)

-- The test of the code, both ways.
opens-IsOpen :
    (schema : Json)
    → not (is_object_type (at_key "type" schema) || is_some (at_key "properties" schema))
        || declares (at_key "properties" schema)
      ≡ false
    → IsOpen schema
opens-IsOpen schema h = (
  root (at_key "type" schema) (at_key "properties" schema) h,
  λ p v. undeclared (at_key "type" schema) (at_key "properties" schema) p v h,
)
  where
    root :
        (t p : Option Json)
        → not (is_object_type t || is_some p) || declares p ≡ false
        → (t ≡ some (string "object")) ⊎ ((x : Json) × (p ≡ some x))
    root t none h = inl (is_object_type_iff t (ground (arith, h)))
    root t (some x) h = inr (x, refl)

    undeclared :
        (t p : Option Json) (x v : Json)
        → not (is_object_type t || is_some p) || declares p ≡ false
        → p ≡ some x
        → at_key "output" x ≢ some v
    undeclared t p x v h has found =
        let none_declared : declares p ≡ false = ground (arith, h) in
        cc (rw (has, found) at none_declared)

IsOpen-opens :
    (schema : Json)
    → IsOpen schema
    → not (is_object_type (at_key "type" schema) || is_some (at_key "properties" schema))
        || declares (at_key "properties" schema)
      ≡ false
IsOpen-opens schema (root, undeclared) =
    let is_root : is_object_type (at_key "type" schema) || is_some (at_key "properties" schema)
        ≡ true =
      elim root [ inl t ↦ rw t refl | inr (p, has) ↦ rw has (ground arith) ] in
    rw is_root (none_declared (at_key "properties" schema) undeclared)
  where
    none_declared :
        (o : Option Json)
        → ((p v : Json) → o ≡ some p → at_key "output" p ≢ some v)
        → declares o ≡ false
    none_declared none h = refl
    none_declared (some p) h = elim (Bool-cases (is_some (at_key "output" p))) [
      | inl has ↦
          let (v, found) = is_some-witness (at_key "output" p) has in absurd (h p v refl found)
      | inr lacks ↦ lacks
    ]

sole_output-cases :
    (j : Json) → Wraps j (sole_output j) ⊎ ((sole_output j ≡ j) × ((v : Json) → ¬ (Wraps j v)))
sole_output-cases (object (field k v end)) = elim (Bool-cases (k == "output")) [
  | inl same ↦ inl (rw ((==_iff k "output").0 same) refl)
  | inr other ↦ inr (
    rw other refl,
    λ w h. let same : k ≡ "output" = cc h in cc (other, (==_iff k "output").1 same),
  )
]
sole_output-cases (object (field k v (field l w fs))) = inr (refl, λ x h. cc)
sole_output-cases (object end) = inr (refl, λ x h. cc)
sole_output-cases null = inr (refl, λ x h. cc)
sole_output-cases (bool b) = inr (refl, λ x h. cc)
sole_output-cases (number n) = inr (refl, λ x h. cc)
sole_output-cases (string s) = inr (refl, λ x h. cc)
sole_output-cases (array items) = inr (refl, λ x h. cc)

unwrap_output-Unwrapped :
    (schema parsed : Json) → Unwrapped schema parsed (unwrap_output schema parsed)
unfolding unwrap_output
unwrap_output-Unwrapped schema parsed =
    elim (Bool-cases (
      not (is_object_type (at_key "type" schema) || is_some (at_key "properties" schema))
      || declares (at_key "properties" schema))) [
        | inl keep ↦ rw keep (inr (refl, λ v opened h. cc (keep, IsOpen-opens schema opened)))
        | inr open_up ↦ rw open_up (elim (sole_output-cases parsed) [
          | inl wrapped ↦ inl (opens-IsOpen schema open_up, wrapped)
          | inr (same, bare) ↦ inr (same, λ v opened h. bare v h)
        ])
      ]

Unwrapped-unwrap_output :
    (schema parsed value : Json)
    → Unwrapped schema parsed value
    → unwrap_output schema parsed ≡ value
unfolding unwrap_output
Unwrapped-unwrap_output schema parsed value (inl (opened, wrapped)) =
    rw (IsOpen-opens schema opened, wrapped) refl
Unwrapped-unwrap_output schema parsed value (inr (same, bare)) =
    elim (unwrap_output-Unwrapped schema parsed) [
      | inl (opened, wrapped) ↦ absurd (bare (unwrap_output schema parsed) opened wrapped)
      | inr (kept, other) ↦ kept ∙ sym same
    ]

module _ (parse : List ℕ → Outcome Json String) (c : OutputContract) (raw : String) where
  none_left : (errors : List String) → take 10 errors ≡ [] → errors ≡ []
  none_left [] h = refl
  none_left (e ∷ es) h = cc

  errors-Promised :
      (parsed : Json) (errors : List String)
      → parse (repair_text (codes raw)) ≡ ok parsed
      → c.iter_errors (unwrap_output c.schema parsed) ≡ errors
      → Promised parse c raw (first_errors (unwrap_output c.schema parsed) (take 10 errors))
  errors-Promised parsed [] p e = (parsed, (p, (unwrap_output-Unwrapped c.schema parsed, e)))
  errors-Promised parsed (x ∷ xs) p e = inr (
    parsed,
    (
      unwrap_output c.schema parsed,
      (p, (unwrap_output-Unwrapped c.schema parsed, ((λ h. cc (h, e)), rw e refl))),
    ),
  )

  validated-Promised :
      (result : Outcome Json String)
      → parse (repair_text (codes raw)) ≡ result
      → Promised parse c raw (validated parse c result)
  validated-Promised (err e) p = inl (e, (p, refl))
  validated-Promised (ok parsed) p =
      errors-Promised parsed (c.iter_errors (unwrap_output c.schema parsed)) p refl

  first_errors-some :
      (value : Json) (errors : List String)
      → errors ≢ []
      → first_errors value (take 10 errors) ≡ err (take 10 errors)
  first_errors-some value [] h = absurd (h refl)
  first_errors-some value (e ∷ es) h = refl

  Promised-validated :
      (result : Outcome Json (List String))
      → Promised parse c raw result
      → validated parse c (parse (repair_text (codes raw))) ≡ result
  Promised-validated (ok value) (parsed, (p, (u, clean))) =
      rw (p, Unwrapped-unwrap_output c.schema parsed value u, clean) refl
  Promised-validated (err lines) (inl (e, (p, one))) = rw (p, one) refl
  Promised-validated (err lines) (inr (parsed, (value, (p, (u, (some_left, few)))))) =
      rw (p, Unwrapped-unwrap_output c.schema parsed value u, few)
        (first_errors-some value (c.iter_errors value) some_left)

-- A check of a text gives a result exactly when it is the one promised of what was parsed from the repaired
-- text: the parsed value, or, under a schema whose root is an object and declares no property `output`,
-- what its only entry `output` holds, if the validator finds no violation in that; the parser's error in
-- one line; or the first ten violations, where there are some.
pub check_lem :
    (parse : List ℕ → Outcome Json String) (c : OutputContract) (raw : String)
    (result : Outcome Json (List String))
    → (check parse c raw ≡ result) ↔ Promised parse c raw result
unfolding check
check_lem parse c raw result = (
  λ h.
      subst (Promised parse c raw) h
        (validated-Promised parse c raw (parse (repair_text (codes raw))) refl),
  Promised-validated parse c raw result,
)
