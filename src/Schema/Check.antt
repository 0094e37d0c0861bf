-- ===== src/Schema/Check.antt =====
-- core/src/schema.rs: `compile`, `check` and `unwrap_output`. The JSON parser and the compiled
-- validator are parameters: a parser gives a value or its error, and a validator the violations of a
-- value, one line each.
pub mod Verdicts
use Prim.Native.String.{String}
use core_tempo.Common.{
  ℕ, zero, suc, ◌⊎◌, ◌↔◌, ◌≡◌, ◌≢◌, refl, Bool, true, false, not, ==_iff, ◌||◌, List, [], ◌∷◌,
  Option, none, some, arith, inl, inr, ◌==◌, string_eq, option_eq, if◌then◌else◌, is_some, codes,
  take, concat, Bool-cases, sym, ◌∙◌, subst,
}
use core_tempo.Types.Ids.{AgentId, FlowName}
use core_tempo.Types.Json.{Json, Items, null, bool, number, string, array, object, end, field}
use core_tempo.Schema.Repair.{repair_text}
use core_tempo.Schema.Refs.{get, find_external_ref}
use core_tempo.Workflow.Validate.{Outcome, ok, err}

pub record OutputContract : Type 0 where
  pub schema : Json
  pub flow : FlowName
  pub target : AgentId
  pub max_repairs : ℕ
  pub iter_errors : Json → List String

-- `compile`; `build` is the library's compiler.
abbrev pub compile_with :
    Json
    → FlowName
    → AgentId
    → ℕ
    → Outcome (Json → List String) String
    → Outcome OutputContract String
compile_with schema flow target max_repairs (err e) =
    err (concat ("schema does not compile under draft 2020-12: " ∷ e ∷ []))
compile_with schema flow target max_repairs (ok errors) = ok (record {
  schema = schema;
  flow = flow;
  target = target;
  max_repairs = max_repairs;
  iter_errors = errors;
})

abbrev pub compile_at :
    Json
    → FlowName
    → AgentId
    → ℕ
    → Outcome (Json → List String) String
    → Option String
    → Outcome OutputContract String
compile_at schema flow target max_repairs built (some reference) = err (
    concat (
      "schema contains external $ref '" ∷ reference
      ∷ "'; only internal references (starting with '#') are supported — inline the referenced schema instead"
      ∷ []))
compile_at schema flow target max_repairs built none =
    compile_with schema flow target max_repairs built

unfoldable pub compile :
    (Json → Outcome (Json → List String) String)
    → Json
    → FlowName
    → AgentId
    → ℕ
    → Outcome OutputContract String
compile build schema flow target max_repairs =
    compile_at schema flow target max_repairs (build schema) (find_external_ref schema)

-- `Value::get`, on objects.
abbrev pub at_key : String → Json → Option Json
at_key key (object fs) = get key fs
at_key key _ = none

abbrev pub is_object_type : Option Json → Bool
is_object_type (some (string s)) = s == "object"
is_object_type _ = false

-- `properties` declares `output`.
abbrev pub declares : Option Json → Bool
declares (some p) = is_some (at_key "output" p)
declares none = false

-- The only entry of an object, if its key is `output`.
abbrev pub sole_output : Json → Json
sole_output (object (field k v end)) = if k == "output" then v else object (field k v end)
sole_output j = j

unfoldable pub unwrap_output : Json → Json → Json
unwrap_output schema value =
    let root_is_object =
      is_object_type (at_key "type" schema) || is_some (at_key "properties" schema) in
    if not root_is_object || declares (at_key "properties" schema) then value else sole_output value

abbrev pub first_errors : Json → List String → Outcome Json (List String)
first_errors value [] = ok value
first_errors value (e ∷ es) = err (e ∷ es)

module _ (parse : List ℕ → Outcome Json String) where
  abbrev pub validated : OutputContract → Outcome Json String → Outcome Json (List String)
  validated c (err e) = err (concat ("not valid JSON: " ∷ e ∷ []) ∷ [])
  validated c (ok parsed) =
      let value = unwrap_output c.schema parsed in
      first_errors value (take 10 (c.iter_errors value))

  unfoldable pub check : OutputContract → String → Outcome Json (List String)
  unfolding unwrap_output
  check c raw = validated c (parse (repair_text (codes raw)))
