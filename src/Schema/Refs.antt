-- ===== src/Schema/Refs.antt =====
-- core/src/schema.rs: `find_external_ref`. References inside the schema start with `#`.
use Prim.Native.Char.{code}
use Prim.Native.String.{String}
use core_tempo.Common.{
  ◌⊎◌, ◌≡◌, refl, Bool, true, false, Option, none, some, arith, inl, inr, ◌==◌, nat_eq, string_eq,
  if◌then◌else◌, or_else, is_some, Bool-cases,
}
use core_tempo.Types.Json.{
  Json, Items, Fields, null, bool, number, string, array, object, nil, cons, end, field,
}

-- `Map::get`.
unfoldable pub get : String → Fields → Option Json
get key end = none
get key (field k v fs) = if k == key then some v else get key fs

abbrev pub starts_with_hash : String → Bool
starts_with_hash String.[] = false
starts_with_hash (String.◌∷◌ c s) = code c == b'#'

-- The own `$ref` of an object, if it points outside.
abbrev pub own_ref : Option Json → Option String
own_ref (some (string r)) = if starts_with_hash r then none else some r
own_ref _ = none

unfoldable mutual
  unfolding get

  pub find_external_ref : Json → Option String
  find_external_ref null = none
  find_external_ref (bool b) = none
  find_external_ref (number n) = none
  find_external_ref (string s) = none
  find_external_ref (array items) = find_in_items items
  find_external_ref (object fs) = or_else (own_ref (get "$ref" fs)) (find_in_values fs)

  pub find_in_items : Items → Option String
  find_in_items nil = none
  find_in_items (cons j items) = or_else (find_external_ref j) (find_in_items items)

  pub find_in_values : Fields → Option String
  find_in_values end = none
  find_in_values (field k v fs) = or_else (find_external_ref v) (find_in_values fs)

-- A reference out of the schema, at any depth.
mutual
  pub data RefersTo (r : String) : Json → Type 0 where
    own :
        (fs : Fields)
        → get "$ref" fs ≡ some (string r)
        → starts_with_hash r ≡ false
        → RefersTo r (object fs)
    in_object : (fs : Fields) → RefersIn r fs → RefersTo r (object fs)
    in_array : (items : Items) → RefersAmong r items → RefersTo r (array items)

  pub data RefersIn (r : String) : Fields → Type 0 where
    value : (k : String) (v : Json) (fs : Fields) → RefersTo r v → RefersIn r (field k v fs)
    later : (k : String) (v : Json) (fs : Fields) → RefersIn r fs → RefersIn r (field k v fs)

  pub data RefersAmong (r : String) : Items → Type 0 where
    item : (j : Json) (items : Items) → RefersTo r j → RefersAmong r (cons j items)
    later_item : (j : Json) (items : Items) → RefersAmong r items → RefersAmong r (cons j items)

own_ref_found :
    (r : String) (found : Option Json)
    → own_ref found ≡ some r
    → (found ≡ some (string r)) × (starts_with_hash r ≡ false)
own_ref_found r none h = cc
own_ref_found r (some null) h = cc
own_ref_found r (some (bool b)) h = cc
own_ref_found r (some (number n)) h = cc
own_ref_found r (some (array items)) h = cc
own_ref_found r (some (object fs)) h = cc
own_ref_found r (some (string s)) h = elim (Bool-cases (starts_with_hash s)) [
  | inl inside ↦ cc (rw inside at h)
  | inr outside ↦ let e : s ≡ r = ground (arith, outside) in (rw e, rw (← e) outside)
]

or_else-eq-some {ℓ} :
    {A : Type ℓ} (a b : Option A) {x : A} → or_else a b ≡ some x → ((a ≡ some x) ⊎ (b ≡ some x))
or_else-eq-some none b h = inr h
or_else-eq-some (some a) b h = inl h

or_else-is_some {ℓ} :
    {A : Type ℓ} (a b : Option A)
    → (is_some a ≡ true) ⊎ (is_some b ≡ true)
    → is_some (or_else a b) ≡ true
or_else-is_some none b (inl h) = cc
or_else-is_some none b (inr h) = h
or_else-is_some (some a) b h = refl

mutual
  unfolding find_external_ref find_in_items find_in_values

  sound : (r : String) (j : Json) → find_external_ref j ≡ some r → RefersTo r j
  sound r null h = cc
  sound r (bool b) h = cc
  sound r (number n) h = cc
  sound r (string s) h = cc
  sound r (array items) h = in_array items (sound_items r items h)
  sound r (object fs) h = elim (or_else-eq-some (own_ref (get "$ref" fs)) _ h) [
    | inl mine ↦ let (found, out) = own_ref_found r (get "$ref" fs) mine in own fs found out
    | inr other ↦ in_object fs (sound_values r fs other)
  ]

  sound_items : (r : String) (items : Items) → find_in_items items ≡ some r → RefersAmong r items
  sound_items r nil h = cc
  sound_items r (cons j items) h = elim (or_else-eq-some (find_external_ref j) _ h) [
    | inl first ↦ item j items (sound r j first)
    | inr rest ↦ later_item j items (sound_items r items rest)
  ]

  sound_values : (r : String) (fs : Fields) → find_in_values fs ≡ some r → RefersIn r fs
  sound_values r end h = cc
  sound_values r (field k v fs) h = elim (or_else-eq-some (find_external_ref v) _ h) [
    | inl first ↦ value k v fs (sound r v first)
    | inr rest ↦ later k v fs (sound_values r fs rest)
  ]

mutual
  unfolding find_external_ref find_in_items find_in_values

  complete : {r : String} {j : Json} → RefersTo r j → is_some (find_external_ref j) ≡ true
  complete (own fs found out) =
      or_else-is_some (own_ref (get "$ref" fs)) (find_in_values fs) (inl (rw (found, out)))
  complete (in_object fs p) =
      or_else-is_some (own_ref (get "$ref" fs)) (find_in_values fs) (inr (complete_values p))
  complete (in_array items p) = complete_items p

  complete_values : {r : String} {fs : Fields} → RefersIn r fs → is_some (find_in_values fs) ≡ true
  complete_values (value k v fs p) =
      or_else-is_some (find_external_ref v) (find_in_values fs) (inl (complete p))
  complete_values (later k v fs p) =
      or_else-is_some (find_external_ref v) (find_in_values fs) (inr (complete_values p))

  complete_items :
      {r : String} {items : Items} → RefersAmong r items → is_some (find_in_items items) ≡ true
  complete_items (item j items p) =
      or_else-is_some (find_external_ref j) (find_in_items items) (inl (complete p))
  complete_items (later_item j items p) =
      or_else-is_some (find_external_ref j) (find_in_items items) (inr (complete_items p))

-- A schema is refused for a reference exactly when some object in it, at any depth, has one that does
-- not start with `#`, and the one that is named is such a reference.
pub find_external_ref_lem :
    (schema : Json)
    → ((r : String) → find_external_ref schema ≡ some r → RefersTo r schema)
      × ((r : String) → RefersTo r schema → is_some (find_external_ref schema) ≡ true)
find_external_ref_lem schema = (λ r h. sound r schema h, λ r p. complete p)
