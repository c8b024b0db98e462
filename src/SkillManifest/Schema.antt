-- ===== src/SkillManifest/Schema.antt =====
-- packages/common/skillmanifest/schema.go. A check is true where the code returns no error; the place that
-- an error names is left out. An object has each key once, so the keywords can be checked in the order of
-- the object, where the code looks them up one after another.
use nice_agent.Prelude.{
  String, Bool, ◌&&◌, ◌||◌, true, false, Option, none, some, List, [], ◌∷◌, ◌==◌, trim_space,
  if◌then◌else◌,
}
use nice_agent.Protocol.Json.{Json, bool, str, arr, obj, Items, nil, cons, Fields, end, field}

abbrev one_of : List String → String → Bool
one_of [] text = false
one_of (name ∷ names) text = text == name || one_of names text

-- `validJSONSchemaTypes`
unfoldable pub valid_json_schema_type : String → Bool
valid_json_schema_type name =
    one_of ("array" ∷ "boolean" ∷ "integer" ∷ "null" ∷ "number" ∷ "object" ∷ "string" ∷ []) name

unfoldable pub all_types : Items → Bool
all_types nil = true
all_types (cons (str name) items) = valid_json_schema_type name && all_types items
all_types (cons value items) = false

unfoldable pub validate_schema_type : Json → Bool
validate_schema_type (str name) = valid_json_schema_type name
validate_schema_type (arr nil) = false
validate_schema_type (arr (cons value items)) = all_types (cons value items)
validate_schema_type value = false

abbrev all_strings : Items → Bool
all_strings nil = true
all_strings (cons (str s) items) = all_strings items
all_strings (cons value items) = false

-- The value of `required`.
unfoldable pub validate_required : Json → Bool
validate_required (arr items) = all_strings items
validate_required value = false

-- The four groups of keywords that hold schemas or are checked otherwise.
unfoldable pub is_map_keyword : String → Bool
is_map_keyword key =
    one_of ("properties" ∷ "patternProperties" ∷ "$defs" ∷ "definitions" ∷ "dependentSchemas" ∷ [])
      key

unfoldable pub is_schema_keyword : String → Bool
is_schema_keyword key =
    one_of
      ("additionalProperties" ∷ "unevaluatedProperties" ∷ "propertyNames" ∷ "items" ∷ "contains"
        ∷ "not" ∷ "if" ∷ "then" ∷ "else" ∷ [])
      key

unfoldable pub is_array_keyword : String → Bool
is_array_keyword key = one_of ("prefixItems" ∷ "allOf" ∷ "anyOf" ∷ "oneOf" ∷ []) key

unfoldable mutual
  pub validate_schema_keywords : Json → Bool
  validate_schema_keywords (bool b) = true
  validate_schema_keywords (obj fields) = validate_keywords fields
  validate_schema_keywords value = false

  pub validate_keywords : Fields → Bool
  validate_keywords end = true
  validate_keywords (field key value fields) =
      let as_map = validate_children value in
      let as_schema = validate_schema_or_schema_array value in
      let as_array = validate_schemas value in
      let valid =
        if key == "type"
        then validate_schema_type value
        else if key == "required"
        then validate_required value
        else if is_map_keyword key
        then as_map
        else if is_schema_keyword key
        then as_schema
        else if is_array_keyword key
        then as_array
        else true in
      valid && validate_keywords fields

  pub validate_schema_or_schema_array : Json → Bool
  validate_schema_or_schema_array (arr items) = validate_all items
  validate_schema_or_schema_array (bool b) = true
  validate_schema_or_schema_array (obj fields) = validate_keywords fields
  validate_schema_or_schema_array value = false

  pub validate_schemas : Json → Bool
  validate_schemas (arr items) = validate_all items
  validate_schemas value = false

  pub validate_children : Json → Bool
  validate_children (obj fields) = validate_values fields
  validate_children value = false

  pub validate_all : Items → Bool
  validate_all nil = true
  validate_all (cons value items) = validate_schema_keywords value && validate_all items

  pub validate_values : Fields → Bool
  validate_values end = true
  validate_values (field key value fields) =
      validate_schema_keywords value && validate_values fields

-- The library that the code calls: `unmarshal` is `encoding/json`, `compact` is `json.Compact`, and
-- `resolve` tells whether the library of JSON schemas takes a text.
pub record JsonLibrary : Type 0 where
  pub unmarshal : String → Option Json
  pub compact : String → Option String
  pub resolve : String → Bool

module _ (lib : JsonLibrary) where
  unfoldable pub validate_json_schema : String → Bool
  validate_json_schema raw =
      let trimmed = trim_space raw in
      if trimmed == "" then true else elim (lib.unmarshal trimmed) [
        | none ↦ false
        | some value ↦ validate_schema_keywords value && lib.resolve trimmed
      ]

  unfoldable pub normalize_json : String → Option String
  normalize_json raw =
      let trimmed = trim_space raw in if trimmed == "" then some "" else lib.compact trimmed
