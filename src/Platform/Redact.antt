-- ===== src/Platform/Redact.antt =====
-- packages/common/platform/redact.go: values under a key that sounds like a secret are blanked out before
-- they are kept or shown.
use nice_agent.Prelude.{
  ℕ, zero, suc, ◌⊎◌, String, Bool, true, false, ◌||◌, ◌≡◌, refl, List, [], ◌∷◌, Map, Char, Option,
  none, some, trim_space, to_lower, contains_text, if◌then◌else◌, Bool-cases, inl, inr, ap, ap₂,
  sym, subst, ◌↔◌, arith,
}
use mathlib.Core.Option
use nice_agent.Protocol.Json.{
  Json, null, bool, num, str, arr, obj, Items, nil, cons, Fields, end, field,
}

abbrev sensitive_key_fragments : List String
sensitive_key_fragments =
    "api_key" ∷ "apikey" ∷ "authorization" ∷ "bearer" ∷ "cookie" ∷ "password" ∷ "secret" ∷ "token"
    ∷ []

abbrev contains_any : List String → String → Bool
contains_any [] text = false
contains_any (fragment ∷ fragments) text =
    contains_text fragment text || contains_any fragments text

-- `lower` is the table by which Go lowers a character.
module _ (lower : Char → Char) where
  unfoldable pub is_sensitive_key : String → Bool
  is_sensitive_key key = contains_any sensitive_key_fragments (to_lower lower (trim_space key))

  mutual
    pub redact_value : Json → Json
    redact_value null = null
    redact_value (bool b) = bool b
    redact_value (num n) = num n
    redact_value (str s) = str s
    redact_value (arr items) = arr (redact_items items)
    redact_value (obj fields) = obj (redact_fields fields)

    pub redact_items : Items → Items
    redact_items nil = nil
    redact_items (cons item items) = cons (redact_value item) (redact_items items)

    pub redact_fields : Fields → Fields
    redact_fields end = end
    redact_fields (field key value fields) =
        let kept = redact_value value in
        field key (if is_sensitive_key key then str "[redacted]" else kept) (redact_fields fields)

  -- `RedactMap`
  unfoldable pub redact_map : Map Json → Map Json
  redact_map [] = []
  redact_map ((key, value) ∷ values) =
      (key, if is_sensitive_key key then str "[redacted]" else redact_value value)
      ∷ redact_map values

  -- `RedactJSON`; `unmarshal` and `marshal` are `encoding/json`.
  unfoldable pub redact_json : (String → Option Json) → (Json → Option String) → String → String
  redact_json unmarshal marshal raw = elim (unmarshal raw) [
    | none ↦ raw
    | some value ↦ elim (marshal (redact_value value)) [ none ↦ raw | some data_text ↦ data_text ]
  ]

  -- At every depth, the value under a sensitive key is the blank.
  mutual
    pub Blank : Json → Type 0
    Blank null = Unit
    Blank (bool b) = Unit
    Blank (num n) = Unit
    Blank (str s) = Unit
    Blank (arr items) = BlankItems items
    Blank (obj fields) = BlankFields fields

    pub BlankItems : Items → Type 0
    BlankItems nil = Unit
    BlankItems (cons item items) = Blank item × BlankItems items

    pub BlankFields : Fields → Type 0
    BlankFields end = Unit
    BlankFields (field key value fields) =
        ((is_sensitive_key key ≡ false) ⊎ (value ≡ str "[redacted]"))
        × Blank value
        × BlankFields fields

  mutual
    unfolding Blank redact_value

    redact_value-Blank : (value : Json) → Blank (redact_value value)
    redact_value-Blank null = tt
    redact_value-Blank (bool b) = tt
    redact_value-Blank (num n) = tt
    redact_value-Blank (str s) = tt
    redact_value-Blank (arr items) = redact_items-BlankItems items
    redact_value-Blank (obj fields) = redact_fields-BlankFields fields

    redact_items-BlankItems : (items : Items) → BlankItems (redact_items items)
    redact_items-BlankItems nil = tt
    redact_items-BlankItems (cons item items) =
        (redact_value-Blank item, redact_items-BlankItems items)

    redact_fields-BlankFields : (fields : Fields) → BlankFields (redact_fields fields)
    redact_fields-BlankFields end = tt
    redact_fields-BlankFields (field key value fields) = elim (Bool-cases (is_sensitive_key key)) [
      | inl hot ↦ rw hot (inr refl, tt, redact_fields-BlankFields fields)
      | inr cold ↦ rw cold (inl refl, redact_value-Blank value, redact_fields-BlankFields fields)
    ]

  blanked :
      (key : String) {value : Json}
      → is_sensitive_key key ≡ true
      → (is_sensitive_key key ≡ false) ⊎ (value ≡ str "[redacted]")
      → value ≡ str "[redacted]"
  blanked key hot (inl cold) = absurd (ground arith)
  blanked key hot (inr q) = q

  mutual
    unfolding Blank redact_value

    redact_value_same : (value : Json) → Blank value → redact_value value ≡ value
    redact_value_same null h = refl
    redact_value_same (bool b) h = refl
    redact_value_same (num n) h = refl
    redact_value_same (str s) h = refl
    redact_value_same (arr items) h = ap arr (redact_items_same items h)
    redact_value_same (obj fields) h = ap obj (redact_fields_same fields h)

    redact_items_same : (items : Items) → BlankItems items → redact_items items ≡ items
    redact_items_same nil h = refl
    redact_items_same (cons item items) h =
        ap₂ cons (redact_value_same item h.0) (redact_items_same items h.1)

    redact_fields_same : (fields : Fields) → BlankFields fields → redact_fields fields ≡ fields
    redact_fields_same end h = refl
    redact_fields_same (field key value fields) h = elim (Bool-cases (is_sensitive_key key)) [
      | inl hot ↦
          rw hot (ap₂ (field key) (sym (blanked key hot h.0)) (redact_fields_same fields h.2))
      | inr cold ↦
          rw cold (ap₂ (field key) (redact_value_same value h.1) (redact_fields_same fields h.2))
    ]

  -- The value at a path of positions, none of which has a sensitive key.
  mutual
    pub find : List ℕ → Json → Option Json
    find [] value = some value
    find (n ∷ path) null = none
    find (n ∷ path) (bool b) = none
    find (n ∷ path) (num m) = none
    find (n ∷ path) (str s) = none
    find (n ∷ path) (arr items) = find_item n path items
    find (n ∷ path) (obj fields) = find_field n path fields

    find_item : ℕ → List ℕ → Items → Option Json
    find_item n path nil = none
    find_item zero path (cons item items) = find path item
    find_item (suc n) path (cons item items) = find_item n path items

    find_field : ℕ → List ℕ → Fields → Option Json
    find_field n path end = none
    find_field zero path (field key value fields) =
        let inner = find path value in if is_sensitive_key key then none else inner
    find_field (suc n) path (field key value fields) = find_field n path fields

  guarded :
      (b : Bool) (f : Json → Option Json) (g : Json → Json) (blank new old : Json)
      → f new ≡ Option.map g (f old)
      → (if b then none else f (if b then blank else new))
        ≡ Option.map g (if b then none else f old)
  guarded true f g blank new old h = refl
  guarded false f g blank new old h = h

  mutual
    unfolding find redact_value

    find-redact_value :
        (path : List ℕ) (value : Json)
        → find path (redact_value value) ≡ Option.map redact_value (find path value)
    find-redact_value [] value = refl
    find-redact_value (n ∷ path) null = refl
    find-redact_value (n ∷ path) (bool b) = refl
    find-redact_value (n ∷ path) (num m) = refl
    find-redact_value (n ∷ path) (str s) = refl
    find-redact_value (n ∷ path) (arr items) = find_item-redact_items n path items
    find-redact_value (n ∷ path) (obj fields) = find_field-redact_fields n path fields

    find_item-redact_items :
        (n : ℕ) (path : List ℕ) (items : Items)
        → find_item n path (redact_items items) ≡ Option.map redact_value (find_item n path items)
    find_item-redact_items n path nil = refl
    find_item-redact_items zero path (cons item items) = find-redact_value path item
    find_item-redact_items (suc n) path (cons item items) = find_item-redact_items n path items

    find_field-redact_fields :
        (n : ℕ) (path : List ℕ) (fields : Fields)
        → find_field n path (redact_fields fields)
          ≡ Option.map redact_value (find_field n path fields)
    find_field-redact_fields n path end = refl
    find_field-redact_fields zero path (field key value fields) =
        guarded (is_sensitive_key key) (find path) redact_value (str "[redacted]")
          (redact_value value) value (find-redact_value path value)
    find_field-redact_fields (suc n) path (field key value fields) =
        find_field-redact_fields n path fields

  -- After a redaction, no value under a sensitive key is left at any depth of the document; the
  -- redaction leaves a document alone exactly if it has no such value; and at every path without a
  -- sensitive key stands the redaction of what stood there, so that the other values stay as they are.
  pub redact_value-exact :
      (value : Json)
      → Blank (redact_value value)
        × ((redact_value value ≡ value) ↔ Blank value)
        × ((path : List ℕ)
            → find path (redact_value value) ≡ Option.map redact_value (find path value))
  redact_value-exact value = (
    redact_value-Blank value,
    (λ q. subst Blank q (redact_value-Blank value), redact_value_same value),
    λ path. find-redact_value path value,
  )
