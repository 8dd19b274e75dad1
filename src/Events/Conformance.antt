-- ===== src/Events/Conformance.antt =====
-- What packages/domain/src/event-schema-registry.ts lets in, said of the event itself.
use project_process_map.Base.{
  ◌≡◌, refl, ◌↔◌, true, false, Option, none, some, List, [], ◌∷◌, ◌++◌, All,
}
use project_process_map.Base.Results.{
  ok, throw_if, ◌>>◌, >>-ok_iff, throw_if-ok_iff, then_iff, also_iff,
}
use project_process_map.Base.Equality.{list_eq, nat_eq}
use project_process_map.Base.Checks.{not-false_iff}
use project_process_map.Base.Sets.{contains}
use project_process_map.Base.Text.{Text}
use project_process_map.Events.{
  Json, undefined, null, boolean, number, string, array, object, Items, no_items, item, Fields,
  no_fields, field, DomainEvent, event_value,
}
use project_process_map.Events.Schemas.{EventSchema}
use project_process_map.Events.Registry.{
  is_forbidden, assert_no_sensitive_fields, check_items, check_entries, sensitive_field_forbidden,
  get_event_schema, is_reserved, has_field, check_required, check_known, check_payload,
  validate_event_against_schema, missing_required_field, unknown_field,
  unknown_event_schema_version,
}

-- The key stands in some object of the value, at any depth.
mutual
  pub data Occurs (key : Text) : Json → Type 0 where
    in_array : {items : Items} → OccursInItems key items → Occurs key (array items)
    in_object : {entries : Fields} → OccursInFields key entries → Occurs key (object entries)

  pub data OccursInItems (key : Text) : Items → Type 0 where
    in_item : {v : Json} {items : Items} → Occurs key v → OccursInItems key (item v items)
    in_items :
        {v : Json} {items : Items} → OccursInItems key items → OccursInItems key (item v items)

  pub data OccursInFields (key : Text) : Fields → Type 0 where
    is_name :
        {k : Text} {v : Json} {entries : Fields} → key ≡ k → OccursInFields key (field k v entries)
    in_value :
        {k : Text} {v : Json} {entries : Fields}
        → Occurs key v
        → OccursInFields key (field k v entries)
    in_fields :
        {k : Text} {v : Json} {entries : Fields}
        → OccursInFields key entries
        → OccursInFields key (field k v entries)

-- No key that occurs is a sensitive one.
abbrev pub IsClean : Json → Type 0
IsClean value = (key : Text) → Occurs key value → is_forbidden key ≡ false

abbrev CleanItems : Items → Type 0
CleanItems items = (key : Text) → OccursInItems key items → is_forbidden key ≡ false

abbrev CleanFields : Fields → Type 0
CleanFields entries = (key : Text) → OccursInFields key entries → is_forbidden key ≡ false

clean_item : (v : Json) (items : Items) → IsClean v → CleanItems items → CleanItems (item v items)
clean_item v items p q key (in_item o) = p key o
clean_item v items p q key (in_items o) = q key o

clean_field :
    (k : Text) (v : Json) (entries : Fields)
    → is_forbidden k ≡ false
    → IsClean v
    → CleanFields entries
    → CleanFields (field k v entries)
clean_field k v entries h p q key (is_name e) = rw e h
clean_field k v entries h p q key (in_value o) = p key o
clean_field k v entries h p q key (in_fields o) = q key o

mutual
  unfolding assert_no_sensitive_fields

  IsClean-iff : (v : Json) → (assert_no_sensitive_fields v ≡ ok tt) ↔ IsClean v
  IsClean-iff undefined = (λ _ key o. elim o [ ], λ _. refl)
  IsClean-iff null = (λ _ key o. elim o [ ], λ _. refl)
  IsClean-iff (boolean b) = (λ _ key o. elim o [ ], λ _. refl)
  IsClean-iff (number n) = (λ _ key o. elim o [ ], λ _. refl)
  IsClean-iff (string s) = (λ _ key o. elim o [ ], λ _. refl)
  IsClean-iff (array items) = (
    λ h key o. elim o [ in_array i ↦ (CleanItems-iff items).0 h key i ],
    λ c. (CleanItems-iff items).1 (λ key i. c key (in_array i)),
  )
  IsClean-iff (object entries) = (
    λ h key o. elim o [ in_object i ↦ (CleanFields-iff entries).0 h key i ],
    λ c. (CleanFields-iff entries).1 (λ key i. c key (in_object i)),
  )

  CleanItems-iff : (items : Items) → (check_items items ≡ ok tt) ↔ CleanItems items
  CleanItems-iff no_items = (λ _ key o. elim o [ ], λ _. refl)
  CleanItems-iff (item v items) = (
    λ h.
        let (p, q) = (also_iff (IsClean-iff v) (CleanItems-iff items)).0 h in
        clean_item v items p q,
    λ c.
        (also_iff (IsClean-iff v) (CleanItems-iff items)).1
          (λ key o. c key (in_item o), λ key o. c key (in_items o)),
  )

  CleanFields-iff : (entries : Fields) → (check_entries entries ≡ ok tt) ↔ CleanFields entries
  CleanFields-iff no_fields = (λ _ key o. elim o [ ], λ _. refl)
  CleanFields-iff (field k v entries) = (
    λ h.
        let (a, b) =
          (>>-ok_iff (throw_if (is_forbidden k) (sensitive_field_forbidden k))
              (assert_no_sensitive_fields v >> check_entries entries)).0
            h in
        let (p, q) = (also_iff (IsClean-iff v) (CleanFields-iff entries)).0 b in
        clean_field k v entries ((throw_if-ok_iff _ _).0 a) p q,
    λ c. (>>-ok_iff _ _).1 (
      (throw_if-ok_iff _ _).1 (c k (is_name refl)),
      (also_iff (IsClean-iff v) (CleanFields-iff entries)).1
          (λ key o. c key (in_value o), λ key o. c key (in_fields o)),
    ),
  )

-- The names of the payload's fields.
abbrev pub keys : Fields → List Text
keys no_fields = []
keys (field key value entries) = key ∷ keys entries

-- By the schema, if there is one: the required fields are there and the schema lists every field.
-- Without a schema the type of the event is not one of the program's own.
abbrev pub Fits : Option EventSchema → DomainEvent → Type 0
Fits none e = is_reserved e.event_type ≡ false
Fits (some schema) e =
    All (λ name. has_field e.payload name ≡ true) schema.required_payload_fields
    × All
        (λ key.
          contains (schema.required_payload_fields ++ schema.optional_payload_fields) key ≡ true)
        (keys e.payload)

check_required_iff :
    (payload : Fields) (names : List Text)
    → (check_required payload names ≡ ok tt) ↔ All (λ name. has_field payload name ≡ true) names
unfolding check_required
check_required_iff payload [] = (λ _. tt, λ _. refl)
check_required_iff payload (name ∷ names) =
    then_iff (missing_required_field name) (not-false_iff (has_field payload name))
      (check_required_iff payload names)

check_known_iff :
    (allowed : List Text) (payload : Fields)
    → (check_known allowed payload ≡ ok tt)
      ↔ All (λ key. contains allowed key ≡ true) (keys payload)
unfolding check_known
check_known_iff allowed no_fields = (λ _. tt, λ _. refl)
check_known_iff allowed (field key value entries) =
    then_iff (unknown_field key) (not-false_iff (contains allowed key))
      (check_known_iff allowed entries)

check_payload_iff :
    (e : DomainEvent) (schema : Option EventSchema)
    → (check_payload e schema ≡ ok tt) ↔ Fits schema e
unfolding check_payload
check_payload_iff e none = throw_if-ok_iff (is_reserved e.event_type) unknown_event_schema_version
check_payload_iff e (some schema) =
    also_iff (check_required_iff e.payload schema.required_payload_fields)
      (check_known_iff (schema.required_payload_fields ++ schema.optional_payload_fields) e.payload)

-- An event is let in exactly when no key at any depth of it is a sensitive one, and its payload
-- fits its schema: the required fields are given and no other field than the schema's is there.
-- An event without a registered schema is let in only outside the reserved types.
pub validate_event_iff :
    (e : DomainEvent)
    → (validate_event_against_schema e ≡ ok tt)
      ↔ (IsClean (event_value e) × Fits (get_event_schema e.event_type e.schema_version) e)
unfolding validate_event_against_schema
validate_event_iff e =
    also_iff (IsClean-iff (event_value e))
      (check_payload_iff e (get_event_schema e.event_type e.schema_version))
