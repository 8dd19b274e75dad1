-- ===== src/Events/Registry.antt =====
-- packages/domain/src/event-schema-registry.ts: which events are let into the store and the outbox.
use project_process_map.Base.{
  ℕ, Bool, true, false, not, ◌&&◌, ◌||◌, Option, none, some, List, [], ◌∷◌, ◌++◌, any, leb, nat_beq,
  if◌then◌else◌, ◌==◌,
}
use Prim.Native.Nat.{◌+◌}
use project_process_map.Base.Equality.{list_eq, nat_eq}
use project_process_map.Base.Results.{Result, ok, ◌>>◌, throw_if}
use project_process_map.Base.Sets.{contains}
use project_process_map.Base.Tables.{get, put}
use project_process_map.Base.Text.{Text, text, starts_with}
use project_process_map.Events.{
  Json, undefined, null, boolean, number, string, array, object, Items, no_items, item, Fields,
  no_fields, field, DomainEvent, event_value, decimal,
}
use project_process_map.Events.Schemas.{
  EventSchema, node_created, node_leader_assigned, node_completed, membership_demoted,
  membership_revoked, role_binding_assigned, role_slots_initialized, deliverable_initialized,
  deliverable_submitted, deliverable_accepted, deliverable_waived,
}

abbrev pub forbidden_sensitive_keys : List Text
forbidden_sensitive_keys =
    text "password"
    ∷ text "secret"
    ∷ text "token"
    ∷ text "apikey"
    ∷ text "api_key"
    ∷ text "credential"
    ∷ text "credentials"
    ∷ text "privatekey"
    ∷ text "private_key"
    ∷ text "authheader"
    ∷ text "authorization"
    ∷ text "email"
    ∷ text "phone"
    ∷ text "phonenumber"
    ∷ []

pub data EventFault : Type 0 where
  sensitive_field_forbidden : Text → EventFault
  unknown_event_schema_version : EventFault
  missing_required_field unknown_field : Text → EventFault

abbrev pub EventCheck : Type 0
EventCheck = Result EventFault (Unit {0})

-- `toLowerCase` on the units whose lower case has an ASCII unit: the letters, the Kelvin sign and
-- the capital I with a dot. Every other unit stays; its lower case is in no forbidden key either.
unfoldable pub lower_unit : ℕ → Text
lower_unit c =
    if leb 65 c && leb c 90
    then (c + 32) ∷ []
    else if nat_beq c 8490
    then 107 ∷ []
    else if nat_beq c 304
    then 105 ∷ 775 ∷ []
    else c ∷ []

-- `key.toLowerCase().replace(/[-_]/g, "")`
unfoldable pub normalized_key : Text → Text
normalized_key [] = []
normalized_key (c ∷ s) =
    let rest = normalized_key s in
    if nat_beq c b'-' || nat_beq c b'_' then rest else lower_unit c ++ rest

unfoldable pub is_forbidden : Text → Bool
is_forbidden key = contains forbidden_sensitive_keys (normalized_key key)

-- The path that the recursion carries is in no message.
unfoldable mutual
  unfolding is_forbidden

  pub assert_no_sensitive_fields : Json → EventCheck
  assert_no_sensitive_fields undefined = ok tt
  assert_no_sensitive_fields null = ok tt
  assert_no_sensitive_fields (boolean b) = ok tt
  assert_no_sensitive_fields (number n) = ok tt
  assert_no_sensitive_fields (string s) = ok tt
  assert_no_sensitive_fields (array items) = check_items items
  assert_no_sensitive_fields (object fields) = check_entries fields

  pub check_items : Items → EventCheck
  check_items no_items = ok tt
  check_items (item value items) = assert_no_sensitive_fields value >> check_items items

  pub check_entries : Fields → EventCheck
  check_entries no_fields = ok tt
  check_entries (field key value fields) =
      throw_if (is_forbidden key) (sensitive_field_forbidden key)
      >> (assert_no_sensitive_fields value >> check_entries fields)

-- `${eventType}:v${schemaVersion}`
abbrev pub schema_key : Text → ℕ → Text
schema_key event_type schema_version = event_type ++ text ":v" ++ decimal schema_version

abbrev register : List (Text × EventSchema) → EventSchema → List (Text × EventSchema)
register table schema = put table (schema_key schema.event_type schema.schema_version) schema

abbrev register_all : List (Text × EventSchema) → List EventSchema → List (Text × EventSchema)
register_all table [] = table
register_all table (schema ∷ schemas) = register_all (register table schema) schemas

unfoldable pub registered_schemas : List (Text × EventSchema)
registered_schemas = register_all [] (
    node_created ∷ node_leader_assigned ∷ node_completed ∷ membership_demoted ∷ membership_revoked
    ∷ role_binding_assigned ∷ role_slots_initialized ∷ deliverable_initialized
    ∷ deliverable_submitted ∷ deliverable_accepted ∷ deliverable_waived ∷ [])

unfoldable pub get_event_schema : Text → ℕ → Option EventSchema
get_event_schema event_type schema_version =
    get registered_schemas (schema_key event_type schema_version)

abbrev pub reserved_prefixes : List Text
reserved_prefixes =
    text "project-map.node."
    ∷ text "project-map.project-membership."
    ∷ text "project-map.role-binding."
    ∷ text "project-map.role-slots."
    ∷ text "project-map.deliverable."
    ∷ []

unfoldable pub is_reserved : Text → Bool
is_reserved event_type = any (starts_with event_type) reserved_prefixes

-- `field in payload` with a value that is not undefined.
abbrev pub is_undefined : Json → Bool
is_undefined undefined = true
is_undefined _ = false

abbrev pub has_field : Fields → Text → Bool
has_field no_fields name = false
has_field (field key value fields) name =
    let rest = has_field fields name in if key == name then not (is_undefined value) else rest

unfoldable pub check_required : Fields → List Text → EventCheck
check_required payload [] = ok tt
check_required payload (name ∷ names) =
    throw_if (not (has_field payload name)) (missing_required_field name)
    >> check_required payload names

unfoldable pub check_known : List Text → Fields → EventCheck
check_known allowed no_fields = ok tt
check_known allowed (field key value fields) =
    throw_if (not (contains allowed key)) (unknown_field key) >> check_known allowed fields

-- By the schema, if there is one.
unfoldable pub check_payload : DomainEvent → Option EventSchema → EventCheck
check_payload e none = throw_if (is_reserved e.event_type) unknown_event_schema_version
check_payload e (some schema) =
    check_required e.payload schema.required_payload_fields
    >> check_known (schema.required_payload_fields ++ schema.optional_payload_fields) e.payload

unfoldable pub validate_event_against_schema : DomainEvent → EventCheck
validate_event_against_schema e =
    assert_no_sensitive_fields (event_value e)
    >> check_payload e (get_event_schema e.event_type e.schema_version)
