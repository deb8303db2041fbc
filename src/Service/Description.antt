-- ===== src/Service/Description.antt =====
-- DescribePlatform of internal/service/platform_service_adapter.go. The values that the handler
-- hands to structpb are a type of their own; the Struct that is made of them is the library's.
use platform_mihomo_service.Base.{String, List}
use platform_mihomo_service.Outcome.{Result, ok, err, status, internal}
use platform_mihomo_service.Service.Mapper.{service_ticket_audience}
use platform_mihomo_service.Service.PlatformService.{supported_actions}

-- The values of Go's `any` that the schema is written with, and the entries of a map.
mutual
  pub data Value : Type 0 where
    text : String → Value
    items : Values → Value
    object : Entries → Value

  pub data Values : Type 0 where
    nil : Values
    cons : Value → Values → Values

  pub data Entries : Type 0 where
    end : Entries
    entry : String → Value → Entries → Entries

pub record DescribePlatformResponse (Struct : Type 0) : Type 0 where
  pub platform_key : String
  pub display_name : String
  pub service_audience : String
  pub supported_actions : List String
  pub credential_schema : Struct
  pub version : String

abbrev pub string_type : Value
string_type = object (entry "type" (text "string") end)

abbrev pub schema_properties : Entries
schema_properties = entry "cookie_bundle" string_type (
    entry "device_id" string_type
      (entry "device_fp" string_type (entry "device_name" string_type end)))

abbrev pub schema_required : Values
schema_required =
    cons (text "cookie_bundle") (cons (text "device_id") (cons (text "device_fp") nil))

abbrev pub credential_schema_entries : Entries
credential_schema_entries =
    entry "type" (text "object")
      (entry "properties" (object schema_properties) (entry "required" (items schema_required) end))

-- The answer around a schema that was built.
unfoldable pub described : {Struct : Type 0} → Struct → DescribePlatformResponse Struct
described schema = record {
  platform_key = "mihomo";
  display_name = "Mihomo";
  service_audience = service_ticket_audience;
  supported_actions = supported_actions;
  credential_schema = schema;
  version = "v1";
}

unfoldable pub describe_platform :
    {Struct : Type 0} → (Entries → Result Struct) → Result (DescribePlatformResponse Struct)
describe_platform new_struct = elim (new_struct credential_schema_entries) [
  | ok schema ↦ ok (described schema)
  | err e ↦ err (status internal "failed to build credential schema")
]
