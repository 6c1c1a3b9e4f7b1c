-- ===== src/Clib.antt =====
-- The functions of cJSON and of the C library that NatProbe's messages go through. cJSON is a copy
-- of another project's library, so its values and functions are parameters.
use Prim.Native.String.{String}
use edge_compute.Base.{ℕ, Option, ℤ}
use edge_compute.Sys.{Bytes}

pub record Clib (J : Type 0) : Type 0 where
  -- cJSON_Parse, cJSON_GetObjectItem and the fields of an item
  pub parse : Bytes → Option J
  pub get_object_item : J → String → Option J
  pub valueint : J → ℤ
  pub valuestring : J → Bytes
  -- cJSON_CreateObject, cJSON_AddNumberToObject, cJSON_AddStringToObject and cJSON_Print
  pub create_object : J
  pub add_number_to_object : J → String → ℤ → J
  pub add_string_to_object : J → String → Bytes → J
  pub print : J → Bytes
  -- snprintf with "%u", and strtoul in base 10
  pub print_unsigned : ℕ → Bytes
  pub strtoul : Bytes → ℕ
