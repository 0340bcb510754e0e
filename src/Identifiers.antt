-- ===== src/Identifiers.antt =====
-- The implementation identifier: identifiers.c, rmw_get_implementation_identifier.c, the macro
-- RMW_CHECK_TYPE_IDENTIFIERS_MATCH and `is_uxrce_rmw_identifier_valid` of utils.c.
use Prim.Native.String.{String}
use text.Mathlib.Text.{◌==◌ as str_eq}
use rmw_microxrcedds.Prelude.{Bool, true, false, Option, none, some}

abbrev pub eprosima_microxrcedds_identifier : String
eprosima_microxrcedds_identifier = "rmw_microxrcedds"

unfoldable pub rmw_get_implementation_identifier : String
rmw_get_implementation_identifier = eprosima_microxrcedds_identifier

-- RMW_CHECK_TYPE_IDENTIFIERS_MATCH lets NULL pass.
unfoldable pub identifiers_match : Option String → Bool
identifiers_match none = true
identifiers_match (some s) = str_eq s eprosima_microxrcedds_identifier

-- `is_uxrce_rmw_identifier_valid` does not.
unfoldable pub is_uxrce_rmw_identifier_valid : Option String → Bool
unfolding rmw_get_implementation_identifier
is_uxrce_rmw_identifier_valid none = false
is_uxrce_rmw_identifier_valid (some s) = str_eq s rmw_get_implementation_identifier
