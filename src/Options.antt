-- ===== src/Options.antt =====
-- Init options: `rmw_init_options_init`, `rmw_init_options_copy` and `rmw_init_options_fini` of
-- rmw_init.c (rmw_microxrcedds_c/src), in the build with
-- RMW_UXRCE_TRANSPORT_UDP. A text is the list of its bytes without the terminating 0.
pub mod Setters
pub mod Key
pub mod Life
pub mod Bounds
mod Tests
use Prim.Native.String.{String}
use rmw_microxrcedds.Prelude.{
  ℕ, zero, suc, Bool, true, false, ◌&&◌, not, Option, none, some, List, [], ◌∷◌, length, leb, has,
  ◌==◌, if◌then◌else◌,
}
use rmw_microxrcedds.Pool
use rmw_microxrcedds.Types.{
  Ptr, RmwRet, ret_ok, ret_error, ret_invalid_argument, ret_incorrect_rmw_implementation, Entities,
}
use rmw_microxrcedds.Identifiers.{identifiers_match, eprosima_microxrcedds_identifier}
use rmw_microxrcedds.Entity.{set_at, with_memory}
use rmw_microxrcedds.Names.{snprintf}
use rmw_microxrcedds.Session.{init_pool}

-- `rmw_uxrce_transport_params_t`
pub record TransportParams : Type 0 where
  pub agent_address : List ℕ
  pub agent_port : List ℕ
  pub serial_device : List ℕ
  pub client_key : ℕ

-- RMW_UXRCE_DEFAULT_IP, RMW_UXRCE_DEFAULT_PORT, MAX_IP_LEN, MAX_PORT_LEN, MAX_SERIAL_DEVICE and the
-- array of the options.
pub record OptionsConfig : Type 0 where
  pub default_ip : List ℕ
  pub default_port : List ℕ
  pub max_ip_len : ℕ
  pub max_port_len : ℕ
  pub max_serial_device : ℕ
  pub custom_init_options : List Ptr

-- `init_options_memory` and the parameters in its items.
pub record OptionsStore : Type 0 where
  pub is_initialized : Bool
  pub options : Entities TransportParams

-- `rmw_init_options_t`; `allocator` is whether the allocator is valid.
pub record RmwInitOptions : Type 0 where
  pub instance_id : ℕ
  pub implementation_identifier : Option String
  pub allocator : Bool
  pub enclave : List ℕ
  pub domain_id : ℕ
  pub impl : Ptr

-- `rmw_get_zero_initialized_init_options`
abbrev pub zero_options : RmwInitOptions
zero_options = record {
  instance_id = 0;
  implementation_identifier = none;
  allocator = false;
  enclave = [];
  domain_id = 0;
  impl = 0;
}

abbrev pub is_null : Option String → Bool
is_null none = true
is_null (some id) = false

-- The parameters in an item are written.
abbrev pub set_params : Ptr → TransportParams → OptionsStore → OptionsStore
set_params x params s = record s {
  options = record { memory = s.options.memory; at = set_at x params s.options.at };
}

-- A text into a buffer of `size` bytes.
abbrev pub stored : ℕ → List ℕ → List ℕ
stored size text = (snprintf size text).1

abbrev pub set_address : Ptr → List ℕ → OptionsStore → OptionsStore
set_address x text s = set_params x (record (s.options.at x) { agent_address = text }) s

abbrev pub set_port : Ptr → List ℕ → OptionsStore → OptionsStore
set_port x text s = set_params x (record (s.options.at x) { agent_port = text }) s

-- The generator of the C library: `srand` gives its state, `rand` a number and the next state.
pub record RandLibrary (Seed : Type 0) : Type 0 where
  pub srand : ℕ → Seed
  pub rand : Seed → ℕ × Seed

module _ {Seed : Type 0} (library : RandLibrary Seed) where
  -- The loop that draws the client's key until it is not 0, for at most so many draws.
  unfoldable pub draw_key : ℕ → Seed → Option ℕ
  draw_key zero seed = none
  draw_key (suc fuel) seed =
      let (key, seed') = library.rand seed in
      let rest = draw_key fuel seed' in if key == 0 then rest else some key

  module _ (config : OptionsConfig) where
    -- After the address and the port: the key.
    unfoldable pub key_into :
        ℕ
        → Ptr
        → RmwInitOptions
        → OptionsStore
        → Option ℕ
        → Option (RmwRet × RmwInitOptions × OptionsStore)
    key_into fuel x o s none = none
    key_into fuel x o s (some key) =
        some (ret_ok, o, set_params x (record (s.options.at x) { client_key = key }) s)

    -- With an item: the default address and port, if they are not too long, and the key.
    unfoldable pub init_item :
        ℕ
        → ℕ
        → Ptr
        → RmwInitOptions
        → OptionsStore
        → Option (RmwRet × RmwInitOptions × OptionsStore)
    unfolding key_into draw_key
    init_item fuel nanos x o s =
        let s₁ = set_address x (stored config.max_ip_len config.default_ip) s in
        let s₂ = set_port x (stored config.max_port_len config.default_port) s₁ in
        if leb (length config.default_ip) config.max_ip_len
        then if leb (length config.default_port) config.max_port_len
          then key_into fuel x o s₂ (draw_key fuel (library.srand nanos))
          else some (ret_invalid_argument, o, s₁)
        else some (ret_invalid_argument, o, s)

    -- With what `get_memory` answered.
    unfoldable pub init_memory_node :
        ℕ
        → ℕ
        → RmwInitOptions
        → OptionsStore
        → Option Ptr × Pool.Pool
        → Option (RmwRet × RmwInitOptions × OptionsStore)
    unfolding init_item
    init_memory_node fuel nanos o s (none, memory) = some (ret_error, o, s)
    init_memory_node fuel nanos o s (some x, memory) =
        init_item fuel nanos x (record o { impl = x })
          (record s { options = with_memory memory s.options })

    -- `rmw_init_options_init`: the options, whether the allocator is valid, and the clock. `none`
    -- is a key that was not found within the number of draws.
    unfoldable pub rmw_init_options_init :
        ℕ
        → ℕ
        → RmwInitOptions
        → Bool
        → OptionsStore
        → Option (RmwRet × RmwInitOptions × OptionsStore)
    unfolding init_memory_node
    rmw_init_options_init fuel nanos o allocator s =
        let described : RmwInitOptions = record {
          instance_id = 0;
          implementation_identifier = some eprosima_microxrcedds_identifier;
          allocator = allocator;
          enclave = 47 ∷ [];
          domain_id = 0;
          impl = o.impl;
        } in
        let memory = init_pool s.is_initialized config.custom_init_options s.options.memory in
        let ready : OptionsStore = record {
          is_initialized = true;
          options = with_memory memory s.options;
        } in
        if allocator && is_null o.implementation_identifier
        then init_memory_node fuel nanos described ready (Pool.get memory)
        else some (ret_invalid_argument, o, s)

-- `rmw_init_options_copy` with what `get_memory` answered, after `memcpy`.
unfoldable pub copy_params :
    RmwInitOptions → OptionsStore → Option Ptr × Pool.Pool → RmwRet × RmwInitOptions × OptionsStore
copy_params src s (none, memory) = (ret_error, src, s)
copy_params src s (some x, memory) = (
  ret_ok,
  record src { impl = x },
  set_params x (s.options.at src.impl) (record s { options = with_memory memory s.options }),
)

-- `rmw_init_options_copy`: the answer, and what `dst` is after it.
unfoldable pub rmw_init_options_copy :
    RmwInitOptions → RmwInitOptions → OptionsStore → RmwRet × RmwInitOptions × OptionsStore
unfolding copy_params
rmw_init_options_copy src dst s =
    if identifiers_match src.implementation_identifier
    then if is_null dst.implementation_identifier
      then copy_params src s (Pool.get s.options.memory)
      else (ret_invalid_argument, dst, s)
    else (ret_incorrect_rmw_implementation, dst, s)

-- `rmw_init_options_fini`
unfoldable pub rmw_init_options_fini :
    RmwInitOptions → OptionsStore → RmwRet × RmwInitOptions × OptionsStore
rmw_init_options_fini o s =
    if not o.allocator
    then (ret_invalid_argument, o, s)
    else if not (identifiers_match o.implementation_identifier)
    then (ret_incorrect_rmw_implementation, o, s)
    else if has o.impl s.options.memory.allocated
    then (
      ret_ok,
      zero_options,
      record s { options = with_memory (Pool.put o.impl s.options.memory) s.options },
    )
    else (ret_error, o, s)
