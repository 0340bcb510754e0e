-- ===== src/Options/Tests.antt =====
-- The theorems on init options, at two items.
use rmw_microxrcedds.Prelude.{ℕ, ◌+◌, ◌<◌, ◌≡◌, ◌↔◌, refl, true, some, List, [], ◌∷◌, arith}
use rmw_microxrcedds.Pool
use rmw_microxrcedds.Types.{Ptr, ret_ok, ret_error}
use rmw_microxrcedds.Identifiers.{identifiers_match, eprosima_microxrcedds_identifier}
use rmw_microxrcedds.Samples.Network.{pool}
use rmw_microxrcedds.Session.{init_pool}
use rmw_microxrcedds.Options.{
  TransportParams, OptionsConfig, OptionsStore, RmwInitOptions, RandLibrary, zero_options,
  rmw_init_options_init, rmw_init_options_copy, rmw_init_options_fini,
}
use rmw_microxrcedds.Options.Setters.{rmw_uros_options_set_udp_address}
use rmw_microxrcedds.Options.Key.{Returns, Stocked, nth_key, rmw_init_options_init-Returns}
use rmw_microxrcedds.Options.Life.{rmw_init_options_copy_shares}
use rmw_microxrcedds.Options.Bounds.{set_udp_address_whole_iff}

abbrev config : OptionsConfig
config = record {
  default_ip = 49 ∷ [];
  default_port = 56 ∷ [];
  max_ip_len = 2;
  max_port_len = 2;
  max_serial_device = 2;
  custom_init_options = 80 ∷ 81 ∷ [];
}

abbrev params : TransportParams
params = record { agent_address = []; agent_port = []; serial_device = []; client_key = 9 }

abbrev store : List Ptr → List Ptr → OptionsStore
store allocated free = record {
  is_initialized = true;
  options = record { memory = pool allocated free; at = λ x. params };
}

abbrev used : RmwInitOptions
used = record zero_options {
  implementation_identifier = some eprosima_microxrcedds_identifier;
  allocator = true;
  impl = 80;
}

used_match : identifiers_match used.implementation_identifier ≡ true
unfolding identifiers_match
used_match = refl

rmw_init_options_copy_shares_example :
    let s = store (80 ∷ []) [] in
    let (copied, dst, s₁) = rmw_init_options_copy used zero_options s in
    let (end, last, s₂) = rmw_init_options_fini dst s₁ in
    (copied ≡ ret_error)
    × (dst.impl ≡ 80)
    × (end ≡ ret_ok)
    × (s₂.options.memory ≡ Pool.put 80 s.options.memory)
rmw_init_options_copy_shares_example =
    rmw_init_options_copy_shares used (store (80 ∷ []) []) used_match refl refl refl

-- An address of two bytes and a port of one, with room for two: the address loses a byte.
set_udp_address_whole_iff_example :
    let s = store (80 ∷ []) [] in
    let (ret, end) =
      rmw_uros_options_set_udp_address config
        (some (49 ∷ 50 ∷ []))
        (some (56 ∷ []))
        (some used)
        s in
    (ret ≡ ret_ok)
    × (((end.options.at 80).agent_address ≡ 49 ∷ 50 ∷ []) ↔ (2 < 2))
    × (((end.options.at 80).agent_port ≡ 56 ∷ []) ↔ (1 < 2))
set_udp_address_whole_iff_example =
    set_udp_address_whole_iff config (49 ∷ 50 ∷ []) (56 ∷ []) used (store (80 ∷ []) [])
      (omega arith) (omega arith) (omega arith) (omega arith)

-- The clock is the seed, and the numbers count up from it.
abbrev counter : RandLibrary ℕ
counter = record { srand = λ nanos. nanos; rand = λ seed. (seed, seed + 1) }

second_is_one : nth_key counter 1 0 ≡ 1
unfolding nth_key
second_is_one = refl

rmw_init_options_init-Returns_example :
    Returns counter config 1 0
      ((true ≡ true) × Stocked counter config (some 81))
      (rmw_init_options_init counter config 2 0 zero_options true (store [] (81 ∷ 80 ∷ [])))
unfolding Pool.get init_pool
rmw_init_options_init-Returns_example =
    rmw_init_options_init-Returns counter config 1 2 0 zero_options true (store [] (81 ∷ 80 ∷ []))
      (λ z. absurd (ground (arith, second_is_one, z))) (omega arith)
