-- ===== src/Options/Setters.antt =====
-- The setters of rmw_microros/init_options.c (rmw_microxrcedds_c/src), in the build with
-- RMW_UXRCE_TRANSPORT_UDP, that of the serial device in that with RMW_UXRCE_TRANSPORT_SERIAL.
use rmw_microxrcedds.Prelude.{ℕ, Option, none, some, List, ◌∷◌, length, leb, if◌then◌else◌}
use rmw_microxrcedds.Types.{Ptr, RmwRet, ret_ok, ret_invalid_argument}
use rmw_microxrcedds.Options.{
  OptionsConfig, OptionsStore, RmwInitOptions, set_params, stored, set_address, set_port,
}

module _ (config : OptionsConfig) where
  -- A part of the setters: a text that is there and not too long, and the write.
  unfoldable pub set_text :
      ℕ
      → Option (List ℕ)
      → (List ℕ → OptionsStore → OptionsStore)
      → OptionsStore
      → RmwRet × OptionsStore
  set_text max none write s = (ret_invalid_argument, s)
  set_text max (some text) write s =
      if leb (length text) max
      then (ret_ok, write (stored max text) s)
      else (ret_invalid_argument, s)

  -- The port, unless the address was refused.
  unfoldable pub then_port : Option (List ℕ) → Ptr → RmwRet × OptionsStore → RmwRet × OptionsStore
  unfolding set_text
  then_port port x (ret_ok, s) = set_text config.max_port_len port (set_port x) s
  then_port port x (_, s) = (ret_invalid_argument, s)

  -- `rmw_uros_options_set_udp_address`; `none` is NULL.
  unfoldable pub rmw_uros_options_set_udp_address :
      Option (List ℕ)
      → Option (List ℕ)
      → Option RmwInitOptions
      → OptionsStore
      → RmwRet × OptionsStore
  unfolding then_port set_text
  rmw_uros_options_set_udp_address ip port none s = (ret_invalid_argument, s)
  rmw_uros_options_set_udp_address ip port (some o) s =
      then_port port o.impl (set_text config.max_ip_len ip (set_address o.impl) s)

  -- `rmw_uros_options_set_serial_device`
  unfoldable pub rmw_uros_options_set_serial_device :
      Option (List ℕ) → Option RmwInitOptions → OptionsStore → RmwRet × OptionsStore
  unfolding set_text
  rmw_uros_options_set_serial_device dev none s = (ret_invalid_argument, s)
  rmw_uros_options_set_serial_device dev (some o) s =
      set_text config.max_serial_device dev
        (λ text s. set_params o.impl (record (s.options.at o.impl) { serial_device = text }) s) s

  -- `rmw_uros_init_options`, with the arguments of the program.
  unfoldable pub rmw_uros_init_options :
      List (List ℕ) → Option RmwInitOptions → OptionsStore → RmwRet × OptionsStore
  rmw_uros_init_options argv none s = (ret_invalid_argument, s)
  rmw_uros_init_options (program ∷ ip ∷ port ∷ rest) (some o) s = (
    ret_ok,
    set_port o.impl (stored config.max_port_len port)
        (set_address o.impl (stored config.max_ip_len ip) s),
  )
  rmw_uros_init_options _ (some o) s = (ret_invalid_argument, s)

-- `rmw_uros_options_set_client_key`
unfoldable pub rmw_uros_options_set_client_key :
    ℕ → Option RmwInitOptions → OptionsStore → RmwRet × OptionsStore
rmw_uros_options_set_client_key client_key none s = (ret_invalid_argument, s)
rmw_uros_options_set_client_key client_key (some o) s =
    (ret_ok, set_params o.impl (record (s.options.at o.impl) { client_key = client_key }) s)
