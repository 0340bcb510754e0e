-- ===== src/Options/Bounds.antt =====
-- The lengths of the address and the port in the options (rmw_microros/init_options.c of
-- rmw_microxrcedds_c/src).
use rmw_microxrcedds.Prelude.{
  ℕ, zero, suc, ◌-◌, ◌<◌, ◌≤◌, ◌≡◌, ◌↔◌, refl, ap, true, some, List, [], ◌∷◌, length, take, leb,
  arith, ==_self,
}
use rmw_microxrcedds.Types.{ret_ok}
use rmw_microxrcedds.Names.Complete.{take-most}
use rmw_microxrcedds.Options.{OptionsConfig, OptionsStore, RmwInitOptions, set_address, set_port}
use rmw_microxrcedds.Options.Setters.{set_text, then_port, rmw_uros_options_set_udp_address}

length-take_le : (n : ℕ) (xs : List ℕ) → length (take n xs) ≤ n
length-take_le zero xs = omega arith
length-take_le (suc n) [] = omega arith
length-take_le (suc n) (x ∷ xs) = omega (arith, length-take_le n xs)

-- A text in a buffer of `size` bytes is whole exactly when it is shorter.
whole_iff :
    (size : ℕ) (text : List ℕ) → 0 < size → (take (size - 1) text ≡ text) ↔ (length text < size)
whole_iff size text h = (
  λ e. let l = ap (λ (t : List ℕ). length t) e in omega (arith, length-take_le (size - 1) text),
  λ l. take-most (size - 1) text (omega arith),
)

set_text_ok :
    (config : OptionsConfig) (max : ℕ) (text : List ℕ)
    (write : List ℕ → OptionsStore → OptionsStore) (s : OptionsStore)
    → length text ≤ max
    → set_text config max (some text) write s ≡ (ret_ok, write (take (max - 1) text) s)
unfolding set_text
set_text_ok config max text write s h =
    let allowed : leb (length text) max ≡ true = ground arith in rw allowed refl

-- If the address and the port are not longer than MAX_IP_LEN and MAX_PORT_LEN, which are not 0,
-- `rmw_uros_options_set_udp_address` answers RMW_RET_OK. Each of them is whole in the options
-- exactly when it is shorter than its limit: a text of the limit's length loses its last byte.
pub set_udp_address_whole_iff :
    (config : OptionsConfig) (ip port : List ℕ) (o : RmwInitOptions) (s : OptionsStore)
    → 0 < config.max_ip_len
    → 0 < config.max_port_len
    → length ip ≤ config.max_ip_len
    → length port ≤ config.max_port_len
    → let (ret, end) = rmw_uros_options_set_udp_address config (some ip) (some port) (some o) s in
      (ret ≡ ret_ok)
      × (((end.options.at o.impl).agent_address ≡ ip) ↔ (length ip < config.max_ip_len))
      × (((end.options.at o.impl).agent_port ≡ port) ↔ (length port < config.max_port_len))
unfolding rmw_uros_options_set_udp_address then_port
set_udp_address_whole_iff config ip port o s h k short_ip short_port =
    let ip_set = set_text_ok config config.max_ip_len ip (set_address o.impl) s short_ip in
    let s₁ = set_address o.impl (take (config.max_ip_len - 1) ip) s in
    let port_set = set_text_ok config config.max_port_len port (set_port o.impl) s₁ short_port in
    rw (ip_set, port_set, ==_self o.impl)
      (refl, whole_iff config.max_ip_len ip h, whole_iff config.max_port_len port k)
