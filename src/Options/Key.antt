-- ===== src/Options/Key.antt =====
-- The loop of `rmw_init_options_init` that draws the client's key (rmw_init.c of
-- rmw_microxrcedds_c/src).
use rmw_microxrcedds.Prelude.{
  ℕ, zero, suc, ◌≤◌, ◌<◌, ◌≡◌, ◌≢◌, ◌↔◌, refl, ap, inl, inr, Bool, true, false, Option, none, some,
  arith, ◌&&◌, [], ◌∷◌, length, leb, Bool-cases, ◌==◌, ==_self, if◌then◌else◌,
}
use rmw_microxrcedds.Pool
use rmw_microxrcedds.Pool.{Pool}
use rmw_microxrcedds.Entity.{with_memory}
use rmw_microxrcedds.Session.{init_pool}
use rmw_microxrcedds.Identifiers.{eprosima_microxrcedds_identifier}
use rmw_microxrcedds.Types.{Ptr, RmwRet, ret_ok, ret_error, ret_invalid_argument}
use rmw_microxrcedds.Options.{
  OptionsConfig, OptionsStore, RmwInitOptions, set_params, set_address, set_port, stored, is_null,
  RandLibrary, draw_key, key_into, init_item, init_memory_node, rmw_init_options_init,
}

module _ {Seed : Type 0} (library : RandLibrary Seed) where
  -- The numbers that `rand` gives one after the other.
  unfoldable pub nth_key : ℕ → Seed → ℕ
  nth_key zero seed = (library.rand seed).0
  nth_key (suc n) seed = nth_key n (library.rand seed).1

  -- The first number that is not 0, at the latest the one after `n` others.
  abbrev pub FirstKey : ℕ → Seed → ℕ → Type 0
  FirstKey n seed key =
      (i : ℕ) × (i ≤ n)
      × (key ≡ nth_key i seed)
      × (key ≢ 0)
      × ((j : ℕ) → j < i → nth_key j seed ≡ 0)

  FirstKey-suc :
      (n : ℕ) (seed : Seed) (key : ℕ)
      → (library.rand seed).0 ≡ 0
      → FirstKey n (library.rand seed).1 key
      → FirstKey (suc n) seed key
  unfolding nth_key
  FirstKey-suc n seed key skipped (i, late, found, set, before) =
      (suc i, omega arith, found, set, earlier)
    where
      earlier : (j : ℕ) → j < suc i → nth_key j seed ≡ 0
      earlier zero h = skipped
      earlier (suc j) h = before j (omega arith)

  FirstKey-rand :
      (n : ℕ) (seed : Seed) → (library.rand seed).0 ≢ 0 → FirstKey n seed (library.rand seed).0
  unfolding nth_key
  FirstKey-rand n seed set = (0, omega arith, refl, set, λ j k. absurd (omega arith))

  -- If one of the numbers that `rand` gives is not 0, the loop ends, at the latest with that draw,
  -- and the key is the first of them that is not 0.
  pub draw_key_ends :
      (n fuel : ℕ) (seed : Seed)
      → nth_key n seed ≢ 0
      → n < fuel
      → (key : ℕ) × (draw_key library fuel seed ≡ some key) × FirstKey n seed key
  unfolding draw_key nth_key
  draw_key_ends n zero seed other h = absurd (omega arith)
  draw_key_ends zero (suc fuel) seed other h =
      let draw = library.rand seed in
      let unequal : (draw.0 == 0) ≡ false = ground (arith, other) in
      (draw.0, rw unequal refl, FirstKey-rand zero seed other)
  draw_key_ends (suc n) (suc fuel) seed other h =
      let draw = library.rand seed in
      elim (Bool-cases (draw.0 == 0)) [
        | inr e ↦
            (draw.0, rw e refl, FirstKey-rand (suc n) seed (λ z. absurd (ground (arith, z, e))))
        | inl e ↦
            let (key, found, first) = draw_key_ends n fuel draw.1 other (omega arith) in
            (key, rw e found, FirstKey-suc n seed key (ground (arith, e)) first)
      ]

  module _ (config : OptionsConfig) where
    -- A result comes back. It is a success exactly when the call is good, and the key of the
    -- options' item is then the first number that is not 0.
    abbrev pub Returns :
        ℕ → Seed → Type 0 → Option (RmwRet × RmwInitOptions × OptionsStore) → Type 0
    Returns n seed Good r =
        (end : RmwRet × RmwInitOptions × OptionsStore) × (r ≡ some end)
        × ((end.0 ≡ ret_ok) ↔ Good)
        × (end.0 ≡ ret_ok → FirstKey n seed (end.2.options.at end.1.impl).client_key)

    not_ok :
        (n : ℕ) (seed : Seed) (Good : Type 0) (ret : RmwRet) (o : RmwInitOptions) (s : OptionsStore)
        → ret ≢ ret_ok
        → ¬ Good
        → Returns n seed Good (some (ret, o, s))
    not_ok n seed Good ret o s other bad =
        ((ret, o, s), refl, (λ h. absurd (other h), λ h. absurd (bad h)), λ h. absurd (other h))

    Returns-if :
        (n : ℕ) (seed : Seed) (Good : Type 0) (b : Bool)
        (x : Option (RmwRet × RmwInitOptions × OptionsStore)) (o : RmwInitOptions)
        (s : OptionsStore)
        → Returns n seed Good x
        → Returns n seed ((b ≡ true) × Good) (if b then x else some (ret_invalid_argument, o, s))
    Returns-if n seed Good true x o s (end, e, good, key) =
        (end, e, (λ h. (refl, good.0 h), λ h. good.1 h.1), key)
    Returns-if n seed Good false x o s h =
        not_ok n seed _ ret_invalid_argument o s (λ e. absurd (ground (arith, e)))
          (λ g. absurd (ground (arith, g.0)))

    key_into-Returns :
        (n : ℕ) (seed : Seed) (fuel : ℕ) (x : Ptr) (o : RmwInitOptions) (s : OptionsStore)
        (drawn : Option ℕ) (key : ℕ)
        → o.impl ≡ x
        → drawn ≡ some key
        → FirstKey n seed key
        → Returns n seed (Unit {0}) (key_into library config fuel x o s drawn)
    unfolding key_into
    key_into-Returns n seed fuel x o s drawn key at e first = (
      (ret_ok, o, set_params x (record (s.options.at x) { client_key = key }) s),
      ap (λ (k : Option ℕ). key_into library config fuel x o s k) e,
      (λ h. tt, λ h. refl),
      λ h. rw (at, ==_self x) first,
    )

    -- The default port is not too long.
    abbrev pub PortFits : Type 0
    PortFits = (leb (length config.default_port) config.max_port_len ≡ true) × Unit {0}

    -- The default address and port are not too long.
    abbrev pub DefaultsFit : Type 0
    DefaultsFit = (leb (length config.default_ip) config.max_ip_len ≡ true) × PortFits

    -- `get_memory` gave an item.
    abbrev pub HasItem : Option Ptr → Type 0
    HasItem got = (x : Ptr) × (got ≡ some x)

    -- What the call needs besides its arguments.
    abbrev pub Stocked : Option Ptr → Type 0
    Stocked got = HasItem got × DefaultsFit

    init_memory_node-Returns :
        (n fuel nanos : ℕ) (o : RmwInitOptions) (s : OptionsStore) (got : Option Ptr × Pool)
        → nth_key n (library.srand nanos) ≢ 0
        → n < fuel
        → Returns n
            (library.srand nanos)
            (Stocked got.0)
            (init_memory_node library config fuel nanos o s got)
    unfolding init_memory_node init_item
    init_memory_node-Returns n fuel nanos o s (none, memory) other h =
        not_ok n (library.srand nanos) _ ret_error o s (λ e. absurd (ground (arith, e)))
          (λ g. absurd (ground (arith, g.0.1)))
    init_memory_node-Returns n fuel nanos o s (some x, memory) other h =
        let seed = library.srand nanos in
        let (key, found, first) = draw_key_ends n fuel seed other h in
        let o' : RmwInitOptions = record o { impl = x } in
        let s₀ : OptionsStore = record s { options = with_memory memory s.options } in
        let s₁ = set_address x (stored config.max_ip_len config.default_ip) s₀ in
        let s₂ = set_port x (stored config.max_port_len config.default_port) s₁ in
        let (end, e, good, set) =
          Returns-if n seed _ (leb (length config.default_ip) config.max_ip_len) _ o' s₀ (
            Returns-if n seed _ (leb (length config.default_port) config.max_port_len) _ o' s₁ (
              key_into-Returns n seed fuel x o' s₂ (draw_key library fuel seed) key refl found
                first)) in
        (end, e, (λ h. ((x, refl), good.0 h), λ h. good.1 h.1), set)

    -- The pool of init options when an item is asked for.
    abbrev pub options_pool : OptionsStore → Pool
    options_pool s = init_pool s.is_initialized config.custom_init_options s.options.memory

    -- If one of the first numbers that the seeded `rand` gives is not 0, `rmw_init_options_init`
    -- returns, whatever its arguments and the pool are: more draws than there are numbers before
    -- that one are enough. It answers RMW_RET_OK exactly when the allocator is valid, the options
    -- are not initialised, an item is free, and the default address and port are not too long. The
    -- key of the options' item is then the first of the numbers that is not 0.
    pub rmw_init_options_init-Returns :
        (n fuel nanos : ℕ) (o : RmwInitOptions) (allocator : Bool) (s : OptionsStore)
        → nth_key n (library.srand nanos) ≢ 0
        → n < fuel
        → Returns n
            (library.srand nanos)
            (((allocator && is_null o.implementation_identifier) ≡ true)
              × Stocked (Pool.get (options_pool s)).0)
            (rmw_init_options_init library config fuel nanos o allocator s)
    unfolding rmw_init_options_init
    rmw_init_options_init-Returns n fuel nanos o allocator s other h =
        let described : RmwInitOptions = record {
          instance_id = 0;
          implementation_identifier = some eprosima_microxrcedds_identifier;
          allocator = allocator;
          enclave = 47 ∷ [];
          domain_id = 0;
          impl = o.impl;
        } in
        let ready : OptionsStore = record {
          is_initialized = true;
          options = with_memory (options_pool s) s.options;
        } in
        Returns-if n (library.srand nanos) _ (allocator && is_null o.implementation_identifier) _ o
          s
          (init_memory_node-Returns n fuel nanos described ready (Pool.get (options_pool s)) other
            h)
