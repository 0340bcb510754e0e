-- ===== src/Options/Life.antt =====
-- Copies of init options and their end (rmw_init.c of rmw_microxrcedds_c/src).
use rmw_microxrcedds.Prelude.{
  ℕ, ◌≡◌, refl, sym, ap, ◌∙◌, Bool, true, false, not, some, List, [], ◌∷◌, has, arith, ◌==◌,
  ==_self, if◌then◌else◌,
}
use rmw_microxrcedds.Pool
use rmw_microxrcedds.Types.{
  Ptr, RmwRet, ret_ok, ret_error, ret_invalid_argument, ret_incorrect_rmw_implementation,
}
use rmw_microxrcedds.Identifiers.{identifiers_match}
use rmw_microxrcedds.Entity.{with_memory}
use rmw_microxrcedds.Entity.Claim.{put-take}
use rmw_microxrcedds.Options.{
  OptionsStore, RmwInitOptions, zero_options, set_params, copy_params, rmw_init_options_copy,
  rmw_init_options_fini,
}
use rmw_microxrcedds.Options.Setters.{rmw_uros_options_set_client_key}

-- `rmw_init_options_copy` with a list of free items.
copy_with :
    (src : RmwInitOptions) (s : OptionsStore) (free : List Ptr)
    → identifiers_match src.implementation_identifier ≡ true
    → s.options.memory.free ≡ free
    → rmw_init_options_copy src zero_options s
      ≡ copy_params src s (Pool.take s.options.memory.allocated free)
unfolding rmw_init_options_copy Pool.get
copy_with src s free valid e =
    ap
      (λ (b : Bool).
        if b
        then copy_params src s (Pool.get s.options.memory)
        else (ret_incorrect_rmw_implementation, zero_options, s))
      valid
    ∙ ap (λ (l : List Ptr). copy_params src s (Pool.take s.options.memory.allocated l)) e

-- `rmw_init_options_fini` of options whose item is allocated.
fini_with :
    (o : RmwInitOptions) (s : OptionsStore)
    → identifiers_match o.implementation_identifier ≡ true
    → o.allocator ≡ true
    → has o.impl s.options.memory.allocated ≡ true
    → rmw_init_options_fini o s ≡ (
      ret_ok,
      zero_options,
      record s { options = with_memory (Pool.put o.impl s.options.memory) s.options },
    )
unfolding rmw_init_options_fini
fini_with o s valid allocator used =
    let done : RmwRet × RmwInitOptions × OptionsStore = (
      ret_ok,
      zero_options,
      record s { options = with_memory (Pool.put o.impl s.options.memory) s.options },
    ) in
    let found = has o.impl s.options.memory.allocated in
    let search = if found then done else (ret_error, o, s) in
    ap
      (λ (b : Bool).
        if not b
        then (ret_invalid_argument, o, s)
        else if not (identifiers_match o.implementation_identifier)
        then (ret_incorrect_rmw_implementation, o, s)
        else search)
      allocator
    ∙ ap (λ (b : Bool). if not b then (ret_incorrect_rmw_implementation, o, s) else search) valid
    ∙ ap (λ (b : Bool). if b then done else (ret_error, o, s)) used

-- With a free item, `rmw_init_options_copy` of options of this implementation, with a valid
-- allocator, into zero-initialized ones answers RMW_RET_OK. The copy has the first free item with
-- the parameters of the source. Setting the copy's client key does not change the source's
-- parameters, if its item is another. Then `rmw_init_options_fini` of the copy answers RMW_RET_OK,
-- leaves it zero-initialized, and the pool as it was.
pub rmw_init_options_copy_life :
    (src : RmwInitOptions) (s : OptionsStore) (y : Ptr) (ys : List Ptr) (key : ℕ)
    → identifiers_match src.implementation_identifier ≡ true
    → src.allocator ≡ true
    → s.options.memory.free ≡ y ∷ ys
    → (src.impl == y) ≡ false
    → let (copied, dst, s₁) = rmw_init_options_copy src zero_options s in
      let (keyed, s₂) = rmw_uros_options_set_client_key key (some dst) s₁ in
      let (end, last, s₃) = rmw_init_options_fini dst s₂ in
      (copied ≡ ret_ok)
      × (dst.impl ≡ y)
      × (s₁.options.at y ≡ s.options.at src.impl)
      × (keyed ≡ ret_ok)
      × (s₂.options.at src.impl ≡ s.options.at src.impl)
      × ((s₂.options.at y).client_key ≡ key)
      × (end ≡ ret_ok)
      × (last ≡ zero_options)
      × (s₃.options.memory ≡ s.options.memory)
unfolding copy_params rmw_uros_options_set_client_key Pool.take
rmw_init_options_copy_life src s y ys key valid allocator free other =
    let copied = copy_with src s (y ∷ ys) valid free in
    let dst : RmwInitOptions = record src { impl = y } in
    let s₁ = set_params y (s.options.at src.impl) (record s {
      options =
          with_memory (record { allocated = y ∷ s.options.memory.allocated; free = ys }) s.options;
    }) in
    let s₂ = set_params y (record (s₁.options.at y) { client_key = key }) s₁ in
    rw (copied, fini_with dst s₂ valid allocator (ground (arith, ==_self y)))
      (
        refl,
        refl,
        rw (==_self y) refl,
        refl,
        rw other refl,
        rw (==_self y) refl,
        refl,
        refl,
        put-take s.options.memory.allocated ys y
            ∙ ap (λ (l : List Ptr). record { allocated = s.options.memory.allocated; free = l })
                (sym free),
      )

-- Without a free item, `rmw_init_options_copy` answers RMW_RET_ERROR, but the destination shares
-- the item of the source: `rmw_init_options_fini` of the destination then answers RMW_RET_OK and
-- puts back the item of the source, if that is allocated.
pub rmw_init_options_copy_shares :
    (src : RmwInitOptions) (s : OptionsStore)
    → identifiers_match src.implementation_identifier ≡ true
    → src.allocator ≡ true
    → s.options.memory.free ≡ []
    → has src.impl s.options.memory.allocated ≡ true
    → let (copied, dst, s₁) = rmw_init_options_copy src zero_options s in
      let (end, last, s₂) = rmw_init_options_fini dst s₁ in
      (copied ≡ ret_error)
      × (dst.impl ≡ src.impl)
      × (end ≡ ret_ok)
      × (s₂.options.memory ≡ Pool.put src.impl s.options.memory)
unfolding copy_params Pool.take
rmw_init_options_copy_shares src s valid allocator free used =
    rw (copy_with src s [] valid free, fini_with src s valid allocator used)
      (refl, refl, refl, refl)
