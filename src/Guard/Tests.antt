-- ===== src/Guard/Tests.antt =====
-- The theorem on guard conditions with one free item.
use rmw_microxrcedds.Prelude.{◌≡◌, refl, true, false, none, some, [], ◌∷◌, ◌==◌}
use rmw_microxrcedds.Types.{Ptr, ret_ok}
use rmw_microxrcedds.Guard.{
  Guards, rmw_create_guard_condition, rmw_trigger_guard_condition, rmw_destroy_guard_condition,
}
use rmw_microxrcedds.Guard.Life.{guard_condition_life}

abbrev guards : Guards
guards = record {
  memory = record { allocated = 81 ∷ []; free = 80 ∷ [] };
  at = λ x. record {
    has_triggered = true;
    context = 0;
    implementation_identifier = none;
    contents = 0;
  };
}

guard_condition_life_example :
    let (item, g₁) = rmw_create_guard_condition 10 guards in
    let (ret, g₂) = rmw_trigger_guard_condition item g₁ in
    let (end, g₃) = rmw_destroy_guard_condition 80 g₂ in
    (item ≡ some 80)
    × ((g₁.at 80).has_triggered ≡ false)
    × (ret ≡ ret_ok)
    × ((g₂.at 80).has_triggered ≡ true)
    × ((y : Ptr) → (y == 80) ≡ false → g₂.at y ≡ guards.at y)
    × (end ≡ ret_ok)
    × (g₃.memory ≡ guards.memory)
guard_condition_life_example = guard_condition_life 10 80 [] guards refl
