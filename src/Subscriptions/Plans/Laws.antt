-- ===== src/Subscriptions/Plans/Laws.antt =====
-- How the limits follow the order of the plans.
use wash_flow.Prelude.{ℕ, ◌+◌, ◌≡◌, ◌≢◌, Bool, true, false, Option, none, some, leb, arith}
use wash_flow.Subscriptions.Plans.{
  PlanTier, trial, ResourceKey, is_downgrade, calculate_effective_limit,
}

-- One limit is no lower than another, where none is unlimited.
abbrev pub is_no_lower : Option ℕ → Option ℕ → Bool
is_no_lower none old = true
is_no_lower (some new) none = false
is_no_lower (some new) (some old) = leb old new

-- From one paid plan to another, with at least the add-ons of before, a change that is no downgrade
-- lowers no limit.
calculate_effective_limit-is_downgrade :
    (old new : PlanTier) (resource : ResourceKey) (quantity more : ℕ)
    → old ≢ trial
    → is_downgrade old new ≡ false
    → is_no_lower
        (calculate_effective_limit new resource (quantity + more))
        (calculate_effective_limit old resource quantity)
      ≡ true
unfolding is_downgrade calculate_effective_limit
calculate_effective_limit-is_downgrade old new resource quantity more paid up = ground arith
