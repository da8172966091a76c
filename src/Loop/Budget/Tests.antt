-- ===== src/Loop/Budget/Tests.antt =====
-- Checks of a budget whose cost is used up.
use brain.Prelude.{◌≡◌, refl, none, some, [], ◌∷◌}
use brain.Prelude.Int.{pos}
use brain.Loop.Budget.{Budget, check_turn, remaining}
use brain.Loop.Tests.{cents, some_budget}
use brain.Errors.Codes

-- The same with no limit on the cost.
abbrev uncapped : Budget cents
uncapped = record some_budget { max_cost_usd = pos 0 }

capped_and_not :
    check_turn cents (some some_budget) ∷ check_turn cents (some uncapped) ∷ []
    ≡ some Codes.budget_cost_exhausted ∷ none ∷ []
unfolding check_turn
capped_and_not = refl

three_left : (remaining cents (some uncapped)).turns_remaining ≡ pos 3
unfolding remaining
three_left = refl
