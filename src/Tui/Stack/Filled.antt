-- ===== src/Tui/Stack/Filled.antt =====
-- internal/tui/stack.go: the rounds of distributeStackSizes and what they leave.
use midas.Common.{ℕ, ◌+◌, ◌≤◌, ◌≡◌, Bool, true, false, List, ◌⊎◌}
use midas.Tui.Stack.{Slot, Share, has_candidate, total}

-- What a change of the sizes leaves of an amount that was to be placed.
abbrev IsPlaced : Bool → List Slot → ℕ → List Slot → ℕ → Type 0
IsPlaced true ss amount ts rest = (total ts + rest ≡ total ss + amount) × (rest ≤ amount)
IsPlaced false ss amount ts rest = (total ts + amount ≡ total ss + rest) × (rest ≤ amount)

-- The sizes fill the space; or they leave some of it and no entry that may grow is below its
-- maximum; or they exceed it and no entry that may shrink is above its minimum.
abbrev pub IsFilled : Share → ℕ → List Slot → Type 0
IsFilled share content ss =
    (total ss ≡ content)
    ⊎ ((total ss ≤ content) × (has_candidate share true ss ≡ false))
    ⊎ ((content ≤ total ss) × (has_candidate share false ss ≡ false))
