-- ===== src/Hub/Store/Calls/Pages.antt =====
-- pkg/hub/store.go: the pages of Messages.
use mathlib.Core.List.{Perm}
use midas.Common.{ℕ, ◌≡◌, List, ◌++◌, length, min}
use midas.Common.Sort.{IsSorted}
use midas.Common.Text.{Text}
use midas.Hub.{Message}
use midas.Hub.Store.{Store}
use midas.Hub.Store.Threads.{is_no_newer}

-- A page of the messages `found`: with older ones before it, it is all of them sorted by their
-- times, and it has as many of them as the limit allows.
abbrev pub IsPage : List Message → ℕ → List Message → Type 0
IsPage found limit page =
    (older : List Message) × Perm (older ++ page) found
    × IsSorted is_no_newer (older ++ page)
    × (length page ≡ min limit (length (older ++ page)))
