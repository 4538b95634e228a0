-- ===== src/Tui/Stack/Children.antt =====
-- internal/tui/stack.go and container.go: the children of a stack, and the entry of each.
use midas.Common.{Bool, Option, none, some, List, [], ◌∷◌, ◌++◌, ℕ, if◌then◌else◌}
use midas.Common.Int.{ℤ, pos_part}
use midas.Tui.Stack.{StackEntryOptions, StackLayoutEntry, normalize_stack_entry}

pub data StackAlignment : Type 0 where
  stretch start center end : StackAlignment

-- Stack; a component is a number, and whether two are the same one is an argument.
pub record Stack : Type 0 where
  pub children : List ℕ
  pub entries : List StackLayoutEntry
  pub gap : ℕ
  pub align : StackAlignment

abbrev no_options : StackEntryOptions
no_options = record {
  basis = none;
  grow = none;
  shrink = none;
  min_size = none;
  max_size = none;
  visible = none;
}

abbrev first_options : List StackEntryOptions → StackEntryOptions
first_options [] = no_options
first_options (o ∷ _) = o

-- AddChild
unfoldable pub add_child : ℕ → List StackEntryOptions → Stack → Stack
unfolding normalize_stack_entry
add_child component options s = record s {
  children = s.children ++ component ∷ [];
  entries = s.entries ++ normalize_stack_entry component (first_options options) ∷ [];
}

unfoldable pub add_children : List (ℕ × StackEntryOptions) → Stack → Stack
unfolding add_child
add_children [] s = s
add_children (c ∷ cs) s = add_children cs (add_child c.0 (c.1 ∷ []) s)

abbrev or_stretch : Option StackAlignment → StackAlignment
or_stretch none = stretch
or_stretch (some a) = a

-- newStack; an alignment that is not given is `none`.
unfoldable pub new_stack : ℤ → Option StackAlignment → List (ℕ × StackEntryOptions) → Stack
unfolding add_children
new_stack gap align cs =
    add_children cs
      (record { children = []; entries = []; gap = pos_part gap; align = or_stretch align })

module _ (same : ℕ → ℕ → Bool) where
  -- Container.RemoveChild
  abbrev pub remove_first : List ℕ → ℕ → List ℕ
  remove_first [] component = []
  remove_first (c ∷ cs) component =
      let rest = remove_first cs component in if same c component then cs else c ∷ rest

  abbrev pub remove_entry : List StackLayoutEntry → ℕ → List StackLayoutEntry
  remove_entry [] component = []
  remove_entry (e ∷ es) component =
      let rest = remove_entry es component in if same e.component component then es else e ∷ rest

  -- RemoveChild
  unfoldable pub remove_child : ℕ → Stack → Stack
  remove_child component s = record s {
    children = remove_first s.children component;
    entries = remove_entry s.entries component;
  }

-- Clear
unfoldable pub clear : Stack → Stack
clear s = record s { children = []; entries = [] }
