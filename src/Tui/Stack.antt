-- ===== src/Tui/Stack.antt =====
-- internal/tui/stack.go: the sizes of a stack's children along its main axis. A share of the space
-- that is left over is computed with floating point numbers, so it is an argument.
pub mod Children
pub mod Bounds
pub mod Filled
use midas.Common.{
  ℕ, suc, zero, ◌+◌, ◌-◌, ◌*◌, min, max, Bool, true, false, not, ◌&&◌, ◌||◌, Option, none, some,
  List, [], ◌∷◌, if◌then◌else◌, ltb, ◌==◌, length, map,
}
use midas.Common.Int.{ℤ, pos, pos_part}

abbrev pub max_safe_integer : ℕ
max_safe_integer = 9007199254740991

-- LayoutViewport
pub record Viewport : Type 0 where
  pub width : ℕ
  pub height : ℕ

-- StackEntryOptions; a visibility that is not given is `none`.
pub record StackEntryOptions : Type 0 where
  pub basis : Option ℤ
  pub grow : Option ℤ
  pub shrink : Option ℤ
  pub min_size : Option ℤ
  pub max_size : Option ℤ
  pub visible : Option (Viewport → Bool)

-- StackLayoutEntry, as normalizeStackEntry leaves it: its numbers are not negative. The component is
-- a number that tells it from the others.
pub record StackLayoutEntry : Type 0 where
  pub component : ℕ
  pub basis : Option ℕ
  pub grow : Option ℕ
  pub shrink : Option ℕ
  pub min_size : Option ℕ
  pub max_size : Option ℕ
  pub visible : Option (Viewport → Bool)

-- copyNormalized
unfoldable pub copy_normalized : Option ℤ → Option ℕ
copy_normalized none = none
copy_normalized (some v) = some (pos_part v)

-- normalizeStackEntry
unfoldable pub normalize_stack_entry : ℕ → StackEntryOptions → StackLayoutEntry
unfolding copy_normalized
normalize_stack_entry component o = record {
  component = component;
  basis = copy_normalized o.basis;
  grow = copy_normalized o.grow;
  shrink = copy_normalized o.shrink;
  min_size = copy_normalized o.min_size;
  max_size = copy_normalized o.max_size;
  visible = o.visible;
}

abbrev pub is_visible : Viewport → Option (Viewport → Bool) → Bool
is_visible viewport none = true
is_visible viewport (some f) = f viewport

-- VisibleStackEntries
unfoldable pub visible_stack_entries : List StackLayoutEntry → Viewport → List StackLayoutEntry
visible_stack_entries [] viewport = []
visible_stack_entries (e ∷ es) viewport =
    let rest = visible_stack_entries es viewport in
    if is_visible viewport e.visible then e ∷ rest else rest

-- stackValue
abbrev pub stack_value : Option ℕ → ℕ → ℕ
stack_value none fallback = fallback
stack_value (some v) fallback = v

abbrev pub minimum : StackLayoutEntry → ℕ
minimum e = stack_value e.min_size 0

abbrev pub maximum : StackLayoutEntry → ℕ
maximum e = stack_value e.max_size max_safe_integer

-- clampStackSize
unfoldable pub clamp_stack_size : ℤ → StackLayoutEntry → ℕ
clamp_stack_size size e = max (minimum e) (min (max (minimum e) (maximum e)) (pos_part size))

-- An entry with its size.
pub record Slot : Type 0 where
  pub entry : StackLayoutEntry
  pub size : ℕ

-- The conditions on an entry that takes part in a round, its weight, and what it can take or give.
abbrev pub is_candidate : Bool → Slot → Bool
is_candidate true s = ltb 0 (stack_value s.entry.grow 0) && ltb s.size (maximum s.entry)
is_candidate false s = ltb 0 (stack_value s.entry.shrink 1) && ltb (minimum s.entry) s.size

abbrev pub weight : Bool → Slot → ℕ
weight true s = stack_value s.entry.grow 0
weight false s = stack_value s.entry.shrink 1 * max 1 s.size

abbrev pub capacity : Bool → Slot → ℕ
capacity true s = maximum s.entry - s.size
capacity false s = s.size - minimum s.entry

abbrev pub resize : Bool → ℕ → Slot → Slot
resize true delta s = record s { size = s.size + delta }
resize false delta s = record s { size = s.size - delta }

-- The weights of the candidates of a round.
abbrev pub weights : Bool → List Slot → List ℕ
weights grow [] = []
weights grow (s ∷ ss) =
    let rest = weights grow ss in if is_candidate grow s then weight grow s ∷ rest else rest

-- The share of what remains for a weight among the weights.
abbrev pub Share : Type 0
Share = ℕ → ℕ → List ℕ → ℕ

module _ (share : Share) (grow : Bool) where
  abbrev pub delta : List ℕ → ℕ → Slot → ℕ
  delta ws remaining s =
      min remaining (min (max 1 (share remaining (weight grow s) ws)) (capacity grow s))

  -- One round: the slots, and what remains.
  unfoldable pub round : List ℕ → ℕ → List Slot → List Slot × ℕ
  round ws remaining [] = ([], remaining)
  round ws remaining (s ∷ ss) =
      let d = delta ws remaining s in
      let taken = round ws (remaining - d) ss in
      let passed = round ws remaining ss in
      if is_candidate grow s && ltb 0 remaining
      then (resize grow d s ∷ taken.0, taken.1)
      else (s ∷ passed.0, passed.1)

  abbrev pub has_candidate : List Slot → Bool
  has_candidate [] = false
  has_candidate (s ∷ ss) = is_candidate grow s || has_candidate ss

  -- distributeStackSizes, with as many rounds as its fuel: the slots, and what could not be placed.
  unfoldable pub distribute : ℕ → ℕ → List Slot → List Slot × ℕ
  unfolding round
  distribute zero remaining ss = (ss, remaining)
  distribute (suc k) remaining ss =
      let r = round (weights grow ss) remaining ss in
      let rest = distribute k r.1 r.0 in
      if remaining == 0 || not (has_candidate ss)
      then (ss, remaining)
      else if r.1 == remaining
      then r
      else rest

abbrev pub total : List Slot → ℕ
total [] = 0
total (s ∷ ss) = s.size + total ss

-- The size that an entry asks for: its basis, else the intrinsic size of its component.
abbrev pub asked : Option ℕ → List ℤ → ℤ
asked (some basis) _ = pos basis
asked none [] = pos 0
asked none (i ∷ _) = i

abbrev pub tail : List ℤ → List ℤ
tail [] = []
tail (_ ∷ is) = is

unfoldable pub initial_slots : List StackLayoutEntry → List ℤ → List Slot
unfolding clamp_stack_size
initial_slots [] intrinsic = []
initial_slots (e ∷ es) intrinsic =
    record { entry = e; size = clamp_stack_size (asked e.basis intrinsic) e }
    ∷ initial_slots es (tail intrinsic)

-- The space of the children, without the gaps between them.
abbrev pub content_size : ℤ → ℕ → ℕ → ℕ
content_size available count gap = pos_part available - (count - 1) * gap

-- AllocateStackSizes; the fuel is the amount to distribute.
unfoldable pub allocate : Share → List StackLayoutEntry → List ℤ → Option ℤ → ℕ → List Slot
unfolding initial_slots distribute
allocate share entries intrinsic none gap = initial_slots entries intrinsic
allocate share entries intrinsic (some available) gap =
    let ss = initial_slots entries intrinsic in
    let content = content_size available (length entries) gap in
    if ltb (total ss) content
    then (distribute share true (content - total ss) (content - total ss) ss).0
    else if ltb content (total ss)
    then (distribute share false (total ss - content) (total ss - content) ss).0
    else ss

unfoldable pub allocate_stack_sizes : Share → List StackLayoutEntry → List ℤ → Option ℤ → ℕ → List ℕ
unfolding allocate
allocate_stack_sizes share entries intrinsic available gap =
    map (λ s. s.size) (allocate share entries intrinsic available gap)
