-- ===== src/Tui/Examples.antt =====
-- internal/tui: the theorems and the definitions at concrete inputs.
use midas.Common.{
  ◌==◌, if◌then◌else◌, ℕ, ◌*◌, ◌/◌, max, Option, All, false, map, ◌++◌, ◌+◌, ◌≡◌, ◌⊎◌, refl, true,
  none, some, List, [], ◌∷◌, arith,
}
use midas.Common.Int.{pos, negsuc, pos_part, neg_part, wrap64, ◌+ℤ◌}
use midas.Common.Text.{Text, codes}
use midas.Common.Text.Find.{index_of}
use midas.Common.Text.Utf8.{rune_value}
use midas.Tui.Stack.Children.{Stack, new_stack, add_child, remove_child, clear}
use midas.Tui.Stack.{
  StackEntryOptions, StackLayoutEntry, Share, allocate, allocate_stack_sizes, clamp_stack_size,
  visible_stack_entries, normalize_stack_entry,
}
use midas.Tui.Stack.Bounds.{IsBounded, allocate-IsBounded}
use midas.Tui.StdinBuffer.{
  StdinBuffer, StdinBufferEvent, process_locked, flush_timer, discard_pending_events, dispatch,
  process, new_stdin_buffer,
}
use midas.Tui.StdinBuffer.Sequences.{extract, extract_all, kitty_printable}
use midas.Tui.StdinBuffer.Lossless.{IsCut, extract_all-IsCut}
use midas.Tui.StdinBuffer.Pastes.{
  IsOnePaste, pasting, process_all, pasted_as_one, process_locked_returns,
}
use midas.Tui.ScrollView.{
  ScrollViewOptions, ScrollView, new, auto, max_scroll_top, start_row, scroll_by, update_layout,
  mark_scrollbar_activity, request_render_now, hide_transient_scrollbar, timer_fires,
}
use midas.Tui.ScrollView.Valid.{IsValid}
use midas.Tui.ScrollView.Bounds.{Operation, lay_out, by_lines, fire, after, perform, IsValid-after}
use midas.Tui.ScrollView.Moves.{scroll_by_accounts}

abbrev options : ScrollViewOptions
options = record {
  follow_end = true;
  primary = true;
  overscroll = none;
  scrollbar = some auto;
  scrollbar_hide_delay = none;
}

abbrev operations : List Operation
operations =
    lay_out (pos 100) (pos 20) true
    ∷ by_lines (negsuc 4)
    ∷ fire 1
    ∷ lay_out (pos 110) (pos 20) true
    ∷ []

abbrev view : ScrollView
view = after operations (new options)

abbrev following : ScrollView
following = after (lay_out (pos 100) (pos 20) true ∷ []) (new options)

view_run : view.scroll_top ≡ 75
unfolding after perform new update_layout scroll_by mark_scrollbar_activity request_render_now
    hide_transient_scrollbar timer_fires wrap64 ◌+ℤ◌
view_run = refl

IsValid-after_example : IsValid (after operations (new options))
IsValid-after_example = IsValid-after options operations

scroll_by_accounts_example :
    (start_row following + 0 + neg_part (scroll_by (negsuc 99) following).1
      ≡ (scroll_by (negsuc 99) following).0.scroll_top
        + pos_part (scroll_by (negsuc 99) following).1
        + 100)
    × (((scroll_by (negsuc 99) following).0.scroll_top ≡ max_scroll_top following)
        ⊎ (pos_part (scroll_by (negsuc 99) following).1 ≡ 0))
    × (((scroll_by (negsuc 99) following).0.scroll_top ≡ 0)
        ⊎ (neg_part (scroll_by (negsuc 99) following).1 ≡ 0))
unfolding after perform new update_layout hide_transient_scrollbar
scroll_by_accounts_example =
    scroll_by_accounts (negsuc 99) following refl (omega arith) (omega arith) (omega arith)
      (omega arith)

-- Three children in ten rows with gaps of one: one that keeps two rows, and two that grow.
abbrev entry : ℕ → Option ℕ → StackLayoutEntry
entry component grow = record {
  component = component;
  basis = some 2;
  grow = grow;
  shrink = none;
  min_size = none;
  max_size = some 3;
  visible = none;
}

abbrev entries : List StackLayoutEntry
entries = entry 0 none ∷ entry 1 (some 1) ∷ entry 2 (some 3) ∷ []

abbrev sum : List ℕ → ℕ
sum [] = 0
sum (n ∷ ns) = n + sum ns

abbrev share : Share
share remaining weight weights = remaining * weight / max 1 (sum weights)

allocates : allocate_stack_sizes share entries [] (some (pos 10)) 1 ≡ 2 ∷ 3 ∷ 3 ∷ []
unfolding allocate_stack_sizes clamp_stack_size
allocates = refl

hides :
    visible_stack_entries
      (normalize_stack_entry 0 (record {
        basis = some (negsuc 4);
        grow = none;
        shrink = none;
        min_size = none;
        max_size = none;
        visible = some (λ v. false);
      })
        ∷ [])
      (record { width = 80; height = 24 })
    ≡ []
unfolding visible_stack_entries normalize_stack_entry
hides = refl

allocate-IsBounded_example : All IsBounded (allocate share entries [] (some (pos 10)) 1)
allocate-IsBounded_example = allocate-IsBounded share entries [] (some (pos 10)) 1

-- An arrow key, a letter, and the beginning of another key.
abbrev typed : Text
typed = 0x1b ∷ codes "[Aq" ++ 0x1b ∷ codes "["

typed_keys : extract_all typed ≡ ((0x1b ∷ codes "[A") ∷ codes "q" ∷ [], 0x1b ∷ codes "[")
unfolding extract
typed_keys = refl

extract_all-IsCut_example : IsCut typed (extract_all typed).0 (extract_all typed).1
extract_all-IsCut_example = extract_all-IsCut typed

abbrev keyboard : StdinBuffer
keyboard = record {
  buffer = [];
  timer = none;
  timer_generation = 0;
  event_generation = 0;
  timeout = 50;
  escape_timeout = 10;
  paste_mode = false;
  paste_buffer = [];
  pending = none;
}

process_locked_returns_example :
    (r : StdinBuffer × List StdinBufferEvent) × (process_locked typed keyboard ≡ some r)
process_locked_returns_example = process_locked_returns typed keyboard

-- The end of a paste of two bytes in three reads, cut inside the mark.
abbrev reads : List Text
reads = (codes "i" ++ 0x1b ∷ []) ∷ codes "[20" ∷ codes "1~" ∷ []

pasted_as_one_example :
    IsOnePaste keyboard (codes "hi") (process_all reads (pasting (codes "h") keyboard))
unfolding index_of
pasted_as_one_example =
    pasted_as_one (codes "i" ++ 0x1b ∷ []) (codes "[20" ∷ codes "1~" ∷ []) (codes "h") keyboard 2
      (refl, (refl, (refl, tt))) refl refl

-- A key that the terminal reports as a number and again as text is one event; a lone escape waits.
abbrev reported_twice : List Text
reported_twice = (0x1b ∷ codes "[97u") ∷ codes "a" ∷ (0x1b ∷ []) ∷ []

abbrev contents : Option (StdinBuffer × List StdinBufferEvent) → List Text
contents none = []
contents (some r) = map (λ e. e.content) r.1

one_key : contents (process_all reported_twice keyboard) ≡ (0x1b ∷ codes "[97u") ∷ []
unfolding process_all index_of extract kitty_printable rune_value
one_key = refl

flushed :
    (flush_timer 3 (record keyboard { buffer = 0x1b ∷ []; timer_generation = 3 })).0.buffer ≡ []
unfolding flush_timer
flushed = refl

abbrev key_event : ℕ → StdinBufferEvent
key_event generation = record { content = codes "a"; paste = false; generation = generation }

-- The first callback begins a new generation.
discarded :
    dispatch
      (λ i. if i == 0 then 0 else (discard_pending_events keyboard).event_generation)
      0
      (key_event 0 ∷ key_event 0 ∷ [])
    ≡ key_event 0 ∷ []
unfolding dispatch discard_pending_events
discarded = refl

default_delays : new_stdin_buffer (pos 0) (negsuc 0) ≡ keyboard
unfolding new_stdin_buffer
default_delays = refl

processed : contents (process (λ i. 0) (codes "a") keyboard) ≡ codes "a" ∷ []
unfolding process extract kitty_printable index_of
processed = refl

abbrev plain : StackEntryOptions
plain = record {
  basis = none;
  grow = some (pos 1);
  shrink = none;
  min_size = some (negsuc 1);
  max_size = none;
  visible = none;
}

abbrev stack : Stack
stack = new_stack (negsuc 2) none ((4, plain) ∷ (5, plain) ∷ [])

removed : map (λ e. e.component) (remove_child ◌==◌ 4 (add_child 4 [] stack)).entries ≡ 5 ∷ 4 ∷ []
unfolding new_stack remove_child add_child
removed = refl

cleared : (clear stack).children ≡ []
unfolding clear
cleared = refl
