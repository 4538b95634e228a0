-- ===== src/Tui/ScrollView.antt =====
-- internal/tui/scroll_view.go: a clipped view on one child, its place, and its scrollbar. Heights and
-- rows are what `max(0, _)` leaves of an int; an argument is an int.
pub mod Valid
pub mod Bounds
pub mod Moves
use midas.Common.{
  ℕ, ◌+◌, ◌-◌, ◌%◌, ◌^◌, min, Bool, true, false, not, ◌&&◌, ◌||◌, Option, none, some, List, map,
  ◌∷◌, [], ◌++◌, if◌then◌else◌, ltb, leb, ◌==◌,
}
use midas.Common.Int.{ℤ, pos, pos_part, ◌+ℤ◌, ◌-ℤ◌, ltb_ℤ, eqb_ℤ, sub_ℕ, wrap64}
use midas.Common.Text.{Text}

pub data ScrollbarMode : Type 0 where
  hidden auto always : ScrollbarMode

pub data OverscrollBehavior : Type 0 where
  chain contain : OverscrollBehavior

-- `none` is an option left out. A delay is in nanoseconds.
pub record ScrollViewOptions : Type 0 where
  pub follow_end : Bool
  pub primary : Bool
  pub overscroll : Option OverscrollBehavior
  pub scrollbar : Option ScrollbarMode
  pub scrollbar_hide_delay : Option ℤ

-- `connected` is whether `requestRender` is set, `renders` counts its calls, and `hide_timer` is the
-- generation that the pending timer was started in.
pub record ScrollView : Type 0 where
  pub follow_end : Bool
  pub primary : Bool
  pub overscroll : OverscrollBehavior
  pub scrollbar : ScrollbarMode
  pub scrollbar_hide_delay : ℕ
  pub scroll_top : ℕ
  pub content_height : ℕ
  pub viewport_height : ℕ
  pub following_end : Bool
  pub follow_suppressed : Bool
  pub connected : Bool
  pub renders : ℕ
  pub transient_visible : Bool
  pub scrollbar_active : Bool
  pub hide_timer : Option ℕ
  pub timer_generation : ℕ

abbrev or_else {ℓ} : {A : Type ℓ} → Option A → A → A
or_else none d = d
or_else (some x) d = x

-- NewScrollView
unfoldable pub new : ScrollViewOptions → ScrollView
new options = record {
  follow_end = options.follow_end;
  primary = options.primary;
  overscroll = or_else options.overscroll chain;
  scrollbar = or_else options.scrollbar hidden;
  scrollbar_hide_delay = pos_part (or_else options.scrollbar_hide_delay (pos 1_000_000_000));
  scroll_top = 0;
  content_height = 0;
  viewport_height = 0;
  following_end = options.follow_end;
  follow_suppressed = false;
  connected = false;
  renders = 0;
  transient_visible = false;
  scrollbar_active = false;
  hide_timer = none;
  timer_generation = 0;
}

abbrev pub is_auto : ScrollbarMode → Bool
is_auto auto = true
is_auto _ = false

abbrev pub is_always : ScrollbarMode → Bool
is_always always = true
is_always _ = false

abbrev same_mode : ScrollbarMode → ScrollbarMode → Bool
same_mode hidden hidden = true
same_mode auto auto = true
same_mode always always = true
same_mode _ _ = false

abbrev pub same : Bool → Bool → Bool
same true b = b
same false b = not b

-- The last row that can be the top one.
abbrev pub max_scroll_top : ScrollView → ℕ
max_scroll_top s = s.content_height - s.viewport_height

abbrev pub is_scrollbar_visible : ScrollView → Bool
is_scrollbar_visible s =
    if is_always s.scrollbar
    then ltb 0 s.viewport_height
    else is_auto s.scrollbar && ltb s.viewport_height s.content_height && s.transient_visible

-- requestRenderNow
unfoldable pub request_render_now : ScrollView → ScrollView
request_render_now s = if s.connected then record s { renders = s.renders + 1 } else s

abbrev next_generation : ScrollView → ℕ
next_generation s = (s.timer_generation + 1) % 2 ^ 64

-- markScrollbarActivity
unfoldable pub mark_scrollbar_activity : ScrollView → ScrollView
mark_scrollbar_activity s =
    if not (is_auto s.scrollbar) || leb s.content_height s.viewport_height then s else record s {
      transient_visible = true;
      timer_generation = next_generation s;
      hide_timer = if s.scrollbar_active then none else some (next_generation s);
    }

-- The callback of a timer started in `generation`, also of one that was stopped too late.
unfoldable pub timer_fires : ℕ → ScrollView → ScrollView
timer_fires generation s = if not (generation == s.timer_generation) then s else record s {
  hide_timer = none;
  transient_visible = false;
  renders = if s.connected then s.renders + 1 else s.renders;
}

-- hideTransientScrollbar
unfoldable pub hide_transient_scrollbar : ScrollView → ScrollView
hide_transient_scrollbar s = record s {
  transient_visible = false;
  timer_generation = next_generation s;
  hide_timer = none;
}

-- SetScrollbar
unfoldable pub set_scrollbar : ScrollbarMode → ScrollView → ScrollView
set_scrollbar mode s =
    if same_mode mode s.scrollbar
    then s
    else let s' = record s { scrollbar = mode } in
      request_render_now (
        if not (is_auto mode)
        then hide_transient_scrollbar s'
        else if s'.scrollbar_active
        then mark_scrollbar_activity s'
        else s')

-- SetScrollbarActive
unfoldable pub set_scrollbar_active : Bool → ScrollView → ScrollView
set_scrollbar_active active s =
    if same active s.scrollbar_active
    then s
    else request_render_now (mark_scrollbar_activity (record s { scrollbar_active = active }))

abbrev mark_if : Bool → ScrollView → ScrollView
mark_if b s = if b then mark_scrollbar_activity s else s

abbrev render_if : Bool → ScrollView → ScrollView
render_if b s = if b then request_render_now s else s

-- max(0, min(limit, row))
abbrev pub clamp : ℕ → ℤ → ℕ
clamp limit row = min limit (pos_part row)

-- ScrollTo; without options nothing is disabled.
unfoldable pub scroll_to : ℤ → Bool → ScrollView → ScrollView
scroll_to scroll_top disable_follow s =
    let next = clamp (max_scroll_top s) scroll_top in
    let suppressed = disable_follow && next == max_scroll_top s in
    let following = not suppressed && s.follow_end && next == max_scroll_top s in
    if next == s.scroll_top && same following s.following_end && same suppressed s.follow_suppressed
    then s
    else request_render_now (
        mark_if (not (next == s.scroll_top)) (record s {
          scroll_top = next;
          following_end = following;
          follow_suppressed = suppressed;
        }))

-- Where `ScrollBy` starts, and where it comes to.
abbrev pub start_row : ScrollView → ℕ
start_row s = if s.following_end then max_scroll_top s else s.scroll_top

abbrev pub target_row : ℤ → ScrollView → ℕ
target_row lines s = clamp (max_scroll_top s) (wrap64 (pos (start_row s) +ℤ lines))

-- ScrollBy, with the delta that is left.
unfoldable pub scroll_by : ℤ → ScrollView → ScrollView × ℤ
scroll_by lines s =
    if eqb_ℤ lines (pos 0)
    then (s, pos 0)
    else let next = target_row lines s in
      let moved = not (next == start_row s) in
      let following = s.follow_end && next == max_scroll_top s in
      let s' = record s {
        scroll_top = next;
        following_end = following;
        follow_suppressed = false;
      } in
      (
        render_if (moved || not (same following s.following_end)) (mark_if moved s'),
        wrap64 (lines -ℤ sub_ℕ next (start_row s)),
      )

-- ScrollToStart
unfoldable pub scroll_to_start : ScrollView → ScrollView
scroll_to_start s =
    let following = s.follow_end && leb s.content_height s.viewport_height in
    let changed = not (s.scroll_top == 0) || not (same s.following_end following) in
    let s' = record s { scroll_top = 0; following_end = following; follow_suppressed = false } in
    if changed then request_render_now (mark_scrollbar_activity s') else s'

-- ScrollToEnd
unfoldable pub scroll_to_end : ScrollView → ScrollView
scroll_to_end s =
    let next = max_scroll_top s in
    let changed = not (s.scroll_top == next) || not (same s.following_end s.follow_end) in
    let s' = record s {
      scroll_top = next;
      following_end = s.follow_end;
      follow_suppressed = false;
    } in
    if changed then request_render_now (mark_scrollbar_activity s') else s'

-- The viewport of a view that follows the end shrinks, and no content came.
abbrev pub shrinks : ℕ → ℕ → ScrollView → Bool
shrinks content viewport s =
    s.following_end && ltb viewport s.viewport_height && leb content s.content_height

-- The top row that `UpdateLayout` chooses.
abbrev pub layout_top : ℕ → ℕ → ScrollView → ℕ
layout_top content viewport s =
    if shrinks content viewport s
    then min s.scroll_top (content - viewport)
    else if s.following_end
    then content - viewport
    else min s.scroll_top (content - viewport)

-- UpdateLayout; `connected` is whether the function it is given is not nil.
unfoldable pub update_layout : ℤ → ℤ → Bool → ScrollView → ScrollView
update_layout content_height viewport_height connected s =
    let content = pos_part content_height in
    let viewport = pos_part viewport_height in
    let top = layout_top content viewport s in
    let suppressed = if ltb top (content - viewport) then false else s.follow_suppressed in
    let following =
      if s.follow_end && top == content - viewport && not suppressed
      then true
      else s.following_end in
    let s' = record s {
      content_height = content;
      viewport_height = viewport;
      connected = connected;
      scroll_top = top;
      follow_suppressed = suppressed;
      following_end = following;
    } in
    if leb content viewport then hide_transient_scrollbar s' else s'

-- ContentWidth
abbrev pub content_width : ℤ → ScrollView → ℤ
content_width width s =
    if is_always s.scrollbar && ltb_ℤ (pos 1) width then width -ℤ pos 1 else width

-- Render, from what the child renders at a width. The reserved column is one space.
pub render : (ℤ → List Text) → ℤ → ScrollView → List Text
render child width s =
    let lines = child (content_width width s) in
    if eqb_ℤ (content_width width s) width then lines else map (λ line. line ++ 32 ∷ []) lines
