-- ===== src/Tui/ScrollView/Bounds.antt =====
-- internal/tui/scroll_view.go: what holds of a ScrollView after any operations.
use midas.Common.{
  ℕ, ◌≤◌, ◌≡◌, Bool, true, false, List, [], ◌∷◌, arith, ◌==◌, not, ◌&&◌, leb, ltb, ◌||◌, ◌-◌,
  if◌then◌else◌,
}
use midas.Common.Int.{ℤ, pos, pos_part, eqb_ℤ}
use midas.Tui.ScrollView.{
  ScrollbarMode, ScrollViewOptions, ScrollView, is_auto, max_scroll_top, new,
  mark_scrollbar_activity, clamp, same, start_row, target_row, layout_top, timer_fires,
  hide_transient_scrollbar, set_scrollbar, set_scrollbar_active, scroll_to, scroll_by,
  scroll_to_start, scroll_to_end, update_layout,
}
use midas.Tui.ScrollView.Valid.{
  IsPlaced, IsTimed, IsValid, IsHalfTimed, IsTimed-hide, IsPlaced-hide, IsValid-mark,
  IsValid-render, moved_to, IsValid-moved, IsValid-if, IsValid-if-not, IsValid-fst, IsValid-if-leb,
  IsPlaced-moved,
}

module _ (s : ScrollView) (h : IsValid s) where
  IsValid-set_scrollbar : (mode : ScrollbarMode) → IsValid (set_scrollbar mode s)
  unfolding set_scrollbar
  IsValid-set_scrollbar mode = IsValid-if _ s _ h (
      IsValid-render _ (
        IsValid-if-not (is_auto mode) (hide_transient_scrollbar s') _ hiding (λ e.
          IsValid-if s.scrollbar_active (mark_scrollbar_activity s') s'
            (IsValid-mark s' placed' (half e)) (record { placed = placed'; timed = kept e }))))
    where
      s' : ScrollView
      s' = record s { scrollbar = mode }

      placed' : IsPlaced s'
      placed' = record {
        inside = h.placed.inside;
        permitted = h.placed.permitted;
        held = h.placed.held;
      }

      hiding : IsValid (hide_transient_scrollbar s')
      hiding = record { placed = IsPlaced-hide s' placed'; timed = IsTimed-hide s' }

      half : is_auto mode ≡ true → IsHalfTimed s'
      half e = record { wanted = λ v. (e, (h.timed.wanted v).1); fresh = h.timed.fresh }

      kept : is_auto mode ≡ true → IsTimed s'
      kept e = record {
        wanted = λ v. (e, (h.timed.wanted v).1);
        scheduled = h.timed.scheduled;
        fresh = h.timed.fresh;
      }

  IsValid-set_scrollbar_active : (active : Bool) → IsValid (set_scrollbar_active active s)
  unfolding set_scrollbar_active
  IsValid-set_scrollbar_active active =
      IsValid-if (same active s.scrollbar_active) s _ h
        (IsValid-render (mark_scrollbar_activity s') (IsValid-mark s' placed' half))
    where
      s' : ScrollView
      s' = record s { scrollbar_active = active }

      placed' : IsPlaced s'
      placed' = record {
        inside = h.placed.inside;
        permitted = h.placed.permitted;
        held = h.placed.held;
      }

      half : IsHalfTimed s'
      half = record { wanted = h.timed.wanted; fresh = h.timed.fresh }

  IsValid-timer_fires : (generation : ℕ) → IsValid (timer_fires generation s)
  unfolding timer_fires
  IsValid-timer_fires generation =
      IsValid-if (not (generation == s.timer_generation)) s _ h (record {
        placed = record {
          inside = h.placed.inside;
          permitted = h.placed.permitted;
          held = h.placed.held;
        };
        timed = record { wanted = ground arith; scheduled = ground arith; fresh = ground arith };
      })

  IsValid-scroll_to : (row : ℤ) (disable_follow : Bool) → IsValid (scroll_to row disable_follow s)
  unfolding scroll_to
  IsValid-scroll_to row disable_follow =
      let next = clamp (max_scroll_top s) row in
      let suppressed = disable_follow && next == max_scroll_top s in
      let following = not suppressed && s.follow_end && next == max_scroll_top s in
      let s' = moved_to next following suppressed s in
      let v =
        IsValid-moved next following suppressed s
          (IsPlaced-moved next following suppressed s (omega arith) (ground arith) (ground arith))
          h.timed in
      IsValid-if _ s _ h (
        IsValid-render _
          (IsValid-if (not (next == s.scroll_top)) (mark_scrollbar_activity s') s' v.1 v.0))

  IsValid-scroll_by : (lines : ℤ) → IsValid (scroll_by lines s).0
  unfolding scroll_by
  IsValid-scroll_by lines =
      let next = target_row lines s in
      let following = s.follow_end && next == max_scroll_top s in
      let moved = not (next == start_row s) in
      let s' = moved_to next following false s in
      let v =
        IsValid-moved next following false s
          (IsPlaced-moved next following false s (omega arith) (ground arith) (ground arith))
          h.timed in
      let marked = IsValid-if moved (mark_scrollbar_activity s') s' v.1 v.0 in
      IsValid-fst (eqb_ℤ lines (pos 0)) (s, pos 0) _ h
        (IsValid-if (moved || not (same following s.following_end)) _ _ (IsValid-render _ marked)
          marked)

  IsValid-scroll_to_start : IsValid (scroll_to_start s)
  unfolding scroll_to_start
  IsValid-scroll_to_start =
      let following = s.follow_end && leb s.content_height s.viewport_height in
      let s' = moved_to 0 following false s in
      let v =
        IsValid-moved 0 following false s
          (IsPlaced-moved 0 following false s (omega arith) (ground arith) (ground arith))
          h.timed in
      IsValid-if _ _ s' (IsValid-render _ v.1) v.0

  IsValid-scroll_to_end : IsValid (scroll_to_end s)
  unfolding scroll_to_end
  IsValid-scroll_to_end =
      let s' = moved_to (max_scroll_top s) s.follow_end false s in
      let v =
        IsValid-moved (max_scroll_top s) s.follow_end false s
          (IsPlaced-moved (max_scroll_top s) s.follow_end false s (omega arith) (λ e. e)
            (ground arith))
          h.timed in
      IsValid-if _ _ s' (IsValid-render _ v.1) v.0

  IsValid-update_layout :
      (content viewport : ℤ) (connected : Bool)
      → IsValid (update_layout content viewport connected s)
  unfolding update_layout
  IsValid-update_layout content viewport connected = split (pos_part content) (pos_part viewport)
    where
      laid : ℕ → ℕ → ScrollView
      laid c v =
          let top = layout_top c v s in
          let suppressed = if ltb top (c - v) then false else s.follow_suppressed in
          record s {
            content_height = c;
            viewport_height = v;
            connected = connected;
            scroll_top = top;
            follow_suppressed = suppressed;
            following_end =
                if s.follow_end && top == c - v && not suppressed then true else s.following_end;
          }

      placed' : (c v : ℕ) → IsPlaced (laid c v)
      placed' c v =
          let top_bound : layout_top c v s ≤ c - v = ground arith in
          record {
            inside = top_bound;
            permitted = ground (arith, h.placed.permitted);
            held = ground (arith, h.placed.held, top_bound);
          }

      split :
          (c v : ℕ) → IsValid (if leb c v then hide_transient_scrollbar (laid c v) else laid c v)
      split c v =
          IsValid-if-leb c v (hide_transient_scrollbar (laid c v)) (laid c v)
            (record {
              placed = IsPlaced-hide (laid c v) (placed' c v);
              timed = IsTimed-hide (laid c v);
            })
            (λ b. record {
              placed = placed' c v;
              timed = record {
                wanted = λ w. ((h.timed.wanted w).0, b);
                scheduled = h.timed.scheduled;
                fresh = h.timed.fresh;
              };
            })

-- What the program and the user do with a view; a timer of any generation may fire at any time.
pub data Operation : Type 0 where
  set_mode : ScrollbarMode → Operation
  set_active : Bool → Operation
  fire : ℕ → Operation
  to_row : ℤ → Bool → Operation
  by_lines : ℤ → Operation
  to_start to_end : Operation
  lay_out : ℤ → ℤ → Bool → Operation

unfoldable pub perform : Operation → ScrollView → ScrollView
perform (set_mode mode) s = set_scrollbar mode s
perform (set_active active) s = set_scrollbar_active active s
perform (fire generation) s = timer_fires generation s
perform (to_row row disable) s = scroll_to row disable s
perform (by_lines lines) s = (scroll_by lines s).0
perform to_start s = scroll_to_start s
perform to_end s = scroll_to_end s
perform (lay_out content viewport connected) s = update_layout content viewport connected s

unfoldable pub after : List Operation → ScrollView → ScrollView
after [] s = s
after (o ∷ os) s = after os (perform o s)

IsValid-perform : (o : Operation) (s : ScrollView) → IsValid s → IsValid (perform o s)
unfolding perform
IsValid-perform (set_mode mode) s h = IsValid-set_scrollbar s h mode
IsValid-perform (set_active active) s h = IsValid-set_scrollbar_active s h active
IsValid-perform (fire generation) s h = IsValid-timer_fires s h generation
IsValid-perform (to_row row disable) s h = IsValid-scroll_to s h row disable
IsValid-perform (by_lines lines) s h = IsValid-scroll_by s h lines
IsValid-perform to_start s h = IsValid-scroll_to_start s h
IsValid-perform to_end s h = IsValid-scroll_to_end s h
IsValid-perform (lay_out content viewport connected) s h =
    IsValid-update_layout s h content viewport connected

IsValid-after_from : (os : List Operation) (s : ScrollView) → IsValid s → IsValid (after os s)
unfolding after
IsValid-after_from [] s h = h
IsValid-after_from (o ∷ os) s h = IsValid-after_from os (perform o s) (IsValid-perform o s h)

IsValid-new : (options : ScrollViewOptions) → IsValid (new options)
unfolding new
IsValid-new options = record {
  placed = record { inside = omega arith; permitted = λ e. e; held = ground arith };
  timed = record { wanted = ground arith; scheduled = ground arith; fresh = ground arith };
}

-- After any operations on a new view, timers that fire late included, its top row lies inside its content, it follows the end
-- only if it was made to, and a transient scrollbar shows only where there is something to scroll and is held or due to be
-- hidden by the pending timer.
pub IsValid-after :
    (options : ScrollViewOptions) (os : List Operation) → IsValid (after os (new options))
IsValid-after options os = IsValid-after_from os (new options) (IsValid-new options)
