-- ===== src/Tui/ScrollView/Valid.antt =====
-- internal/tui/scroll_view.go: when a ScrollView is valid, and what the small steps keep of it.
use midas.Common.{
  ℕ, ◌≤◌, ◌<◌, ◌≡◌, refl, Bool, true, false, some, arith, not, leb, Bool-cases, inl, inr,
  if◌then◌else◌,
}
use midas.Common.Int.{ℤ}
use midas.Tui.ScrollView.{
  ScrollView, is_auto, max_scroll_top, request_render_now, mark_scrollbar_activity,
  hide_transient_scrollbar,
}

-- The top row is inside the content, only a view made to follow the end follows it, and one that is held back from following
-- stands at the end without following.
pub record IsPlaced (s : ScrollView) : Type 0 where
  pub inside : s.scroll_top ≤ max_scroll_top s
  pub permitted : s.following_end ≡ true → s.follow_end ≡ true
  pub held :
      s.follow_suppressed ≡ true → (s.scroll_top ≡ max_scroll_top s) × (s.following_end ≡ false)

-- The transient scrollbar shows only in automatic mode with content to scroll, and unless it is held a
-- timer of the present generation, which will hide it, is pending; no other timer is.
pub record IsTimed (s : ScrollView) : Type 0 where
  pub wanted :
      s.transient_visible ≡ true
      → (is_auto s.scrollbar ≡ true) × (s.viewport_height < s.content_height)
  pub scheduled :
      s.transient_visible ≡ true
      → s.scrollbar_active ≡ false
      → s.hide_timer ≡ some s.timer_generation
  pub fresh : (g : ℕ) → s.hide_timer ≡ some g → g ≡ s.timer_generation

pub record IsValid (s : ScrollView) : Type 0 where
  pub placed : IsPlaced s
  pub timed : IsTimed s

-- `scheduled` is what a change of `scrollbar_active` breaks and marking activity restores.
pub record IsHalfTimed (s : ScrollView) : Type 0 where
  pub wanted :
      s.transient_visible ≡ true
      → (is_auto s.scrollbar ≡ true) × (s.viewport_height < s.content_height)
  pub fresh : (g : ℕ) → s.hide_timer ≡ some g → g ≡ s.timer_generation

IsTimed-mark : (s : ScrollView) → IsHalfTimed s → IsTimed (mark_scrollbar_activity s)
unfolding mark_scrollbar_activity
IsTimed-mark s h = record { wanted = ground arith; scheduled = ground arith; fresh = ground arith }

pub IsTimed-hide : (s : ScrollView) → IsTimed (hide_transient_scrollbar s)
unfolding hide_transient_scrollbar
IsTimed-hide s = record { wanted = ground arith; scheduled = ground arith; fresh = ground arith }

IsTimed-render : (s : ScrollView) → IsTimed s → IsTimed (request_render_now s)
unfolding request_render_now
IsTimed-render s h = record {
  wanted = ground arith;
  scheduled = ground arith;
  fresh = ground arith;
}

IsPlaced-mark : (s : ScrollView) → IsPlaced s → IsPlaced (mark_scrollbar_activity s)
unfolding mark_scrollbar_activity
IsPlaced-mark s h = record { inside = ground arith; permitted = ground arith; held = ground arith }

pub IsPlaced-hide : (s : ScrollView) → IsPlaced s → IsPlaced (hide_transient_scrollbar s)
unfolding hide_transient_scrollbar
IsPlaced-hide s h = record { inside = h.inside; permitted = h.permitted; held = h.held }

IsPlaced-render : (s : ScrollView) → IsPlaced s → IsPlaced (request_render_now s)
unfolding request_render_now
IsPlaced-render s h = record {
  inside = ground arith;
  permitted = ground arith;
  held = ground arith;
}

pub IsValid-mark :
    (s : ScrollView) → IsPlaced s → IsHalfTimed s → IsValid (mark_scrollbar_activity s)
IsValid-mark s p h = record { placed = IsPlaced-mark s p; timed = IsTimed-mark s h }

pub IsValid-render : (s : ScrollView) → IsValid s → IsValid (request_render_now s)
IsValid-render s h = record {
  placed = IsPlaced-render s h.placed;
  timed = IsTimed-render s h.timed;
}

-- A change of place alone, marked as activity or not.
abbrev pub moved_to : ℕ → Bool → Bool → ScrollView → ScrollView
moved_to top following suppressed s = record s {
  scroll_top = top;
  following_end = following;
  follow_suppressed = suppressed;
}

pub IsValid-moved :
    (top : ℕ) (following suppressed : Bool) (s : ScrollView)
    → IsPlaced (moved_to top following suppressed s)
    → IsTimed s
    → IsValid (moved_to top following suppressed s)
      × IsValid (mark_scrollbar_activity (moved_to top following suppressed s))
IsValid-moved top following suppressed s p h = (
  record {
    placed = p;
    timed = record { wanted = h.wanted; scheduled = h.scheduled; fresh = h.fresh };
  },
  IsValid-mark (moved_to top following suppressed s) p
      (record { wanted = h.wanted; fresh = h.fresh }),
)

pub IsValid-if :
    (b : Bool) (s t : ScrollView) → IsValid s → IsValid t → IsValid (if b then s else t)
IsValid-if true s t h k = h
IsValid-if false s t h k = k

pub IsValid-if-not :
    (b : Bool) (s t : ScrollView)
    → IsValid s
    → (b ≡ true → IsValid t)
    → IsValid (if not b then s else t)
IsValid-if-not true s t h k = k refl
IsValid-if-not false s t h k = h

pub IsValid-fst :
    (b : Bool) (p q : ScrollView × ℤ) → IsValid p.0 → IsValid q.0 → IsValid (if b then p else q).0
IsValid-fst true p q h k = h
IsValid-fst false p q h k = k

pub IsValid-if-leb :
    (a b : ℕ) (s t : ScrollView)
    → IsValid s
    → (b < a → IsValid t)
    → IsValid (if leb a b then s else t)
IsValid-if-leb a b s t h k = elim (Bool-cases (leb a b)) [
  | inl e ↦ rw e h
  | inr e ↦ rw e (k (ground arith))
]

-- A place that the clamping leads to.
pub IsPlaced-moved :
    (top : ℕ) (following suppressed : Bool) (s : ScrollView)
    → top ≤ max_scroll_top s
    → (following ≡ true → s.follow_end ≡ true)
    → (suppressed ≡ true → (top ≡ max_scroll_top s) × (following ≡ false))
    → IsPlaced (moved_to top following suppressed s)
IsPlaced-moved top following suppressed s i p h = record { inside = i; permitted = p; held = h }
