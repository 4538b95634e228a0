-- ===== src/Tui/ScrollView/Moves.antt =====
-- internal/tui/scroll_view.go: where a scroll and a layout take the view.
use midas.Common.{ℕ, ◌+◌, ◌-◌, ◌^◌, min, ◌≤◌, ◌<◌, ◌≡◌, ap, ◌∙◌, ◌⊎◌, false, arith}
use midas.Common.Int.{ℤ, pos, pos_part, neg_part, ◌+ℤ◌, ◌-ℤ◌, sub_ℕ, eqb_ℤ, wrap64, wrap64-id}
use midas.Tui.ScrollView.{
  ScrollView, max_scroll_top, request_render_now, mark_scrollbar_activity, start_row, target_row,
  scroll_by,
}

-- What a scroll by some lines writes and returns.
scroll_by_writes :
    (lines : ℤ) (s : ScrollView)
    → eqb_ℤ lines (pos 0) ≡ false
    → ((scroll_by lines s).0.scroll_top ≡ target_row lines s)
      × ((scroll_by lines s).1 ≡ wrap64 (lines -ℤ sub_ℕ (target_row lines s) (start_row s)))
unfolding scroll_by mark_scrollbar_activity request_render_now
scroll_by_writes lines s e = ground arith

sum_parts :
    (a : ℕ) (b : ℤ)
    → (pos_part (pos a +ℤ b) ≡ a + pos_part b - neg_part b)
      × (neg_part (pos a +ℤ b) ≡ neg_part b - (a + pos_part b))
unfolding ◌+ℤ◌
sum_parts a b = ground arith

difference_parts :
    (a b : ℤ)
    → (pos_part (a -ℤ b) ≡ pos_part a + neg_part b - (neg_part a + pos_part b))
      × (neg_part (a -ℤ b) ≡ neg_part a + pos_part b - (pos_part a + neg_part b))
unfolding ◌-ℤ◌
difference_parts a b = ground arith

target_row_lem :
    (lines : ℤ) (s : ScrollView)
    → start_row s < 2 ^ 62
    → pos_part lines < 2 ^ 62
    → neg_part lines < 2 ^ 62
    → target_row lines s ≡ min (max_scroll_top s) (start_row s + pos_part lines - neg_part lines)
target_row_lem lines s b p n =
    let q = sum_parts (start_row s) lines in
    ap (λ a. min (max_scroll_top s) (pos_part a))
      (wrap64-id (pos (start_row s) +ℤ lines) (omega (arith, q.0)) (omega (arith, q.1)))
    ∙ ap (min (max_scroll_top s)) q.0

-- The lines that are left after a move from `start` to `next`.
rest_parts :
    (lines : ℤ) (limit start next : ℕ)
    → pos_part lines < 2 ^ 62
    → neg_part lines < 2 ^ 62
    → limit < 2 ^ 62
    → start ≤ limit
    → next ≡ min limit (start + pos_part lines - neg_part lines)
    → let rest = wrap64 (lines -ℤ sub_ℕ next start) in
      (start + pos_part lines + neg_part rest ≡ next + pos_part rest + neg_part lines)
      × ((next ≡ limit) ⊎ (pos_part rest ≡ 0))
      × ((next ≡ 0) ⊎ (neg_part rest ≡ 0))
rest_parts lines limit start next p n l i e =
    let d = difference_parts lines (sub_ℕ next start) in
    let r = wrap64-id (lines -ℤ sub_ℕ next start) (ground (arith, d.0)) (ground (arith, d.1)) in
    rw r (ground (arith, d.0, d.1))

-- ScrollBy of at least one line moves the view from its row (the last one, while it follows the end) and returns the
-- lines that are left: row and rest together account for every line, and lines down are left only at the last row,
-- lines up only at the first. The row is inside the content, and numbers stay below 2^62.
pub scroll_by_accounts :
    (lines : ℤ) (s : ScrollView)
    → eqb_ℤ lines (pos 0) ≡ false
    → pos_part lines < 2 ^ 62
    → neg_part lines < 2 ^ 62
    → s.content_height < 2 ^ 62
    → s.scroll_top ≤ max_scroll_top s
    → let (s', rest) = scroll_by lines s in
      (start_row s + pos_part lines + neg_part rest
        ≡ s'.scroll_top + pos_part rest + neg_part lines)
      × ((s'.scroll_top ≡ max_scroll_top s) ⊎ (pos_part rest ≡ 0))
      × ((s'.scroll_top ≡ 0) ⊎ (neg_part rest ≡ 0))
scroll_by_accounts lines s e p n c i =
    let w = scroll_by_writes lines s e in
    rw w.0 (
      rw w.1 (
        rest_parts lines (max_scroll_top s) (start_row s) (target_row lines s) p n (omega arith)
          (ground arith) (target_row_lem lines s (ground arith) p n)))
