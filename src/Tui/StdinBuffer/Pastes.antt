-- ===== src/Tui/StdinBuffer/Pastes.antt =====
-- internal/tui/stdin_buffer.go: the loop of processLocked, and pastes that come in several reads.
use mathlib.Core.Option.{some-injective}
use mathlib.Core.Bool.{true≢false}
use midas.Common.{
  ℕ, suc, zero, ◌+◌, ◌≤◌, ◌≡◌, refl, sym, ap, ◌∙◌, subst, true, false, ◌&&◌, Option, none, some,
  List, [], ◌∷◌, ◌++◌, length, take, drop, All, arith, Bool-cases, Option-cases, inl, inr,
  length-drop, length-append, append_assoc, append-nil, drop_all,
}
use midas.Common.Text.{Text, is_empty}
use midas.Common.Text.Find.{index_of, index_of-fits, index_of-append}
use midas.Tui.StdinBuffer.{
  StdinBuffer, StdinBufferEvent, paste_start, paste_end, emit_data, emit_all, repeats, take_before,
  paste_event, with_events, begin_paste, end_paste, process_loop, held, process_locked, stop_timer,
}
use midas.Tui.StdinBuffer.Sequences.{extract_all}
use midas.Tui.StdinBuffer.Lossless.{joined}

buffer-emit_data : (s : Text) (b : StdinBuffer) → (emit_data s b).0.buffer ≡ b.buffer
unfolding emit_data
buffer-emit_data s b = elim (Bool-cases (repeats b.pending s)) [
  | inl p ↦ rw p refl
  | inr p ↦ rw p refl
]

buffer-emit_all : (ss : List Text) (b : StdinBuffer) → (emit_all ss b).0.buffer ≡ b.buffer
unfolding emit_all
buffer-emit_all [] b = refl
buffer-emit_all (s ∷ ss) b = buffer-emit_all ss (emit_data s b).0 ∙ buffer-emit_data s b

abbrev Result : Type 0
Result = StdinBuffer × List StdinBufferEvent

with_events-some :
    (es : List StdinBufferEvent) (o : Option Result)
    → (r : Result) × (o ≡ some r)
    → (r : Result) × (with_events es o ≡ some r)
with_events-some es o (r, e) = rw e ((r.0, es ++ r.1), refl)

process_loop_ends :
    (k : ℕ) (b : StdinBuffer) → suc (held b) ≤ k → (r : Result) × (process_loop k b ≡ some r)
unfolding process_loop take_before
process_loop_ends zero b l = absurd (omega arith)
process_loop_ends (suc k) b l = elim (Bool-cases b.paste_mode) [
  | inl p ↦ elim (Option-cases (index_of (b.paste_buffer ++ b.buffer) paste_end)) [
    | inl q ↦ rw (process_loop, p, q) (_, refl)
    | inr (end, q) ↦
        let pasted = b.paste_buffer ++ b.buffer in
        let rest = drop (end + 6) pasted in
        let fits = index_of-fits pasted paste_end end q in
        let fewer : suc (held (end_paste rest b)) ≤ k =
          omega
            (arith, length-drop (end + 6) pasted, fits, l, length-append b.paste_buffer b.buffer) in
        elim (Bool-cases (is_empty rest)) [
          | inl z ↦ rw (process_loop, p, q, z) (_, refl)
          | inr z ↦
              rw (process_loop, p, q, z)
                (with_events-some (paste_event b (take end pasted) ∷ [])
                  (process_loop k (end_paste rest b))
                  (process_loop_ends k (end_paste rest b) fewer))
        ]
  ]
  | inr p ↦ elim (Option-cases (index_of b.buffer paste_start)) [
    | inl q ↦ rw (process_loop, p, q) (_, refl)
    | inr (start, q) ↦
        let before = take_before start b in
        let same : before.0.buffer ≡ b.buffer =
          buffer-emit_all (extract_all (take start b.buffer)).0 b in
        let fits = index_of-fits b.buffer paste_start start q in
        let fewer : suc (held (begin_paste start before.0)) ≤ k =
          omega (arith, length-drop (start + 6) before.0.buffer, ap length same, fits, l) in
        rw (process_loop, p, q)
          (with_events-some before.1 (process_loop k (begin_paste start before.0))
            (process_loop_ends k (begin_paste start before.0) fewer))
  ]
]

-- processLocked returns, whatever the buffer holds and whatever bytes come: the rounds of its loop
-- are not more than the bytes that it holds, and one.
pub process_locked_returns :
    (s : Text) (b : StdinBuffer) → (r : Result) × (process_locked s b ≡ some r)
unfolding process_locked
process_locked_returns s b = elim (Bool-cases (is_empty s && is_empty b.buffer)) [
  | inl p ↦ rw (process_locked, p) (_, refl)
  | inr p ↦
      let joined = record (stop_timer b) { buffer = b.buffer ++ s } in
      rw (process_locked, p) (process_loop_ends (suc (held joined)) joined (omega arith))
]

abbrev pub and_then : Option Result → (StdinBuffer → Option Result) → Option Result
and_then none f = none
and_then (some r) f = with_events r.1 (f r.0)

-- Several reads, one after the other.
unfoldable pub process_all : List Text → StdinBuffer → Option Result
unfolding process_locked
process_all [] b = some (b, [])
process_all (s ∷ ss) b = and_then (process_locked s b) (λ c. process_all ss c)

abbrev pub IsOnePaste : StdinBuffer → Text → Option Result → Type 0
IsOnePaste b content none = true ≡ false
IsOnePaste b content (some r) =
    (r.1 ≡ paste_event b content ∷ [])
    × (r.0.paste_mode ≡ false)
    × (r.0.buffer ≡ [])
    × (r.0.paste_buffer ≡ [])

-- A buffer that reads a paste, with what it has read of it.
abbrev pub pasting : Text → StdinBuffer → StdinBuffer
pasting read b = record b { paste_mode = true; paste_buffer = read; buffer = [] }

process_paste_on :
    (s read : Text) (b : StdinBuffer)
    → is_empty s ≡ false
    → index_of (read ++ s) paste_end ≡ none
    → process_locked s (pasting read b) ≡ some (pasting (read ++ s) (stop_timer b), [])
unfolding process_locked process_loop stop_timer
process_paste_on s read b ne q = rw (process_locked, ne, process_loop, q) refl

process_paste_end :
    (s read : Text) (b : StdinBuffer) (end : ℕ)
    → is_empty s ≡ false
    → index_of (read ++ s) paste_end ≡ some end
    → end + length paste_end ≡ length (read ++ s)
    → IsOnePaste b (take end (read ++ s)) (process_locked s (pasting read b))
unfolding process_locked process_loop stop_timer
process_paste_end s read b end ne q l =
    let nothing = drop_all (read ++ s) (end + length paste_end) (omega (arith, l)) in
    rw (process_locked, ne, process_loop, q, nothing) (refl, refl, refl, refl)

IsOnePaste-last :
    (b : StdinBuffer) (content : Text) (o : Option Result)
    → IsOnePaste b content o
    → IsOnePaste b content (and_then o (λ c. some (c, [])))
IsOnePaste-last b content none h = h
IsOnePaste-last b content (some r) h = (append-nil r.1 ∙ h.0, h.1, h.2, h.3)

IsOnePaste-later :
    (b : StdinBuffer) (content : Text) (o : Option Result)
    → IsOnePaste (stop_timer b) content o
    → IsOnePaste b content (with_events [] o)
unfolding stop_timer
IsOnePaste-later b content none h = h
IsOnePaste-later b content (some r) h = h

-- Before the last read the end of the paste is not there.
index_of-prefix :
    (x t : Text) (end : ℕ)
    → is_empty t ≡ false
    → index_of (x ++ t) paste_end ≡ some end
    → end + length paste_end ≡ length (x ++ t)
    → index_of x paste_end ≡ none
index_of-prefix x [] end ne q l = absurd (true≢false ne)
index_of-prefix x (c ∷ t) end ne q l = elim (Option-cases (index_of x paste_end)) [
  | inl p ↦ p
  | inr (i, p) ↦
      let same : i ≡ end = some-injective _ _ (sym (index_of-append x (c ∷ t) paste_end i p) ∙ q) in
      absurd (omega (arith, index_of-fits x paste_end i p, same, l, length-append x (c ∷ t)))
]

is_empty-append : (t u : Text) → is_empty t ≡ false → is_empty (t ++ u) ≡ false
is_empty-append [] u h = absurd (true≢false h)
is_empty-append (c ∷ t) u h = refl

IsOnePaste-process_all :
    (s : Text) (ss : List Text) (read : Text) (b : StdinBuffer) (end : ℕ) (whole : Text)
    → All (λ t. is_empty t ≡ false) (s ∷ ss)
    → whole ≡ (read ++ s) ++ joined ss
    → index_of whole paste_end ≡ some end
    → end + length paste_end ≡ length whole
    → IsOnePaste b (take end whole) (process_all (s ∷ ss) (pasting read b))
unfolding process_all
IsOnePaste-process_all s [] read b end whole ne w q l =
    let same = w ∙ append-nil (read ++ s) in
    IsOnePaste-last b (take end whole) (process_locked s (pasting read b)) (
      subst (λ x. IsOnePaste b (take end x) (process_locked s (pasting read b))) (sym same)
        (process_paste_end s read b end ne.0 (subst (λ x. index_of x paste_end ≡ some end) same q)
          (subst (λ x. end + length paste_end ≡ length x) same l)))
IsOnePaste-process_all s (t ∷ ts) read b end whole ne w q l =
    let absent =
      index_of-prefix (read ++ s) (joined (t ∷ ts)) end (is_empty-append t (joined ts) ne.1.0)
        (subst (λ x. index_of x paste_end ≡ some end) w q)
        (subst (λ x. end + length paste_end ≡ length x) w l) in
    subst (λ o. IsOnePaste b (take end whole) (and_then o (λ c. process_all (t ∷ ts) c)))
      (sym (process_paste_on s read b ne.0 absent))
      (IsOnePaste-later b (take end whole)
        (process_all (t ∷ ts) (pasting (read ++ s) (stop_timer b)))
        (IsOnePaste-process_all t ts (read ++ s) (stop_timer b) end whole ne.1
          (w ∙ sym (append_assoc (read ++ s) t (joined ts))) q l))

-- While the terminal reports a paste, of which some bytes may have been read: however the rest of
-- its bytes, up to the first mark of its end, is divided into reads, in the middle of the mark too,
-- none of them empty, the whole paste is handed on as one event with its exact bytes, nothing else
-- is, and the buffer is empty behind it.
pub pasted_as_one :
    (s : Text) (ss : List Text) (read : Text) (b : StdinBuffer) (end : ℕ)
    → All (λ t. is_empty t ≡ false) (s ∷ ss)
    → index_of (read ++ joined (s ∷ ss)) paste_end ≡ some end
    → end + length paste_end ≡ length (read ++ joined (s ∷ ss))
    → IsOnePaste b (take end (read ++ joined (s ∷ ss))) (process_all (s ∷ ss) (pasting read b))
pasted_as_one s ss read b end ne q l =
    IsOnePaste-process_all s ss read b end (read ++ joined (s ∷ ss)) ne
      (sym (append_assoc read s (joined ss))) q l
