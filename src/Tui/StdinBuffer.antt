-- ===== src/Tui/StdinBuffer.antt =====
-- internal/tui/stdin_buffer.go: the bytes of the terminal cut into keys and pastes.
pub mod Sequences
pub mod Lossless
pub mod Pastes
use midas.Common.{
  ℕ, suc, zero, ◌+◌, ◌-◌, ◌*◌, max, Bool, true, false, not, ◌&&◌, ◌||◌, Option, none, some, List,
  [], ◌∷◌, ◌++◌, if◌then◌else◌, ltb, leb, ◌==◌, length, take, drop,
}
use midas.Common.Int.{ℤ, pos, pos_part, leb_ℤ}
use midas.Common.Text.{Text, codes, text_eq, is_empty}
use midas.Common.Text.Find.{index_of}
use midas.Common.Text.Utf8.{rune_size, rune_value}
use midas.Tui.StdinBuffer.Sequences.{extract_all, kitty_printable}

abbrev pub paste_start : Text
paste_start = 0x1b ∷ codes "[200~"

abbrev pub paste_end : Text
paste_end = 0x1b ∷ codes "[201~"

-- stdinBufferEvent
pub record StdinBufferEvent : Type 0 where
  pub content : Text
  pub paste : Bool
  pub generation : ℕ

-- stdinBuffer; a timer is the generation it was set in and its delay. `pending` is the character of
-- the last key that the terminal may report again as text.
pub record StdinBuffer : Type 0 where
  pub buffer : Text
  pub timer : Option (ℕ × ℕ)
  pub timer_generation : ℕ
  pub event_generation : ℕ
  pub timeout : ℕ
  pub escape_timeout : ℕ
  pub paste_mode : Bool
  pub paste_buffer : Text
  pub pending : Option ℕ

-- Whether a sequence is the one character that is pending.
abbrev pub repeats : Option ℕ → Text → Bool
repeats none s = false
repeats (some c) s = not (is_empty s) && rune_size s == length s && rune_value (rune_size s) s == c

-- emitDataLocked
unfoldable pub emit_data : Text → StdinBuffer → StdinBuffer × List StdinBufferEvent
emit_data s b = if repeats b.pending s then (record b { pending = none }, []) else (
  record b { pending = kitty_printable s },
  record { content = s; paste = false; generation = b.event_generation } ∷ [],
)

unfoldable pub emit_all : List Text → StdinBuffer → StdinBuffer × List StdinBufferEvent
unfolding emit_data
emit_all [] b = (b, [])
emit_all (s ∷ ss) b =
    let first = emit_data s b in let rest = emit_all ss first.0 in (rest.0, first.1 ++ rest.1)

-- stopTimerLocked
unfoldable pub stop_timer : StdinBuffer → StdinBuffer
stop_timer b = record b { timer = none; timer_generation = suc b.timer_generation }

abbrev pub delay_of : StdinBuffer → ℕ
delay_of b =
    if text_eq b.buffer (0x1b ∷ []) then b.escape_timeout else max b.timeout b.escape_timeout

abbrev pub wait : StdinBuffer → StdinBuffer
wait b = if is_empty b.buffer then b else record b { timer = some (b.timer_generation, delay_of b) }

-- The end of processLocked, where no paste begins.
unfoldable pub take_keys : StdinBuffer → StdinBuffer × List StdinBufferEvent
unfolding emit_all
take_keys b =
    let cut = extract_all b.buffer in
    let told = emit_all cut.0 (record b { buffer = cut.1 }) in (wait told.0, told.1)

abbrev pub paste_event : StdinBuffer → Text → StdinBufferEvent
paste_event b s = record { content = s; paste = true; generation = b.event_generation }

-- What stands before a paste; an incomplete sequence there is dropped.
unfoldable pub take_before : ℕ → StdinBuffer → StdinBuffer × List StdinBufferEvent
unfolding emit_all
take_before start b = emit_all (extract_all (take start b.buffer)).0 b

abbrev pub with_events :
    List StdinBufferEvent
    → Option (StdinBuffer × List StdinBufferEvent)
    → Option (StdinBuffer × List StdinBufferEvent)
with_events es none = none
with_events es (some r) = some (r.0, es ++ r.1)

abbrev pub begin_paste : ℕ → StdinBuffer → StdinBuffer
begin_paste start b = record b {
  pending = none;
  buffer = [];
  paste_mode = true;
  paste_buffer = drop (start + length paste_start) b.buffer;
}

abbrev pub end_paste : Text → StdinBuffer → StdinBuffer
end_paste rest b = record b { paste_mode = false; paste_buffer = []; pending = none; buffer = rest }

-- The loop of processLocked; `none` is a loop that goes on.
unfoldable pub process_loop : ℕ → StdinBuffer → Option (StdinBuffer × List StdinBufferEvent)
unfolding take_keys take_before
process_loop zero b = none
process_loop (suc k) b =
    let pasted = b.paste_buffer ++ b.buffer in
    let in_paste : Option (StdinBuffer × List StdinBufferEvent) = elim (index_of pasted paste_end) [
      | none ↦ some (record b { paste_buffer = pasted; buffer = [] }, [])
      | some end ↦
          let rest = drop (end + length paste_end) pasted in
          let ended = end_paste rest b in
          let told = paste_event b (take end pasted) ∷ [] in
          let again = with_events told (process_loop k ended) in
          if is_empty rest then some (ended, told) else again
    ] in
    let in_keys : Option (StdinBuffer × List StdinBufferEvent) =
      elim (index_of b.buffer paste_start) [
        | none ↦ some (take_keys b)
        | some start ↦
            let before = take_before start b in
            with_events before.1 (process_loop k (begin_paste start before.0))
      ] in
    if b.paste_mode then in_paste else in_keys

-- The bytes that the buffer holds.
abbrev pub held : StdinBuffer → ℕ
held b = length b.paste_buffer + length b.buffer

-- processLocked, with as many rounds as it holds bytes and one more.
unfoldable pub process_locked : Text → StdinBuffer → Option (StdinBuffer × List StdinBufferEvent)
unfolding stop_timer emit_data process_loop
process_locked s b =
    let stopped = stop_timer b in
    let joined = record stopped { buffer = b.buffer ++ s } in
    if is_empty s && is_empty b.buffer
    then some (emit_data [] stopped)
    else process_loop (suc (held joined)) joined

-- The part of flushTimer under the lock.
unfoldable pub flush_timer : ℕ → StdinBuffer → StdinBuffer × List StdinBufferEvent
flush_timer generation b =
    if not (generation == b.timer_generation)
    then (b, [])
    else if is_empty b.buffer
    then (record b { timer = none }, [])
    else (
      record b { timer = none; buffer = []; pending = none },
      record { content = b.buffer; paste = false; generation = b.event_generation } ∷ [],
    )

-- Clear
unfoldable pub clear : StdinBuffer → StdinBuffer
unfolding stop_timer
clear b = record (stop_timer b) {
  buffer = [];
  paste_buffer = [];
  paste_mode = false;
  pending = none;
}

-- discardPendingEvents
unfoldable pub discard_pending_events : StdinBuffer → StdinBuffer
unfolding clear
discard_pending_events b = record (clear b) { event_generation = suc b.event_generation }

-- dispatch: the events that are handed on, where `seen` is the generation that each of them meets;
-- a callback may begin a new one.
unfoldable pub dispatch : (ℕ → ℕ) → ℕ → List StdinBufferEvent → List StdinBufferEvent
dispatch seen i [] = []
dispatch seen i (e ∷ es) =
    let rest = dispatch seen (suc i) es in if e.generation == seen i then e ∷ rest else rest

abbrev pub dispatched :
    (ℕ → ℕ)
    → Option (StdinBuffer × List StdinBufferEvent)
    → Option (StdinBuffer × List StdinBufferEvent)
dispatched seen none = none
dispatched seen (some r) = some (r.0, dispatch seen 0 r.1)

-- Process, where the callbacks do not change the buffer.
unfoldable pub process : (ℕ → ℕ) → Text → StdinBuffer → Option (StdinBuffer × List StdinBufferEvent)
unfolding process_locked dispatch
process seen s b = dispatched seen (process_locked s b)

abbrev pub positive_or : ℕ → ℤ → ℕ
positive_or fallback t = if leb_ℤ t (pos 0) then fallback else pos_part t

-- newStdinBuffer, without its callbacks; the delays are in milliseconds.
unfoldable pub new_stdin_buffer : ℤ → ℤ → StdinBuffer
new_stdin_buffer timeout escape_timeout = record {
  buffer = [];
  timer = none;
  timer_generation = 0;
  event_generation = 0;
  timeout = positive_or 50 timeout;
  escape_timeout = positive_or 10 escape_timeout;
  paste_mode = false;
  paste_buffer = [];
  pending = none;
}
