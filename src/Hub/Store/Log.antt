-- ===== src/Hub/Store/Log.antt =====
-- pkg/hub/store.go: the log of the messages, one line of JSON for each.
use midas.Common.{
  ℕ, Bool, true, false, ◌||◌, Option, none, some, List, [], ◌∷◌, ◌++◌, if◌then◌else◌, ◌==◌, take,
  leb, length,
}
use midas.Common.Text.{Text, trim_space, is_empty}
use midas.Hub.{Message}
use midas.Hub.Store.{
  Externals, File, missing, unreadable, holds, Store, is_known, WriteStep, write_atomically,
}

-- A line of the log, with its end.
abbrev pub ended : Text → Text
ended line = line ++ 10 ∷ []

-- The lines that bufio.ScanLines cuts a text into, the last one also without an end. The `\r` that
-- it drops is trimmed by the caller.
abbrev pub lines_from : Text → Text → List Text
lines_from line [] = if is_empty line then [] else line ∷ []
lines_from line (c ∷ s) =
    let next = lines_from [] s in
    let more = lines_from (line ++ c ∷ []) s in if c == 10 then line ∷ next else more

abbrev pub lines : Text → List Text
lines s = lines_from [] s

-- A line that leaves no room for its end fails the scan.
abbrev pub max_line : ℕ
max_line = 8388608

abbrev pub is_too_long : Text → Bool
is_too_long line = leb max_line (length line)

-- A decoded message joins those that were loaded, unless it has no identifier or a known one.
unfoldable pub load_message : Message → Store → Store
load_message m s =
    if is_empty m.id || is_known s.by_id m.id
    then s
    else record s { messages = s.messages ++ m ∷ []; by_id = s.by_id ++ m.id ∷ [] }

abbrev pub load_decoded : Option Message → Store → Store
load_decoded none s = s
load_decoded (some m) s = load_message m s

module _ (go : Externals) where
  unfoldable pub load_line : Text → Store → Store
  load_line line s = if is_empty line then s else load_decoded (go.unmarshal line) s

  -- The loop of load; `none` is the scanner's error.
  unfoldable pub load_lines : List Text → Store → Option Store
  load_lines [] s = some s
  load_lines (line ∷ rest) s =
      let loaded = load_lines rest (load_line (trim_space line) s) in
      if is_too_long line then none else loaded

  unfoldable pub load : File Text → Store → Option Store
  unfolding load_lines
  load missing s = some s
  load unreadable s = none
  load (holds text) s = load_lines (lines text) s

  -- The encoding of all messages, `none` if one does not encode.
  abbrev pub encode_all : List Message → Option Text
  encode_all [] = some []
  encode_all (m ∷ ms) = elim (go.marshal m) [
    | none ↦ none
    | some line ↦ elim (encode_all ms) [ none ↦ none | some s ↦ some (ended line ++ s) ]
  ]

  -- rewriteMessagesLocked
  unfoldable pub rewrite_messages : Option WriteStep → List Message → File Text → File Text × Bool
  unfolding write_atomically
  rewrite_messages fault ms log = elim (encode_all ms) [
    | none ↦ (log, false)
    | some text ↦ write_atomically fault text log
  ]

-- How the file calls of Append fail: it does not open, or the write stops after some bytes.
pub data LineFault : Type 0 where
  open_fails : LineFault
  stops_after : ℕ → LineFault

abbrev pub append_to : Text → File Text → File Text
append_to s missing = holds s
append_to s unreadable = unreadable
append_to s (holds text) = holds (text ++ s)

-- The part of Append behind the memory: opening creates the file, and the line is written as one.
unfoldable pub write_line : Externals → Option LineFault → Message → File Text → File Text × Bool
write_line go (some open_fails) m log = (log, false)
write_line go none m log = elim (go.marshal m) [
  | none ↦ (append_to [] log, false)
  | some line ↦ (append_to (ended line) log, true)
]
write_line go (some (stops_after n)) m log = elim (go.marshal m) [
  | none ↦ (append_to [] log, false)
  | some line ↦ (append_to (take n (ended line)) log, false)
]
