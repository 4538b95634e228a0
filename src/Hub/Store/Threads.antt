-- ===== src/Hub/Store/Threads.antt =====
-- pkg/hub/store.go: the conversations, their read cursors, and pages of messages. A call that
-- writes returns whether it had no error.
use midas.Common.{
  ℕ, Bool, true, false, ◌&&◌, ◌||◌, Option, none, some, List, [], ◌∷◌, ◌++◌, ◌-◌, ltb,
  if◌then◌else◌, length, drop,
}
use midas.Common.Int.{ℤ, pos, ltb_ℤ, leb_ℤ, eqb_ℤ, pos_part}
use midas.Common.Sort.{sort_stable}
use midas.Common.Text.{Text, text_eq, trim_space, is_empty}
use midas.Hub.{Message, Thread}
use midas.Hub.Store.{
  Externals, File, Store, Hub, WriteStep, write_atomically, lookup, put, read_key, Reads, ThreadMap,
}

abbrev pub empty_thread : Thread
empty_thread = record {
  id = [];
  account = [];
  title = [];
  bridge = [];
  unread = pos 0;
  last_message = pos 0;
  kind = [];
  parent = [];
  participants = [];
  muted = none;
  archived = none;
}

abbrev pub or_zero {ℓ} : {A : Type ℓ} → A → Option A → A
or_zero zero_value none = zero_value
or_zero zero_value (some v) = v

-- A field that the report carries replaces what was known.
abbrev carried {ℓ} : {A : Type ℓ} → List A → List A → List A
carried [] known = known
carried (x ∷ xs) known = x ∷ xs

abbrev reported {ℓ} : {A : Type ℓ} → Option A → Option A → Option A
reported none known = known
reported (some v) known = some v

abbrev pub larger : ℤ → ℤ → ℤ
larger a b = if ltb_ℤ b a then a else b

unfoldable pub merge_thread : Thread → Thread → Thread
merge_thread t known = record {
  id = t.id;
  account = t.account;
  title = carried t.title known.title;
  bridge = carried t.bridge known.bridge;
  unread = larger t.unread known.unread;
  last_message = larger t.last_message known.last_message;
  kind = carried t.kind known.kind;
  parent = carried t.parent known.parent;
  participants = carried t.participants known.participants;
  muted = reported t.muted known.muted;
  archived = reported t.archived known.archived;
}

-- writeAtomic of what json.MarshalIndent gives and a line end, unless that fails.
abbrev pub write_encoded : Option WriteStep → Option Text → File Text → File Text × Bool
write_encoded fault none file = (file, false)
write_encoded fault (some encoded) file = write_atomically fault (encoded ++ 10 ∷ []) file

-- writeThreadsLocked
unfoldable pub write_threads : Externals → Option WriteStep → Hub → Hub × Bool
unfolding write_atomically
write_threads go fault h =
    let w = write_encoded fault (go.marshal_threads h.store.threads) h.disk.threads_file in
    (record h { disk = record h.disk { threads_file = w.0 } }, w.1)

abbrev pub with_threads : Hub → ThreadMap → Hub
with_threads h ts = record h { store = record h.store { threads = ts } }

-- SetThread
unfoldable pub set_thread : Externals → Option WriteStep → Thread → Hub → Hub × Bool
unfolding write_threads merge_thread
set_thread go fault t h =
    if is_empty (trim_space t.account) || is_empty (trim_space t.id)
    then (h, false)
    else let key = read_key t.account t.id in
      let known = or_zero empty_thread (lookup key h.store.threads) in
      write_threads go fault (with_threads h (put key (merge_thread t known) h.store.threads))

unfoldable pub write_reads : Externals → Option WriteStep → Hub → Hub × Bool
unfolding write_atomically
write_reads go fault h =
    let w = write_encoded fault (go.marshal_reads h.store.reads) h.disk.reads_file in
    (record h { disk = record h.disk { reads_file = w.0 } }, w.1)

abbrev pub with_reads : Hub → Reads → Hub
with_reads h rs = record h { store = record h.store { reads = rs } }

-- The part of MarkRead that clears what the service counts as unread.
unfoldable pub clear_unread : Externals → Option WriteStep → Text → Hub → Hub × Bool
unfolding write_threads
clear_unread go fault key h = elim (lookup key h.store.threads) [
  | none ↦ (h, true)
  | some t ↦
      if eqb_ℤ t.unread (pos 0)
      then (h, true)
      else write_threads go fault
          (with_threads h (put key (record t { unread = pos 0 }) h.store.threads))
]

-- The cursor that MarkRead records: the time of the call for 0.
abbrev pub read_up_to : ℤ → ℤ → ℤ
read_up_to now up_to = if eqb_ℤ up_to (pos 0) then now else up_to

-- Whether a cursor is there that is no older.
abbrev pub is_behind : ℤ → Option ℤ → Bool
is_behind up_to none = false
is_behind up_to (some cursor) = leb_ℤ up_to cursor

-- MarkRead; the faults are of the threads' file and of the cursors'.
unfoldable pub mark_read :
    Externals → Option WriteStep → Option WriteStep → ℤ → Text → Text → ℤ → Hub → Hub × Bool
unfolding clear_unread write_reads
mark_read go threads_fault reads_fault now account thread up_to h =
    let key = read_key account thread in
    let at = read_up_to now up_to in
    if is_behind at (lookup key h.store.reads)
    then (h, true)
    else let cleared =
        clear_unread go threads_fault key (with_reads h (put key at h.store.reads)) in
      if cleared.1 then write_reads go reads_fault cleared.0 else cleared

-- The tests of Messages and Threads: an empty account or thread stands for all.
abbrev pub is_for : Text → Text → Bool
is_for wanted actual = is_empty wanted || text_eq actual wanted

abbrev pub matching : Text → Text → List Message → List Message
matching account thread [] = []
matching account thread (m ∷ ms) =
    let rest = matching account thread ms in
    if is_for account m.account && is_for thread m.thread then m ∷ rest else rest

abbrev pub is_no_newer : Message → Message → Bool
is_no_newer a b = leb_ℤ a.timestamp b.timestamp

abbrev pub page_limit : ℤ → ℕ
page_limit limit = if leb_ℤ limit (pos 0) then 50 else pos_part limit

-- Messages
unfoldable pub messages_page : Text → Text → ℤ → Store → List Message
unfolding sort_stable
messages_page account thread limit s =
    let found = sort_stable is_no_newer (matching account thread s.messages) in
    if ltb (page_limit limit) (length found)
    then drop (length found - page_limit limit) found
    else found

-- Count
unfoldable pub count : Store → ℕ
count s = length s.messages
