-- ===== src/Hub/Examples.antt =====
-- pkg/hub: the theorems and the definitions at concrete inputs.
use midas.Common.{
  All, ◌≡◌, refl, true, false, none, some, List, [], ◌∷◌, ◌++◌, if◌then◌else◌, map, arith,
}
use midas.Common.Int.{ℤ, pos, ◌+ℤ◌}
use midas.Common.Sort.{sort_stable}
use midas.Common.Text.{Text, codes, text_eq, trim_space, is_empty}
use midas.Hub.{Message, Reaction, Thread}
use midas.Hub.Store.{Externals, Reads, Disk, Hub, missing, holds, rename, read_key}
use midas.Hub.Store.Log.{stops_after, load_line, load_message}
use midas.Hub.Store.Changes.{is_named, index_locked, is_of, fold_reaction}
use midas.Hub.Store.Threads.{messages_page, set_thread, mark_read, empty_thread}
use midas.Hub.Store.Listing.{threads, is_unread}
use midas.Hub.Store.Calls.{
  Call, append_call, edit_call, react_call, read_call, after_calls, open_store, fresh,
}
use midas.Hub.Store.Calls.Ids.{IsConsistent, IsConsistent-after_calls}
use midas.Hub.Store.Calls.Reopen.{Encodes}
use midas.Hub.Store.Calls.Maps.{EncodesMap}
use midas.Hub.Store.Calls.Reopened.{Reopens, open_store-after_calls}
use midas.Hub.Store.Calls.Reads.{stays_read}

abbrev message : Text → Text → ℤ → Message
message id text timestamp = record {
  id = id;
  account = codes "me";
  thread = codes "team";
  sender = codes "ann";
  text = text;
  timestamp = timestamp;
  incoming = true;
  kind = [];
  media = [];
  reply_to = [];
  reactions = [];
  edited = false;
  deleted = false;
  status = [];
  error = [];
}

abbrev first : Message
first = message (codes "a") (codes "hello") (pos 10)

abbrev second : Message
second = message (codes "b") (codes "there") (pos 20)

abbrev team_cursor : Reads
team_cursor = (read_key (codes "me") (codes "team"), pos 15) ∷ []

-- A stand-in for the JSON of two messages, of one cursor, and of maps that hold nothing.
abbrev go : Externals
go = record {
  marshal = λ m. some (123 ∷ m.id ++ 125 ∷ []);
  unmarshal = λ line.
      if text_eq line (codes "{a}")
      then some first
      else if text_eq line (codes "{b}")
      then some second
      else none;
  equal_fold = text_eq;
  marshal_reads = λ m. some (if is_empty m then codes "{}" else codes "{15}");
  unmarshal_reads = λ text.
      if text_eq text (codes "{}" ++ 10 ∷ [])
      then some []
      else if text_eq text (codes "{15}" ++ 10 ∷ [])
      then some team_cursor
      else none;
  marshal_threads = λ m. if is_empty m then some (codes "{}") else none;
  unmarshal_threads = λ text. if text_eq text (codes "{}" ++ 10 ∷ []) then some [] else none;
}

-- A log with a line that does not decode, a message that stands twice, and a last line without end.
abbrev old_log : Text
old_log = codes "{a}" ++ 10 ∷ codes "{" ++ 10 ∷ codes " {a} " ++ 10 ∷ 10 ∷ codes "{b}"

abbrev old_disk : Disk
old_disk = record { log = holds old_log; reads_file = missing; threads_file = missing }

abbrev opened : Hub
opened = record {
  store = record {
    messages = first ∷ second ∷ [];
    by_id = codes "a" ∷ codes "b" ∷ [];
    reads = [];
    threads = [];
  };
  disk = old_disk;
}

opens : open_store go old_disk ≡ some opened
unfolding open_store load_line load_message trim_space text_eq
opens = refl

-- A correction whose file cannot be replaced, and a message that is stored already.
abbrev faulty : List Call
faulty =
    edit_call (some rename) (codes "me") (codes "a") (codes "bye") (pos 30)
    ∷ append_call (some (stops_after 2)) second
    ∷ []

IsConsistent-after_calls_example : IsConsistent (after_calls go opened faulty).store
IsConsistent-after_calls_example = IsConsistent-after_calls go old_disk opened faulty opens

abbrev session : List Call
session =
    append_call none first
    ∷ read_call none none (pos 99) (codes "me") (codes "team") (pos 15)
    ∷ append_call none second
    ∷ append_call none first
    ∷ []

Encodes-first : Encodes go first
unfolding trim_space text_eq
Encodes-first = (codes "{a}", refl, refl, (refl, (refl, (refl, tt))), refl, refl, refl)

Encodes-second : Encodes go second
unfolding trim_space text_eq
Encodes-second = (codes "{b}", refl, refl, (refl, (refl, (refl, tt))), refl, refl, refl)

-- The maps of the session: no cursor or the one, and no conversation.
no_reads : EncodesMap go.marshal_reads go.unmarshal_reads []
unfolding text_eq
no_reads = (codes "{}", refl, [], refl, λ key. refl)

one_cursor : EncodesMap go.marshal_reads go.unmarshal_reads team_cursor
unfolding text_eq
one_cursor = (codes "{15}", refl, team_cursor, refl, λ key. refl)

no_threads : EncodesMap go.marshal_threads go.unmarshal_threads []
unfolding text_eq
no_threads = (codes "{}", refl, [], refl, λ key. refl)

open_store-after_calls_example : Reopens go (after_calls go fresh session)
unfolding after_calls text_eq
open_store-after_calls_example =
    open_store-after_calls go session (refl, (refl, (refl, (refl, tt))))
      (
        (one, no_reads, no_threads),
        (
          (one, one_cursor, no_threads),
          ((two, one_cursor, no_threads), ((two, one_cursor, no_threads), tt)),
        ),
      )
  where
    one : All (Encodes go) (first ∷ [])
    one = (Encodes-first, tt)

    two : All (Encodes go) (first ∷ second ∷ [])
    two = (Encodes-first, (Encodes-second, tt))

abbrev marked : Hub
marked = (mark_read go none none (pos 99) (codes "me") (codes "team") (pos 15) opened).0

abbrev older : List Call
older = read_call none none (pos 99) (codes "me") (codes "team") (pos 5) ∷ []

stays_read_example : is_unread (after_calls go marked older).store.reads first ≡ false
stays_read_example =
    stays_read go none none (pos 99) (codes "me") (codes "team") (pos 15) opened older first refl
      (omega arith)

newest_page : messages_page (codes "me") (codes "team") (pos 1) opened.store ≡ second ∷ []
unfolding messages_page sort_stable text_eq
newest_page = refl

abbrev thumbs : Reaction
thumbs = record { emoji = codes "+1"; sender = codes " bob"; at = pos 1; removed = false }

abbrev reacted : List Call
reacted = react_call none [] (codes "b") thumbs ∷ react_call none [] (codes "b") thumbs ∷ []

reacts_once :
    map (λ m. m.reactions) (after_calls go opened reacted).store.messages ≡ [] ∷ (thumbs ∷ []) ∷ []
unfolding after_calls trim_space index_locked is_named text_eq fold_reaction is_of
reacts_once = refl

abbrev described : Thread
described = record empty_thread { id = codes "team"; account = codes "me"; unread = pos 3 }

unread_threads :
    map (λ t. t.unread) (threads [] (set_thread go none described opened).0.store) ≡ pos 5 ∷ []
unfolding threads set_thread trim_space text_eq read_key ◌+ℤ◌
unread_threads = refl
