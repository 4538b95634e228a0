-- ===== src/Hub/Store/Calls.antt =====
-- pkg/hub/store.go: the calls on an open store in any order, and the opening.
pub mod Ids
pub mod Reopen
pub mod Maps
pub mod Saved
pub mod Reopened
pub mod Reads
pub mod Pages
use midas.Common.{ℕ, ◌≡◌, Bool, Option, none, some, List, [], ◌∷◌}
use midas.Common.Int.{ℤ}
use midas.Common.Text.{Text}
use midas.Hub.{Message, Reaction, Thread}
use midas.Hub.Store.{Externals, File, missing, unreadable, holds, Store, Disk, Hub, WriteStep}
use midas.Hub.Store.Log.{LineFault, load}
use midas.Hub.Store.Changes.{append, edit, delete, react}
use midas.Hub.Store.Threads.{set_thread, mark_read}

abbrev pub empty_store : Store
empty_store = record { messages = []; by_id = []; reads = []; threads = [] }

-- loadReads and loadThreads: `none` is an error.
abbrev pub load_map {ℓ} : {A : Type ℓ} → (Text → Option (List A)) → File Text → Option (List A)
load_map decode missing = some []
load_map decode unreadable = none
load_map decode (holds text) = decode text

-- OpenStore, in a directory that is there or can be made.
unfoldable pub open_store : Externals → Disk → Option Hub
unfolding load
open_store go disk = elim (load go disk.log empty_store) [
  | none ↦ none
  | some s ↦ elim (load_map go.unmarshal_reads disk.reads_file) [
    | none ↦ none
    | some reads ↦ elim (load_map go.unmarshal_threads disk.threads_file) [
      | none ↦ none
      | some threads ↦
          some (record { store = record s { reads = reads; threads = threads }; disk = disk })
    ]
  ]
]

-- One call, with the faults of its writes and the time it sees.
pub data Call : Type 0 where
  append_call : Option LineFault → Message → Call
  edit_call : Option WriteStep → Text → Text → Text → ℤ → Call
  delete_call : Option WriteStep → Text → Text → Call
  react_call : Option WriteStep → Text → Text → Reaction → Call
  thread_call : Option WriteStep → Thread → Call
  read_call : Option WriteStep → Option WriteStep → ℤ → Text → Text → ℤ → Call

unfoldable pub after_call : Externals → Hub → Call → Hub
unfolding append edit delete react set_thread mark_read
after_call go h (append_call fault m) = (append go fault m h).0
after_call go h (edit_call fault account id text at) = (edit go fault account id text at h).0
after_call go h (delete_call fault account id) = (delete go fault account id h).0
after_call go h (react_call fault account id r) = (react go fault account id r h).0
after_call go h (thread_call fault t) = (set_thread go fault t h).0
after_call go h (read_call threads_fault reads_fault now account thread up_to) =
    (mark_read go threads_fault reads_fault now account thread up_to h).0

unfoldable pub after_calls : Externals → Hub → List Call → Hub
unfolding after_call
after_calls go h [] = h
after_calls go h (c ∷ cs) = after_calls go (after_call go h c) cs

-- A directory that nothing has been written to, and the store opened in it.
abbrev pub fresh : Hub
fresh = record {
  store = empty_store;
  disk = record { log = missing; reads_file = missing; threads_file = missing };
}
