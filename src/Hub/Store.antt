-- ===== src/Hub/Store.antt =====
-- pkg/hub/store.go: the messages in memory and in their log, and the files beside it. A call is one
-- step, since the mutex is held throughout.
pub mod Log
pub mod Changes
pub mod Threads
pub mod Listing
pub mod Calls
use midas.Common.{
  ℕ, Bool, true, false, not, ◌&&◌, ◌||◌, Option, none, some, List, [], ◌∷◌, ◌++◌, any,
  if◌then◌else◌, ◌==◌, take, leb, length, ◌^◌, map,
}
use midas.Common.Int.{ℤ}
use midas.Common.Text.{Text, text_eq, trim_space, is_empty}
use midas.Hub.{Message, Thread}

-- What the package calls of encoding/json and of package strings.
pub record Externals : Type 0 where
  pub marshal : Message → Option Text
  pub unmarshal : Text → Option Message
  pub equal_fold : Text → Text → Bool
  pub marshal_reads : List (Text × ℤ) → Option Text
  pub unmarshal_reads : Text → Option (List (Text × ℤ))
  pub marshal_threads : List (Text × Thread) → Option Text
  pub unmarshal_threads : Text → Option (List (Text × Thread))

-- A file with its text, or none that can be read.
pub data File {ℓ} (A : Type ℓ) : Type ℓ where
  missing unreadable : File A
  holds : A → File A

-- A map of Go, as its keys and values in no particular order.
module _ {ℓ} {A : Type ℓ} where
  abbrev pub lookup : Text → List (Text × A) → Option A
  lookup k [] = none
  lookup k (e ∷ m) = if text_eq k e.0 then some e.1 else lookup k m

  abbrev pub put : Text → A → List (Text × A) → List (Text × A)
  put k v [] = (k, v) ∷ []
  put k v (e ∷ m) = let rest = put k v m in if text_eq k e.0 then (k, v) ∷ m else e ∷ rest

abbrev pub Reads : Type 0
Reads = List (Text × ℤ)

abbrev pub ThreadMap : Type 0
ThreadMap = List (Text × Thread)

-- Store; `by_id` is the set of the identifiers, as a list.
pub record Store : Type 0 where
  pub messages : List Message
  pub by_id : List Text
  pub reads : Reads
  pub threads : ThreadMap

-- The state directory.
pub record Disk : Type 0 where
  pub log : File Text
  pub reads_file : File Text
  pub threads_file : File Text

pub record Hub : Type 0 where
  pub store : Store
  pub disk : Disk

-- readKey
unfoldable pub read_key : Text → Text → Text
read_key account thread = account ++ 0 ∷ thread

abbrev pub is_known : List Text → Text → Bool
is_known ids id = any (text_eq id) ids

-- The steps of writeAtomic.
pub data WriteStep : Type 0 where
  make_directory create_temporary write_temporary protect close rename : WriteStep

-- writeAtomic: a step that fails leaves the file as it was. The temporary file is not modelled.
unfoldable pub write_atomically {ℓ} : {A : Type ℓ} → Option WriteStep → A → File A → File A × Bool
write_atomically none new file = (holds new, true)
write_atomically (some _) new file = (file, false)
