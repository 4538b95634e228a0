-- ===== src/Hub/Store/Calls/Reopened.antt =====
-- pkg/hub/store.go: OpenStore in a directory that another store has left.
use midas.Common.{◌≡◌, refl, sym, ap, subst, true, Option, some, List, [], ◌∷◌, All, inl, inr}
use midas.Common.Text.{Text}
use midas.Hub.Store.{File, Externals, Hub, lookup}
use midas.Hub.Store.Log.{load}
use midas.Hub.Store.Calls.{Call, after_call, after_calls, open_store, load_map, empty_store, fresh}
use midas.Hub.Store.Calls.Ids.{IsConsistent, IsConsistent-after_calls_from, AreDistinct, IsNamed}
use midas.Hub.Store.Calls.Reopen.{Encodes, load-encode_all}
use midas.Hub.Store.Calls.Maps.{IsLog, IsMapFile, IsSaved, IsSameMap}
use midas.Hub.Store.Calls.Saved.{is_clean, AllEncode, IsSaved-after_calls}

load_map-IsMapFile :
    {A : Type 0} (unmarshal : Text → Option (List (Text × A))) (file : File Text)
    (m : List (Text × A))
    → IsMapFile unmarshal file m
    → (decoded : List (Text × A)) × (load_map unmarshal file ≡ some decoded) × IsSameMap decoded m
load_map-IsMapFile unmarshal file m (inl (e, z)) = ([], rw e refl, λ key. ap (lookup key) (sym z))
load_map-IsMapFile unmarshal file m (inr (text, e, decoded, d, same)) = (decoded, rw e d, same)

load-IsLog :
    (go : Externals) (h : Hub)
    → All (Encodes go) h.store.messages
    → IsConsistent h.store
    → IsLog go h.disk.log h.store.messages
    → load go h.disk.log empty_store
      ≡ some (record empty_store { messages = h.store.messages; by_id = h.store.by_id })
unfolding load
load-IsLog go h enc c (inl (e, z)) = rw (e, c.0, z, load) refl
load-IsLog go h enc c (inr (text, e, q)) =
    rw (e, c.0, load)
      (load-encode_all go h.store.messages empty_store text enc q (subst AreDistinct c.0 c.1)
        (subst (All IsNamed) c.0 c.2))

-- The store that opening a directory gives holds what another one holds.
abbrev pub Reopens : Externals → Hub → Type 0
Reopens go h =
    (again : Hub) × (open_store go h.disk ≡ some again)
    × (again.disk ≡ h.disk)
    × (again.store.messages ≡ h.store.messages)
    × (again.store.by_id ≡ h.store.by_id)
    × IsSameMap again.store.reads h.store.reads
    × IsSameMap again.store.threads h.store.threads

open_store-IsSaved :
    (go : Externals) (h : Hub)
    → All (Encodes go) h.store.messages
    → IsConsistent h.store
    → IsSaved go h
    → Reopens go h
unfolding open_store
open_store-IsSaved go h enc c s =
    let (reads, r, same_reads) =
      load_map-IsMapFile go.unmarshal_reads h.disk.reads_file h.store.reads s.1 in
    let (threads, t, same_threads) =
      load_map-IsMapFile go.unmarshal_threads h.disk.threads_file h.store.threads s.2 in
    (
      record { store = record h.store { reads = reads; threads = threads }; disk = h.disk },
      rw (open_store, load-IsLog go h enc c s.0, r, t) refl,
      refl,
      refl,
      refl,
      same_reads,
      same_threads,
    )

AllEncode-last :
    (go : Externals) (h : Hub) (ks : List Call)
    → All (Encodes go) h.store.messages
    → AllEncode go h ks
    → All (Encodes go) (after_calls go h ks).store.messages
unfolding after_calls
AllEncode-last go h [] e enc = e
AllEncode-last go h (k ∷ ks) e enc = AllEncode-last go (after_call go h k) ks enc.0.0 enc.1

-- Whatever calls are made on a store that was opened in an empty directory: if no write of theirs
-- fails and encoding/json reads back what it writes, on the way, for each message that the store
-- holds and for the two maps of cursors and of conversations as wholes, then a store can be opened
-- in the same directory afterwards, and it has the same messages in the same order, the same known
-- identifiers, and for each account and thread the same read cursor and the same conversation.
pub open_store-after_calls :
    (go : Externals) (ks : List Call)
    → All (λ k. is_clean k ≡ true) ks
    → AllEncode go fresh ks
    → Reopens go (after_calls go fresh ks)
open_store-after_calls go ks clean enc =
    open_store-IsSaved go (after_calls go fresh ks) (AllEncode-last go fresh ks tt enc)
      (IsConsistent-after_calls_from go fresh ks (refl, tt, tt))
      (IsSaved-after_calls go fresh ks clean enc
        (inl (refl, refl), inl (refl, refl), inl (refl, refl)))
