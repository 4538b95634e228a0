-- ===== src/Hub/Store/Calls/Maps.antt =====
-- pkg/hub/store.go: what the files of the state directory hold, and the writing of the two maps.
use midas.Common.{
  ◌≡◌, refl, sym, subst, true, false, ◌||◌, Option, none, some, List, [], ◌∷◌, ◌++◌, if◌then◌else◌,
  All, arith, Bool-cases, inl, inr, ◌⊎◌, Option-cases,
}
use midas.Common.Int.{ℤ, pos, eqb_ℤ}
use midas.Common.Text.{Text, is_empty, trim_space}
use midas.Hub.{Message, Thread}
use midas.Hub.Store.{
  File, missing, holds, Externals, Hub, Store, put, ThreadMap, write_atomically, lookup, read_key,
}
use midas.Hub.Store.Log.{encode_all}
use midas.Hub.Store.Threads.{
  set_thread, mark_read, write_threads, write_reads, write_encoded, with_threads, with_reads,
  clear_unread, read_up_to, is_behind,
}
use midas.Hub.Store.Calls.Reopen.{Encodes}

-- The log holds the messages, a file holds a map.
abbrev pub IsLog : Externals → File Text → List Message → Type 0
IsLog go log ms =
    ((log ≡ missing) × (ms ≡ []))
    ⊎ ((text : Text) × (log ≡ holds text) × (encode_all go ms ≡ some text))

-- Two maps that give the same value for every key, in whatever order they hold them.
abbrev pub IsSameMap : {A : Type 0} → List (Text × A) → List (Text × A) → Type 0
IsSameMap m n = (key : Text) → lookup key m ≡ lookup key n

-- A map that encoding/json reads back from the text that it writes for it and the line end behind
-- it. A map with a text that is not UTF-8 is none.
abbrev pub EncodesMap :
    {A : Type 0}
    → (List (Text × A) → Option Text)
    → (Text → Option (List (Text × A)))
    → List (Text × A)
    → Type 0
EncodesMap {A} marshal unmarshal m =
    (encoded : Text) × (marshal m ≡ some encoded)
    × (decoded : List (Text × A)) × (unmarshal (encoded ++ 10 ∷ []) ≡ some decoded)
    × IsSameMap decoded m

-- The file of a map gives the map when it is read.
abbrev pub IsMapFile :
    {A : Type 0} → (Text → Option (List (Text × A))) → File Text → List (Text × A) → Type 0
IsMapFile {A} unmarshal file m =
    ((file ≡ missing) × (m ≡ []))
    ⊎ ((text : Text) × (file ≡ holds text)
        × (decoded : List (Text × A)) × (unmarshal text ≡ some decoded)
        × IsSameMap decoded m)

abbrev pub IsSaved : Externals → Hub → Type 0
IsSaved go h =
    IsLog go h.disk.log h.store.messages
    × IsMapFile go.unmarshal_reads h.disk.reads_file h.store.reads
    × IsMapFile go.unmarshal_threads h.disk.threads_file h.store.threads

-- Everything that the store holds can be read back from its encoding.
abbrev pub StoreEncodes : Externals → Store → Type 0
StoreEncodes go s =
    All (Encodes go) s.messages
    × EncodesMap go.marshal_reads go.unmarshal_reads s.reads
    × EncodesMap go.marshal_threads go.unmarshal_threads s.threads

set_thread_writes :
    (go : Externals) (t : Thread) (h : Hub)
    → (is_empty (trim_space t.account) || is_empty (trim_space t.id)) ≡ false
    → (set_thread go none t h).0
      ≡ (write_threads go none (with_threads h (set_thread go none t h).0.store.threads)).0
unfolding set_thread write_threads
set_thread_writes go t h p = rw p refl

IsSaved-write_threads :
    (go : Externals) (h : Hub)
    → EncodesMap go.marshal_threads go.unmarshal_threads h.store.threads
    → IsLog go h.disk.log h.store.messages
    → IsMapFile go.unmarshal_reads h.disk.reads_file h.store.reads
    → IsSaved go (write_threads go none h).0 × ((write_threads go none h).1 ≡ true)
unfolding write_threads write_atomically
IsSaved-write_threads go h (encoded, e, decoded, d, same) log reads =
    rw (write_encoded, e) ((log, reads, inr (encoded ++ 10 ∷ [], refl, decoded, d, same)), refl)

IsSaved-write_reads :
    (go : Externals) (h : Hub)
    → EncodesMap go.marshal_reads go.unmarshal_reads h.store.reads
    → IsLog go h.disk.log h.store.messages
    → IsMapFile go.unmarshal_threads h.disk.threads_file h.store.threads
    → IsSaved go (write_reads go none h).0
unfolding write_reads write_atomically
IsSaved-write_reads go h (encoded, e, decoded, d, same) log threads =
    rw (write_encoded, e) (log, inr (encoded ++ 10 ∷ [], refl, decoded, d, same), threads)

pub IsSaved-set_thread :
    (go : Externals) (t : Thread) (h : Hub)
    → StoreEncodes go (set_thread go none t h).0.store
    → IsSaved go h
    → IsSaved go (set_thread go none t h).0
unfolding set_thread
IsSaved-set_thread go t h enc s =
    elim (Bool-cases (is_empty (trim_space t.account) || is_empty (trim_space t.id))) [
      | inl p ↦ rw (set_thread, p) s
      | inr p ↦
          let h' = with_threads h (set_thread go none t h).0.store.threads in
          subst (IsSaved go) (sym (set_thread_writes go t h p))
            (IsSaved-write_threads go h' enc.2 s.0 s.1).0
    ]

-- The hub of a MarkRead that moves the cursor, before anything is written.
recorded : Text → ℤ → Hub → Hub
recorded key at h = with_reads h (put key at h.store.reads)

IsSaved-cleared :
    (go : Externals) (key : Text) (h : Hub)
    → EncodesMap go.marshal_threads go.unmarshal_threads
        (clear_unread go none key h).0.store.threads
    → IsLog go h.disk.log h.store.messages
    → IsMapFile go.unmarshal_threads h.disk.threads_file h.store.threads
    → IsLog go (clear_unread go none key h).0.disk.log (clear_unread go none key h).0.store.messages
      × IsMapFile go.unmarshal_threads
          (clear_unread go none key h).0.disk.threads_file
          (clear_unread go none key h).0.store.threads
      × ((clear_unread go none key h).1 ≡ true)
unfolding clear_unread write_threads write_atomically
IsSaved-cleared go key h enc log threads = elim (Option-cases (lookup key h.store.threads)) [
  | inl q ↦ rw (clear_unread, q) (log, threads, refl)
  | inr (t, q) ↦ elim (Bool-cases (eqb_ℤ t.unread (pos 0))) [
    | inl r ↦ rw (clear_unread, q, r) (log, threads, refl)
    | inr r ↦
        let cleared : ThreadMap = put key (record t { unread = pos 0 }) h.store.threads in
        let same : (clear_unread go none key h).0.store.threads ≡ cleared =
          rw (clear_unread, q, r) refl in
        let (encoded, e, decoded, d, m) =
          subst (EncodesMap go.marshal_threads go.unmarshal_threads) same enc in
        rw (clear_unread, q, r, write_encoded, e)
          (log, inr (encoded ++ 10 ∷ [], refl, decoded, d, m), refl)
  ]
]

mark_read_writes :
    (go : Externals) (now : ℤ) (account thread : Text) (up_to : ℤ) (h : Hub)
    → is_behind (read_up_to now up_to) (lookup (read_key account thread) h.store.reads) ≡ false
    → let key = read_key account thread in
      let cleared = clear_unread go none key (recorded key (read_up_to now up_to) h) in
      (mark_read go none none now account thread up_to h).0
      ≡ (if cleared.1 then write_reads go none cleared.0 else cleared).0
unfolding mark_read recorded
mark_read_writes go now account thread up_to h p = rw p refl

store-mark_read :
    (go : Externals) (now : ℤ) (account thread : Text) (up_to : ℤ) (h : Hub)
    → is_behind (read_up_to now up_to) (lookup (read_key account thread) h.store.reads) ≡ false
    → let key = read_key account thread in
      (mark_read go none none now account thread up_to h).0.store
      ≡ (clear_unread go none key (recorded key (read_up_to now up_to) h)).0.store
unfolding mark_read recorded write_reads
store-mark_read go now account thread up_to h p = ground (arith, p)

pub IsSaved-mark_read :
    (go : Externals) (now : ℤ) (account thread : Text) (up_to : ℤ) (h : Hub)
    → StoreEncodes go (mark_read go none none now account thread up_to h).0.store
    → IsSaved go h
    → IsSaved go (mark_read go none none now account thread up_to h).0
unfolding recorded mark_read
IsSaved-mark_read go now account thread up_to h enc s =
    let key = read_key account thread in
    elim (Bool-cases (is_behind (read_up_to now up_to) (lookup key h.store.reads))) [
      | inl p ↦ rw (mark_read, p) s
      | inr p ↦
          let marked = recorded key (read_up_to now up_to) h in
          let enc' =
            subst (StoreEncodes go) (store-mark_read go now account thread up_to h p) enc in
          let (log, threads, ok) = IsSaved-cleared go key marked enc'.2 s.0 s.2 in
          subst (IsSaved go) (sym (mark_read_writes go now account thread up_to h p))
            (rw ok (IsSaved-write_reads go (clear_unread go none key marked).0 enc'.1 log threads))
    ]
