-- ===== src/Hub/Store/Calls/Saved.antt =====
-- pkg/hub/store.go: the files of the state directory beside the memory, under calls without faults.
use mathlib.Core.Bool.{true≢false}
use mathlib.Core.Option.{some-injective}
use midas.Common.{
  ℕ, ◌≡◌, refl, sym, ap, ◌∙◌, subst, Bool, true, false, ◌&&◌, ◌||◌, Option, none, some, List, [],
  ◌∷◌, ◌++◌, get_elem?, set, All, arith, Bool-cases, inl, inr, Option-cases, append-nil,
  append_assoc,
}
use midas.Common.Text.{Text, is_empty}
use midas.Hub.{Message}
use midas.Hub.Store.{File, holds, Externals, Hub, is_known, write_atomically}
use midas.Hub.Store.Log.{ended, encode_all, append_to, write_line, rewrite_messages}
use midas.Hub.Store.Changes.{
  append, change_at, change_index, change, edit, delete, react, edited_message, deleted_message,
  reacted_message,
}
use midas.Hub.Store.Calls.{
  Call, append_call, edit_call, delete_call, react_call, thread_call, read_call, after_call,
  after_calls,
}
use midas.Hub.Store.Calls.Reopen.{Encodes}
use midas.Hub.Store.Calls.Maps.{IsLog, IsSaved, StoreEncodes, IsSaved-set_thread, IsSaved-mark_read}

abbrev is_none {ℓ} : {A : Type ℓ} → Option A → Bool
is_none none = true
is_none (some _) = false

-- A call whose writes meet no error.
abbrev pub is_clean : Call → Bool
is_clean (append_call fault m) = is_none fault
is_clean (edit_call fault account id text at) = is_none fault
is_clean (delete_call fault account id) = is_none fault
is_clean (react_call fault account id r) = is_none fault
is_clean (thread_call fault t) = is_none fault
is_clean (read_call f g now account thread up_to) = is_none f && is_none g

encode_all-append :
    (go : Externals) (ms : List Message) (m : Message) (text line : Text)
    → encode_all go ms ≡ some text
    → go.marshal m ≡ some line
    → encode_all go (ms ++ m ∷ []) ≡ some (text ++ ended line)
encode_all-append go [] m text line e p =
    rw p (ap some (append-nil (ended line) ∙ ap (λ t. t ++ ended line) (some-injective _ _ e)))
encode_all-append go (k ∷ ms) m text line e p = elim (Option-cases (go.marshal k)) [
  | inl q ↦ absurd (ground arith)
  | inr (first, q) ↦ elim (Option-cases (encode_all go ms)) [
    | inl r ↦ absurd (ground arith)
    | inr (rest, r) ↦
        let whole : ended first ++ rest ≡ text = ground arith in
        rw (q, encode_all-append go ms m rest line r p)
          (ap some
            (sym (append_assoc (ended first) rest (ended line)) ∙ ap (λ t. t ++ ended line) whole))
  ]
]

encode_all-some :
    (go : Externals) (ms : List Message)
    → All (Encodes go) ms
    → (text : Text) × (encode_all go ms ≡ some text)
encode_all-some go [] h = ([], refl)
encode_all-some go (m ∷ ms) ((line, p, _, _, _, _, _), hs) =
    let (text, q) = encode_all-some go ms hs in (ended line ++ text, rw (encode_all, p, q) refl)

rewrite_messages_lem :
    (go : Externals) (ms : List Message) (log : File Text) (text : Text)
    → encode_all go ms ≡ some text
    → rewrite_messages go none ms log ≡ (holds text, true)
unfolding rewrite_messages write_atomically
rewrite_messages_lem go ms log text q = rw (rewrite_messages, q) refl

All-last :
    (go : Externals) (ms : List Message) (m : Message)
    → All (Encodes go) (ms ++ m ∷ [])
    → Encodes go m
All-last go [] m h = h.0
All-last go (k ∷ ms) m h = All-last go ms m h.1

IsLog-append_to :
    (go : Externals) (log : File Text) (ms : List Message) (m : Message) (line : Text)
    → go.marshal m ≡ some line
    → IsLog go log ms
    → IsLog go (append_to (ended line) log) (ms ++ m ∷ [])
IsLog-append_to go log ms m line p (inl (e, z)) =
    rw (e, z) (inr (ended line, refl, rw p (ap some (append-nil (ended line)))))
IsLog-append_to go log ms m line p (inr (text, e, q)) =
    rw e (inr (text ++ ended line, refl, encode_all-append go ms m text line q p))

IsSaved-append :
    (go : Externals) (m : Message) (h : Hub)
    → All (Encodes go) (append go none m h).0.store.messages
    → IsSaved go h
    → IsSaved go (append go none m h).0
unfolding append write_line
IsSaved-append go m h enc s = elim (Bool-cases (is_empty m.id || is_known h.store.by_id m.id)) [
  | inl p ↦ rw p s
  | inr p ↦
      let added : (append go none m h).0.store.messages ≡ h.store.messages ++ m ∷ [] = rw p refl in
      let enc' = All-last go h.store.messages m (subst (All (Encodes go)) added enc) in
      rw (p, write_line, enc'.1)
        (IsLog-append_to go h.disk.log h.store.messages m enc'.0 enc'.1 s.0, s.1, s.2)
]

module _ (go : Externals) (edited : Message → Message) (h : Hub) where
  IsSaved-change_at :
      (i : ℕ) (o : Option Message)
      → All (Encodes go) (change_at go none edited h i o).0.store.messages
      → IsSaved go h
      → IsSaved go (change_at go none edited h i o).0
  IsSaved-change_at i none enc s = s
  IsSaved-change_at i (some m) enc s =
      let (text, q) = encode_all-some go (set h.store.messages i (edited m)) enc in
      rw (rewrite_messages_lem go (set h.store.messages i (edited m)) h.disk.log text q)
        (inr (text, refl, q), s.1, s.2)

  IsSaved-change_index :
      (o : Option ℕ)
      → All (Encodes go) (change_index go none edited h o).0.store.messages
      → IsSaved go h
      → IsSaved go (change_index go none edited h o).0
  IsSaved-change_index none enc s = s
  IsSaved-change_index (some i) enc s = IsSaved-change_at i (get_elem? h.store.messages i) enc s

IsSaved-after_call :
    (go : Externals) (h : Hub) (k : Call)
    → is_clean k ≡ true
    → StoreEncodes go (after_call go h k).store
    → IsSaved go h
    → IsSaved go (after_call go h k)
unfolding after_call edit delete react change
IsSaved-after_call go h (append_call none m) c enc s = IsSaved-append go m h enc.0 s
IsSaved-after_call go h (edit_call none account id text at) c enc s =
    IsSaved-change_index go (edited_message go text at) h _ enc.0 s
IsSaved-after_call go h (delete_call none account id) c enc s =
    IsSaved-change_index go (deleted_message go) h _ enc.0 s
IsSaved-after_call go h (react_call none account id r) c enc s =
    IsSaved-change_index go (reacted_message go r) h _ enc.0 s
IsSaved-after_call go h (thread_call none t) c enc s = IsSaved-set_thread go t h enc s
IsSaved-after_call go h (read_call none none now account thread up_to) c enc s =
    IsSaved-mark_read go now account thread up_to h enc s
IsSaved-after_call go h (append_call (some f) m) c enc s = absurd (true≢false (sym c))
IsSaved-after_call go h (edit_call (some f) account id text at) c enc s =
    absurd (true≢false (sym c))
IsSaved-after_call go h (delete_call (some f) account id) c enc s = absurd (true≢false (sym c))
IsSaved-after_call go h (react_call (some f) account id r) c enc s = absurd (true≢false (sym c))
IsSaved-after_call go h (thread_call (some f) t) c enc s = absurd (true≢false (sym c))
IsSaved-after_call go h (read_call (some f) g now account thread up_to) c enc s =
    absurd (true≢false (sym c))
IsSaved-after_call go h (read_call none (some g) now account thread up_to) c enc s =
    absurd (true≢false (sym c))

-- What the store holds after each of the calls can be read back.
abbrev pub AllEncode : Externals → Hub → List Call → Type 0
AllEncode go h [] = Unit
AllEncode go h (k ∷ ks) =
    StoreEncodes go (after_call go h k).store × AllEncode go (after_call go h k) ks

pub IsSaved-after_calls :
    (go : Externals) (h : Hub) (ks : List Call)
    → All (λ k. is_clean k ≡ true) ks
    → AllEncode go h ks
    → IsSaved go h
    → IsSaved go (after_calls go h ks)
unfolding after_calls
IsSaved-after_calls go h [] c enc s = s
IsSaved-after_calls go h (k ∷ ks) c enc s =
    IsSaved-after_calls go (after_call go h k) ks c.1 enc.1 (IsSaved-after_call go h k c.0 enc.0 s)
