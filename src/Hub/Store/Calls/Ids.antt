-- ===== src/Hub/Store/Calls/Ids.antt =====
-- pkg/hub/store.go: the identifiers of the messages, under all calls and faults.
use midas.Common.{
  ℕ, suc, zero, ◌≡◌, refl, sym, ap, ◌∙◌, subst, false, ◌||◌, Option, none, some, List, [], ◌∷◌,
  ◌++◌, get_elem?, set, All, arith, Bool-cases, inl, inr, Option-cases, All-append,
}
use mathlib.Core.Bool.{true≢false}
use mathlib.Core.Option.{some-injective}
use midas.Common.Text.{Text, text_eq, text_eq→eq, text_eq_refl, is_empty, trim_space}
use midas.Common.Int.{ℤ}
use midas.Hub.{Message, Thread}
use midas.Hub.Store.{
  File, missing, unreadable, holds, Externals, Store, Disk, Hub, is_known, WriteStep,
}
use midas.Hub.Store.Log.{
  LineFault, load_decoded, load_message, load_line, load_lines, is_too_long, lines, load,
}
use midas.Hub.Store.Changes.{append, change, change_at, change_index, edit, delete, react}
use midas.Hub.Store.Threads.{set_thread, mark_read, write_threads, write_reads, clear_unread}
use midas.Hub.Store.Calls.{
  Call, append_call, edit_call, delete_call, react_call, thread_call, read_call, after_call,
  after_calls, open_store, load_map, empty_store,
}

abbrev pub ids : List Message → List Text
ids [] = []
ids (m ∷ ms) = m.id ∷ ids ms

abbrev pub AreDistinct : List Text → Type 0
AreDistinct [] = Unit
AreDistinct (x ∷ xs) = (is_known xs x ≡ false) × AreDistinct xs

abbrev pub IsNamed : Text → Type 0
IsNamed id = is_empty id ≡ false

-- What the calls keep of a store.
abbrev pub IsConsistent : Store → Type 0
IsConsistent s = (s.by_id ≡ ids s.messages) × AreDistinct s.by_id × All IsNamed s.by_id

pub is_known-append :
    (xs ys : List Text) (x : Text) → is_known (xs ++ ys) x ≡ (is_known xs x || is_known ys x)
is_known-append [] ys x = refl
is_known-append (y ∷ xs) ys x = ground (arith, is_known-append xs ys x)

pub text_eq-swap : (s t : Text) → text_eq s t ≡ false → text_eq t s ≡ false
text_eq-swap s t h = elim (Bool-cases (text_eq t s)) [
  | inl e ↦ absurd (true≢false (sym (text_eq_refl s) ∙ ap (text_eq s) (sym (text_eq→eq t s e)) ∙ h))
  | inr e ↦ e
]

AreDistinct-append :
    (xs : List Text) (x : Text)
    → AreDistinct xs
    → is_known xs x ≡ false
    → AreDistinct (xs ++ x ∷ [])
AreDistinct-append [] x d h = (refl, tt)
AreDistinct-append (y ∷ xs) x d h = (
  ground (arith, is_known-append xs (x ∷ []) y, text_eq-swap x y, d, h),
  AreDistinct-append xs x d.1 (ground (arith, h)),
)

ids-append : (ms : List Message) (m : Message) → ids (ms ++ m ∷ []) ≡ ids ms ++ m.id ∷ []
ids-append [] m = refl
ids-append (k ∷ ms) m = ap (k.id ∷◌) (ids-append ms m)

pub ids-set :
    (ms : List Message) (i : ℕ) (m k : Message)
    → get_elem? ms i ≡ some m
    → k.id ≡ m.id
    → ids (set ms i k) ≡ ids ms
ids-set [] i m k e h = refl
ids-set (x ∷ ms) zero m k e h =
    ap (λ y. y ∷ ids ms) (h ∙ ap (λ y. y.id) (sym (some-injective _ _ e)))
ids-set (x ∷ ms) (suc i) m k e h = ap (x.id ∷◌) (ids-set ms i m k e h)

IsConsistent-added :
    (s : Store) (m : Message)
    → is_empty m.id ≡ false
    → is_known s.by_id m.id ≡ false
    → IsConsistent s
    → IsConsistent (record s { messages = s.messages ++ m ∷ []; by_id = s.by_id ++ m.id ∷ [] })
IsConsistent-added s m p q c = (
  ap (λ l. l ++ m.id ∷ []) c.0 ∙ sym (ids-append s.messages m),
  AreDistinct-append s.by_id m.id c.1 q,
  All-append IsNamed s.by_id (m.id ∷ []) c.2 (p, tt),
)

IsConsistent-append :
    (go : Externals) (fault : Option LineFault) (m : Message) (h : Hub)
    → IsConsistent h.store
    → IsConsistent (append go fault m h).0.store
unfolding append
IsConsistent-append go fault m h c = elim (Bool-cases (is_empty m.id)) [
  | inl p ↦ rw p c
  | inr p ↦ elim (Bool-cases (is_known h.store.by_id m.id)) [
    | inl q ↦ rw (p, q) c
    | inr q ↦ rw (p, q) (IsConsistent-added h.store m p q c)
  ]
]

IsConsistent-load_decoded :
    (o : Option Message) (s : Store) → IsConsistent s → IsConsistent (load_decoded o s)
unfolding load_message
IsConsistent-load_decoded none s c = c
IsConsistent-load_decoded (some m) s c = elim (Bool-cases (is_empty m.id)) [
  | inl p ↦ rw p c
  | inr p ↦ elim (Bool-cases (is_known s.by_id m.id)) [
    | inl q ↦ rw (p, q) c
    | inr q ↦ rw (p, q) (IsConsistent-added s m p q c)
  ]
]

IsConsistent-load_line :
    (go : Externals) (line : Text) (s : Store) → IsConsistent s → IsConsistent (load_line go line s)
unfolding load_line
IsConsistent-load_line go [] s c = c
IsConsistent-load_line go (b ∷ line) s c = IsConsistent-load_decoded (go.unmarshal (b ∷ line)) s c

IsConsistent-load_lines :
    (go : Externals) (ls : List Text) (s t : Store)
    → load_lines go ls s ≡ some t
    → IsConsistent s
    → IsConsistent t
unfolding load_lines
IsConsistent-load_lines go [] s t e c = subst IsConsistent (some-injective _ _ e) c
IsConsistent-load_lines go (line ∷ ls) s t e c = elim (Bool-cases (is_too_long line)) [
  | inl p ↦ absurd (ground (arith, e, p))
  | inr p ↦
      IsConsistent-load_lines go ls (load_line go (trim_space line) s) t (ground (arith, e, p))
        (IsConsistent-load_line go (trim_space line) s c)
]

module _ (go : Externals) (fault : Option WriteStep) (edited : Message → Message) (h : Hub)
    (keeps : (m : Message) → (edited m).id ≡ m.id) (c : IsConsistent h.store) where
  IsConsistent-change_at :
      (i : ℕ) (o : Option Message)
      → get_elem? h.store.messages i ≡ o
      → IsConsistent (change_at go fault edited h i o).0.store
  IsConsistent-change_at i none e = c
  IsConsistent-change_at i (some m) e =
      (c.0 ∙ sym (ids-set h.store.messages i m (edited m) e (keeps m)), c.1, c.2)

  IsConsistent-change_index :
      (o : Option ℕ) → IsConsistent (change_index go fault edited h o).0.store
  IsConsistent-change_index none = c
  IsConsistent-change_index (some i) = IsConsistent-change_at i (get_elem? h.store.messages i) refl

-- Two states with the same messages.
abbrev pub AreAlike : Hub → Hub → Type 0
AreAlike h k = (h.store.messages ≡ k.store.messages) × (h.store.by_id ≡ k.store.by_id)

IsConsistent-alike : (h k : Hub) → AreAlike h k → IsConsistent k.store → IsConsistent h.store
IsConsistent-alike h k a c = (
  a.1 ∙ c.0 ∙ ap ids (sym a.0),
  subst AreDistinct (sym a.1) c.1,
  subst (All IsNamed) (sym a.1) c.2,
)

pub AreAlike-mark_read :
    (go : Externals) (f g : Option WriteStep) (now : ℤ) (account thread : Text) (up_to : ℤ)
    (h : Hub)
    → AreAlike (mark_read go f g now account thread up_to h).0 h
unfolding mark_read clear_unread write_reads write_threads
AreAlike-mark_read go f g now account thread up_to h = ground arith

pub AreAlike-set_thread :
    (go : Externals) (f : Option WriteStep) (t : Thread) (h : Hub)
    → AreAlike (set_thread go f t h).0 h
unfolding set_thread write_threads
AreAlike-set_thread go f t h = ground arith

pub IsConsistent-after_call :
    (go : Externals) (h : Hub) (k : Call)
    → IsConsistent h.store
    → IsConsistent (after_call go h k).store
unfolding after_call edit delete react change
IsConsistent-after_call go h (append_call fault m) c = IsConsistent-append go fault m h c
IsConsistent-after_call go h (edit_call fault account id text at) c =
    IsConsistent-change_index go fault _ h (λ m. refl) c _
IsConsistent-after_call go h (delete_call fault account id) c =
    IsConsistent-change_index go fault _ h (λ m. refl) c _
IsConsistent-after_call go h (react_call fault account id r) c =
    IsConsistent-change_index go fault _ h (λ m. refl) c _
IsConsistent-after_call go h (thread_call fault t) c =
    IsConsistent-alike (set_thread go fault t h).0 h (AreAlike-set_thread go fault t h) c
IsConsistent-after_call go h (read_call f g now account thread up_to) c =
    IsConsistent-alike (mark_read go f g now account thread up_to h).0 h
      (AreAlike-mark_read go f g now account thread up_to h) c

pub IsConsistent-after_calls_from :
    (go : Externals) (h : Hub) (calls : List Call)
    → IsConsistent h.store
    → IsConsistent (after_calls go h calls).store
unfolding after_calls
IsConsistent-after_calls_from go h [] c = c
IsConsistent-after_calls_from go h (k ∷ ks) c =
    IsConsistent-after_calls_from go (after_call go h k) ks (IsConsistent-after_call go h k c)

IsConsistent-load :
    (go : Externals) (log : File Text) (t : Store)
    → load go log empty_store ≡ some t
    → IsConsistent t
unfolding load
IsConsistent-load go missing t e = subst IsConsistent (some-injective _ _ e) (refl, tt, tt)
IsConsistent-load go unreadable t e = absurd (ground arith)
IsConsistent-load go (holds text) t e =
    IsConsistent-load_lines go (lines text) empty_store t e (refl, tt, tt)

IsConsistent-open_store :
    (go : Externals) (disk : Disk) (h : Hub) → open_store go disk ≡ some h → IsConsistent h.store
unfolding open_store
IsConsistent-open_store go disk h e = elim (Option-cases (load go disk.log empty_store)) [
  | inl p ↦ absurd (ground arith)
  | inr (s, p) ↦ elim (Option-cases (load_map go.unmarshal_reads disk.reads_file)) [
    | inl q ↦ absurd (ground arith)
    | inr (reads, q) ↦ elim (Option-cases (load_map go.unmarshal_threads disk.threads_file)) [
      | inl r ↦ absurd (ground arith)
      | inr (threads, r) ↦
          let c = IsConsistent-load go disk.log s p in
          let k : Hub = record {
            store = record s { reads = reads; threads = threads };
            disk = disk;
          } in
          let same : k ≡ h = ground arith in subst (λ x. IsConsistent x.store) same c
    ]
  ]
]

-- Whatever the state directory holds, whatever the calls and whichever of their writes fail: after
-- the store has been opened, its messages have distinct identifiers that are not empty, and the
-- set of known identifiers is that of the messages in memory.
pub IsConsistent-after_calls :
    (go : Externals) (disk : Disk) (h : Hub) (calls : List Call)
    → open_store go disk ≡ some h
    → IsConsistent (after_calls go h calls).store
IsConsistent-after_calls go disk h calls e =
    IsConsistent-after_calls_from go h calls (IsConsistent-open_store go disk h e)
