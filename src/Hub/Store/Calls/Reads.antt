-- ===== src/Hub/Store/Calls/Reads.antt =====
-- pkg/hub/store.go: the read cursors of MarkRead, under all calls.
use mathlib.Core.Bool.{true≢false}
use midas.Common.{
  ◌≡◌, refl, sym, ap, subst, true, false, ◌&&◌, Option, none, some, List, [], ◌∷◌, if◌then◌else◌,
  arith, Bool-cases, inl, inr,
}
use midas.Common.Int.{ℤ, ◌≤ℤ◌, pos, ltb_ℤ}
use midas.Common.Text.{Text, text_eq, text_eq→eq, text_eq_refl}
use midas.Hub.{Message, Thread}
use midas.Hub.Store.{Externals, Hub, WriteStep, lookup, put, read_key, Reads}
use midas.Hub.Store.Log.{LineFault}
use midas.Hub.Store.Changes.{append, change_at, change_index, change, edit, delete, react}
use midas.Hub.Store.Threads.{
  set_thread, mark_read, write_threads, write_reads, clear_unread, read_up_to, is_behind, or_zero,
}
use midas.Hub.Store.Listing.{is_unread, key_of}
use midas.Hub.Store.Calls.{
  Call, append_call, edit_call, delete_call, react_call, thread_call, read_call, after_call,
  after_calls,
}

lookup-put_same :
    {A : Type 0} (k : Text) (v : A) (m : List (Text × A)) → lookup k (put k v m) ≡ some v
lookup-put_same k v [] = rw (text_eq_refl k) refl
lookup-put_same k v (e ∷ m) = elim (Bool-cases (text_eq k e.0)) [
  | inl p ↦ rw (put, p, text_eq_refl k) refl
  | inr p ↦ rw (put, p) (rw p (lookup-put_same k v m))
]

lookup-put_other :
    {A : Type 0} (k l : Text) (v : A) (m : List (Text × A))
    → text_eq k l ≡ false
    → lookup k (put l v m) ≡ lookup k m
lookup-put_other k l v [] h = rw h refl
lookup-put_other k l v (e ∷ m) h = elim (Bool-cases (text_eq l e.0)) [
  | inl p ↦
      let apart : text_eq k e.0 ≡ false = subst (λ x. text_eq k x ≡ false) (text_eq→eq l e.0 p) h in
      rw (put, p) (rw (h, lookup, apart) refl)
  | inr p ↦
      rw (put, p) (ap (λ x. if text_eq k e.0 then some e.1 else x) (lookup-put_other k l v m h))
]

-- A cursor is there that is no older than a time.
abbrev pub Reaches : ℤ → Option ℤ → Type 0
Reaches at none = false ≡ true
Reaches at (some c) = at ≤ℤ c

Reaches-not_behind :
    (at up_to : ℤ) (o : Option ℤ) → is_behind up_to o ≡ false → Reaches at o → at ≤ℤ up_to
Reaches-not_behind at up_to none b r = absurd (true≢false (sym r))
Reaches-not_behind at up_to (some c) b r = ground arith

Reaches-put :
    (at up_to : ℤ) (k l : Text) (reads : Reads)
    → is_behind up_to (lookup l reads) ≡ false
    → Reaches at (lookup k reads)
    → Reaches at (lookup k (put l up_to reads))
Reaches-put at up_to k l reads b r = elim (Bool-cases (text_eq k l)) [
  | inl p ↦
      let e = text_eq→eq k l p in
      let later =
        Reaches-not_behind at up_to (lookup l reads) b
          (subst (λ x. Reaches at (lookup x reads)) e r) in
      subst (λ x. Reaches at (lookup x (put l up_to reads))) (sym e)
        (subst (Reaches at) (sym (lookup-put_same l up_to reads)) later)
  | inr p ↦ rw (lookup-put_other k l up_to reads p) r
]

reads-mark_read :
    (go : Externals) (f g : Option WriteStep) (now : ℤ) (account thread : Text) (up_to : ℤ)
    (h : Hub)
    → is_behind (read_up_to now up_to) (lookup (read_key account thread) h.store.reads) ≡ false
    → (mark_read go f g now account thread up_to h).0.store.reads
      ≡ put (read_key account thread) (read_up_to now up_to) h.store.reads
unfolding mark_read clear_unread write_reads write_threads
reads-mark_read go f g now account thread up_to h b = ground (arith, b)

reads-set_thread :
    (go : Externals) (f : Option WriteStep) (t : Thread) (h : Hub)
    → (set_thread go f t h).0.store.reads ≡ h.store.reads
unfolding set_thread write_threads
reads-set_thread go f t h = ground arith

reads-mark_read_behind :
    (go : Externals) (f g : Option WriteStep) (now : ℤ) (account thread : Text) (up_to : ℤ)
    (h : Hub)
    → is_behind (read_up_to now up_to) (lookup (read_key account thread) h.store.reads) ≡ true
    → (mark_read go f g now account thread up_to h).0 ≡ h
unfolding mark_read
reads-mark_read_behind go f g now account thread up_to h b = rw b refl

reads-append :
    (go : Externals) (fault : Option LineFault) (m : Message) (h : Hub)
    → (append go fault m h).0.store.reads ≡ h.store.reads
unfolding append
reads-append go fault m h = ground arith

reads-change_at :
    (go : Externals) (fault : Option WriteStep) (edited : Message → Message) (h : Hub) (i : _)
    (o : Option Message)
    → (change_at go fault edited h i o).0.store.reads ≡ h.store.reads
reads-change_at go fault edited h i none = refl
reads-change_at go fault edited h i (some m) = refl

reads-change_index :
    (go : Externals) (fault : Option WriteStep) (edited : Message → Message) (h : Hub) (o : _)
    → (change_index go fault edited h o).0.store.reads ≡ h.store.reads
reads-change_index go fault edited h none = refl
reads-change_index go fault edited h (some i) = reads-change_at go fault edited h i _

Reaches-mark_read :
    (go : Externals) (at : ℤ) (k : Text) (f g : Option WriteStep) (now : ℤ) (account thread : Text)
    (up_to : ℤ) (h : Hub)
    → Reaches at (lookup k h.store.reads)
    → Reaches at (lookup k (mark_read go f g now account thread up_to h).0.store.reads)
Reaches-mark_read go at k f g now account thread up_to h r =
    let l = read_key account thread in
    let time = read_up_to now up_to in
    elim (Bool-cases (is_behind time (lookup l h.store.reads))) [
      | inl p ↦ rw (reads-mark_read_behind go f g now account thread up_to h p) r
      | inr p ↦
          rw (reads-mark_read go f g now account thread up_to h p)
            (Reaches-put at time k l h.store.reads p r)
    ]

Reaches-after_call :
    (go : Externals) (at : ℤ) (k : Text) (h : Hub) (c : Call)
    → Reaches at (lookup k h.store.reads)
    → Reaches at (lookup k (after_call go h c).store.reads)
unfolding after_call edit delete react change
Reaches-after_call go at k h (append_call fault m) r = rw (reads-append go fault m h) r
Reaches-after_call go at k h (edit_call fault account id text time) r =
    subst (λ x. Reaches at (lookup k x)) (sym (reads-change_index go fault _ h _)) r
Reaches-after_call go at k h (delete_call fault account id) r =
    subst (λ x. Reaches at (lookup k x)) (sym (reads-change_index go fault _ h _)) r
Reaches-after_call go at k h (react_call fault account id reaction) r =
    subst (λ x. Reaches at (lookup k x)) (sym (reads-change_index go fault _ h _)) r
Reaches-after_call go at k h (thread_call fault t) r = rw (reads-set_thread go fault t h) r
Reaches-after_call go at k h (read_call f g now account thread up_to) r =
    Reaches-mark_read go at k f g now account thread up_to h r

Reaches-after_calls :
    (go : Externals) (at : ℤ) (k : Text) (h : Hub) (cs : List Call)
    → Reaches at (lookup k h.store.reads)
    → Reaches at (lookup k (after_calls go h cs).store.reads)
unfolding after_calls
Reaches-after_calls go at k h [] r = r
Reaches-after_calls go at k h (c ∷ cs) r =
    Reaches-after_calls go at k (after_call go h c) cs (Reaches-after_call go at k h c r)

Reaches-behind : (up_to : ℤ) (o : Option ℤ) → is_behind up_to o ≡ true → Reaches up_to o
Reaches-behind up_to none b = b
Reaches-behind up_to (some c) b = ground arith

Reaches-marked :
    (go : Externals) (f g : Option WriteStep) (now : ℤ) (account thread : Text) (up_to : ℤ)
    (h : Hub)
    → Reaches (read_up_to now up_to) (
        lookup
          (read_key account thread)
          (mark_read go f g now account thread up_to h).0.store.reads)
Reaches-marked go f g now account thread up_to h =
    let l = read_key account thread in
    let time = read_up_to now up_to in
    elim (Bool-cases (is_behind time (lookup l h.store.reads))) [
      | inl p ↦
          rw (reads-mark_read_behind go f g now account thread up_to h p)
            (Reaches-behind time (lookup l h.store.reads) p)
      | inr p ↦
          rw
            (
              reads-mark_read go f g now account thread up_to h p,
              lookup-put_same l time h.store.reads,
            )
            (ground arith)
    ]

is_unread-Reaches :
    (at : ℤ) (m : Message) (o : Option ℤ)
    → Reaches at o
    → m.timestamp ≤ℤ at
    → (m.incoming && ltb_ℤ (or_zero (pos 0) o) m.timestamp) ≡ false
is_unread-Reaches at m none r t = absurd (true≢false (sym r))
is_unread-Reaches at m (some c) r t = ground arith

-- After MarkRead has been called on a conversation, whatever calls follow, on it and on others,
-- with older times or newer ones, and whichever writes fail: a message of that conversation that is
-- no newer than what was marked (the time of the call for 0) is not counted as unread by Threads.
pub stays_read :
    (go : Externals) (f g : Option WriteStep) (now : ℤ) (account thread : Text) (up_to : ℤ)
    (h : Hub) (cs : List Call) (m : Message)
    → key_of m ≡ read_key account thread
    → m.timestamp ≤ℤ read_up_to now up_to
    → is_unread (after_calls go (mark_read go f g now account thread up_to h).0 cs).store.reads m
      ≡ false
stays_read go f g now account thread up_to h cs m k t =
    let marked = (mark_read go f g now account thread up_to h).0 in
    let at = read_up_to now up_to in
    is_unread-Reaches at m (lookup (key_of m) (after_calls go marked cs).store.reads)
      (subst (λ x. Reaches at (lookup x (after_calls go marked cs).store.reads)) (sym k)
        (Reaches-after_calls go at (read_key account thread) marked cs
          (Reaches-marked go f g now account thread up_to h)))
      t
