-- ===== src/Hub/Store/Listing.antt =====
-- pkg/hub/store.go: the list of the conversations.
use midas.Common.{Bool, ◌&&◌, not, Option, none, some, List, [], ◌∷◌, if◌then◌else◌, map}
use midas.Common.Int.{pos, ltb_ℤ, leb_ℤ, ◌+ℤ◌}
use midas.Common.Sort.{sort_stable}
use midas.Common.Text.{Text, is_empty}
use midas.Hub.{Message, Thread}
use midas.Hub.Store.{Store, lookup, put, read_key, Reads, ThreadMap}
use midas.Hub.Store.Threads.{is_for, or_zero, empty_thread, larger}

-- The descriptions that the bridges gave.
abbrev pub described : Text → ThreadMap → ThreadMap
described account [] = []
described account (e ∷ m) =
    let rest = described account m in if is_for account (e.1).account then e ∷ rest else rest

abbrev pub key_of : Message → Text
key_of m = read_key m.account m.thread

-- Whether a message counts as unread.
abbrev pub is_unread : Reads → Message → Bool
is_unread reads m = m.incoming && ltb_ℤ (or_zero (pos 0) (lookup (key_of m) reads)) m.timestamp

abbrev pub started_by : Message → Thread
started_by m = record empty_thread { id = m.thread; account = m.account }

-- A conversation after one more of its messages.
unfoldable pub count_message : Reads → Message → Thread → Thread
count_message reads m t = record t {
  last_message = larger m.timestamp t.last_message;
  unread = if is_unread reads m then t.unread +ℤ pos 1 else t.unread;
  title = if is_empty t.title && not (is_empty m.sender) then m.sender else t.title;
}

unfoldable pub index_messages : Text → Reads → List Message → ThreadMap → ThreadMap
unfolding count_message
index_messages account reads [] index = index
index_messages account reads (m ∷ ms) index =
    let t = or_zero (started_by m) (lookup (key_of m) index) in
    let counted =
      index_messages account reads ms (put (key_of m) (count_message reads m t) index) in
    let skipped = index_messages account reads ms index in
    if is_for account m.account then counted else skipped

abbrev at_least : Option Thread → Thread → Thread
at_least none t = t
at_least (some d) t = if ltb_ℤ t.unread d.unread then record t { unread = d.unread } else t

abbrev pub is_newer_or_same : Thread → Thread → Bool
is_newer_or_same a b = leb_ℤ b.last_message a.last_message

abbrev pub listed : Text → Store → List Thread
listed account s =
    map (λ e. at_least (lookup e.0 s.threads) e.1)
      (index_messages account s.reads s.messages (described account s.threads))

-- Threads
unfoldable pub threads : Text → Store → List Thread
unfolding sort_stable index_messages
threads account s = sort_stable is_newer_or_same (listed account s)
