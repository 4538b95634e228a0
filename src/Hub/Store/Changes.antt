-- ===== src/Hub/Store/Changes.antt =====
-- pkg/hub/store.go: the calls that add or change a message. The result of Append is whether it
-- returned no error; the others return the changed message, or none for `Message{}, false`.
use midas.Common.{
  ℕ, suc, Bool, true, not, ◌&&◌, ◌||◌, Option, none, some, List, [], ◌∷◌, ◌++◌, if◌then◌else◌,
  get_elem?, set,
}
use midas.Common.Int.{ℤ, pos, ltb_ℤ}
use midas.Common.Text.{Text, text_eq, trim_space, is_empty}
use midas.Hub.{Message, Reaction, kind_text}
use midas.Hub.Store.{Externals, File, Store, Hub, is_known, WriteStep}
use midas.Hub.Store.Log.{LineFault, write_line, rewrite_messages}

abbrev with_log : Hub → Store → File Text → Hub
with_log h store log = record { store = store; disk = record h.disk { log = log } }

-- Append: a message that is new stays in memory also where the write fails.
unfoldable pub append : Externals → Option LineFault → Message → Hub → Hub × Bool
append go fault m h =
    if is_empty m.id || is_known h.store.by_id m.id
    then (h, true)
    else let added = record h.store {
      messages = h.store.messages ++ m ∷ [];
      by_id = h.store.by_id ++ m.id ∷ [];
    } in
      let w = write_line go fault m h.disk.log in (with_log h added w.0, w.1)

module _ (go : Externals) where
  -- The loop of indexLocked, for a trimmed identifier.
  unfoldable pub is_named : Text → Text → Message → Bool
  is_named account id m = text_eq m.id id && (is_empty account || go.equal_fold m.account account)

  abbrev pub index_from : Text → Text → List Message → Option ℕ
  index_from account id [] = none
  index_from account id (m ∷ ms) =
      let later = index_from account id ms in
      if is_named account id m then some 0 else elim later [ none ↦ none | some i ↦ some (suc i) ]

  -- indexLocked
  unfoldable pub index_locked : List Message → Text → Text → Option ℕ
  index_locked ms account id =
      let trimmed = trim_space id in
      if is_empty trimmed then none else index_from account trimmed ms

  -- What Edit, Delete and React share: the message that is named is changed in memory, and the log
  -- is written again.
  abbrev pub change_at :
      Option WriteStep → (Message → Message) → Hub → ℕ → Option Message → Hub × Option Message
  change_at fault change h i none = (h, none)
  change_at fault change h i (some m) =
      let changed = record h.store { messages = set h.store.messages i (change m) } in
      let w = rewrite_messages go fault changed.messages h.disk.log in
      (with_log h changed w.0, if w.1 then some (change m) else none)

  abbrev pub change_index :
      Option WriteStep → (Message → Message) → Hub → Option ℕ → Hub × Option Message
  change_index fault change h none = (h, none)
  change_index fault change h (some i) = change_at fault change h i (get_elem? h.store.messages i)

  unfoldable pub change :
      Option WriteStep → Text → Text → (Message → Message) → Hub → Hub × Option Message
  unfolding rewrite_messages
  change fault account id edit h =
      change_index fault edit h (index_locked h.store.messages account id)

  abbrev pub edited_message : Text → ℤ → Message → Message
  edited_message text at m = record m {
    text = text;
    kind = if is_empty m.media then kind_text else m.kind;
    edited = true;
    timestamp = if ltb_ℤ (pos 0) at then at else m.timestamp;
  }

  -- Edit
  unfoldable pub edit : Option WriteStep → Text → Text → Text → ℤ → Hub → Hub × Option Message
  unfolding change
  edit fault account id text at h = change fault account id (edited_message text at) h

  abbrev pub deleted_message : Message → Message
  deleted_message m = record m { text = []; media = []; deleted = true }

  -- Delete
  unfoldable pub delete : Option WriteStep → Text → Text → Hub → Hub × Option Message
  unfolding change
  delete fault account id h = change fault account id deleted_message h

  -- Whether a reaction is of a sender, who is given trimmed.
  unfoldable pub is_of : Text → Reaction → Bool
  is_of sender r = not (is_empty sender) && go.equal_fold (trim_space r.sender) sender

  unfoldable pub without : Text → List Reaction → List Reaction
  without sender [] = []
  without sender (r ∷ rs) =
      let rest = without sender rs in if is_of sender r then rest else r ∷ rest

  -- The reactions of a message after one more report.
  unfoldable pub fold_reaction : Reaction → List Reaction → List Reaction
  unfolding without
  fold_reaction r rs =
      let others = without (trim_space r.sender) rs in
      if not (is_empty (trim_space r.emoji)) && not r.removed then others ++ r ∷ [] else others

  abbrev pub reacted_message : Reaction → Message → Message
  reacted_message r m = record m { reactions = fold_reaction r m.reactions }

  -- React
  unfoldable pub react : Option WriteStep → Text → Text → Reaction → Hub → Hub × Option Message
  unfolding change
  react fault account id r h = change fault account id (reacted_message r) h
