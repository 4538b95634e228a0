-- ===== src/Hub/Store/Calls/Reopen.antt =====
-- pkg/hub/store.go: load, on a log that holds encoded messages.
use mathlib.Core.Option.{some-injective}
use midas.Common.{
  ◌≡◌, refl, sym, ap, ap₂, ◌∙◌, subst, false, some, List, [], ◌∷◌, ◌++◌, ◌==◌, All, arith, inl, inr,
  Option-cases, append-nil, append_assoc,
}
use midas.Common.Text.{Text, is_empty, trim_space}
use midas.Hub.{Message}
use midas.Hub.Store.{Externals, Store, is_known}
use midas.Hub.Store.Log.{
  load_message, load_line, load_lines, is_too_long, lines, lines_from, ended, encode_all,
}
use midas.Hub.Store.Calls.Ids.{AreDistinct, IsNamed, ids, is_known-append, text_eq-swap}

-- A message that encoding/json reads back from the one line that it writes for it. A text that is
-- not UTF-8 is none, nor is a message of 8 MiB.
abbrev pub Encodes : Externals → Message → Type 0
Encodes go m =
    (line : Text) × (go.marshal m ≡ some line)
    × (go.unmarshal line ≡ some m)
    × All (λ c. (c == 10) ≡ false) line
    × (trim_space line ≡ line)
    × (is_empty line ≡ false)
    × (is_too_long line ≡ false)

lines_from-ended :
    (acc line rest : Text)
    → All (λ c. (c == 10) ≡ false) line
    → lines_from acc (ended line ++ rest) ≡ (acc ++ line) ∷ lines rest
lines_from-ended acc [] rest h = ap (λ l. l ∷ lines rest) (sym (append-nil acc))
lines_from-ended acc (c ∷ line) rest h = rw h.0 (
    lines_from-ended (acc ++ c ∷ []) line rest h.1
    ∙ ap (λ l. l ∷ lines rest) (append_assoc acc (c ∷ []) line))

is_known-fresh : (xs ys : List Text) (x : Text) → AreDistinct (xs ++ x ∷ ys) → is_known xs x ≡ false
is_known-fresh [] ys x d = refl
is_known-fresh (y ∷ xs) ys x d =
    let known = is_known-fresh xs ys x d.1 in
    let apart = text_eq-swap y x (ground (arith, d.0, is_known-append xs (x ∷ ys) y)) in
    ground (arith, known, apart)

abbrev loaded : Store → List Message → Store
loaded s ms = record s { messages = s.messages ++ ms; by_id = s.by_id ++ ids ms }

load_message_new :
    (m : Message) (s : Store)
    → is_empty m.id ≡ false
    → is_known s.by_id m.id ≡ false
    → load_message m s ≡ loaded s (m ∷ [])
unfolding load_message
load_message_new m s p q = rw (p, q) refl

load_line-encoded :
    (go : Externals) (m : Message) (s : Store) (line : Text)
    → go.unmarshal line ≡ some m
    → is_empty line ≡ false
    → load_line go line s ≡ load_message m s
unfolding load_line
load_line-encoded go m s line u e = rw (e, u) refl

load_lines-encoded :
    (go : Externals) (m : Message) (s : Store) (line : Text) (rest : List Text)
    → go.unmarshal line ≡ some m
    → trim_space line ≡ line
    → is_empty line ≡ false
    → is_too_long line ≡ false
    → load_lines go (line ∷ rest) s ≡ load_lines go rest (load_message m s)
unfolding load_lines
load_lines-encoded go m s line rest u t e l =
    rw l
      (ap (load_lines go rest) (ap (λ x. load_line go x s) t ∙ load_line-encoded go m s line u e))

encode_all-cons :
    (go : Externals) (m : Message) (ms : List Message) (line text : Text)
    → go.marshal m ≡ some line
    → encode_all go (m ∷ ms) ≡ some text
    → (rest : Text) × (encode_all go ms ≡ some rest) × (text ≡ ended line ++ rest)
encode_all-cons go m ms line text p e = elim (Option-cases (encode_all go ms)) [
  | inl q ↦ absurd (ground arith)
  | inr (rest, q) ↦ (rest, q, ground arith)
]

pub load-encode_all :
    (go : Externals) (ms : List Message) (s : Store) (text : Text)
    → All (Encodes go) ms
    → encode_all go ms ≡ some text
    → AreDistinct (s.by_id ++ ids ms)
    → All IsNamed (ids ms)
    → load_lines go (lines text) s ≡ some (loaded s ms)
unfolding load_lines
load-encode_all go [] s text enc e d n =
    ap (λ x. load_lines go (lines x) s) (sym (some-injective _ _ e))
    ∙ ap some (
        ap₂ (λ a b. record s { messages = a; by_id = b }) (sym (append-nil s.messages))
          (sym (append-nil s.by_id)))
load-encode_all go (m ∷ ms) s text ((line, p, u, nl, t, ne, l), hs) e d n =
    let (rest, q, r) = encode_all-cons go m ms line text p e in
    let after =
      load-encode_all go ms (loaded s (m ∷ [])) rest hs q
        (subst AreDistinct (sym (append_assoc s.by_id (m.id ∷ []) (ids ms))) d) n.1 in
    ap (λ x. load_lines go (lines x) s) r
    ∙ ap (λ x. load_lines go x s) (lines_from-ended [] line rest nl)
    ∙ load_lines-encoded go m s line (lines rest) u t ne l
    ∙ ap (load_lines go (lines rest))
        (load_message_new m s n.0 (is_known-fresh s.by_id (ids ms) m.id d))
    ∙ after
    ∙ ap some (
        ap₂ (λ a b. record s { messages = a; by_id = b }) (append_assoc s.messages (m ∷ []) ms)
          (append_assoc s.by_id (m.id ∷ []) (ids ms)))
