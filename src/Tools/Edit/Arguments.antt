-- ===== src/Tools/Edit/Arguments.antt =====
-- internal/tools/edit.go and arguments.go: the arguments of a call, as decoded JSON.
use midas.Common.{ℕ, suc, Option, none, some, List, [], ◌∷◌, if◌then◌else◌}
use midas.Common.Text.{Text, codes, text_eq}

mutual
  pub data Json : Type 0 where
    text : Text → Json
    array : Items → Json
    object : Fields → Json
    scalar : Json

  pub data Items : Type 0 where
    no_items : Items
    item : Json → Items → Items

  -- The fields of an object, each name once.
  pub data Fields : Type 0 where
    no_fields : Fields
    field : Text → Json → Fields → Fields

pub data ArgumentError : Type 0 where
  missing : Text → ArgumentError
  no_text : Text → ArgumentError
  no_edits undecodable : ArgumentError
  no_object no_old_text no_new_text : ℕ → ArgumentError

pub data Checked {ℓ} (A : Type ℓ) : Type ℓ where
  valid : A → Checked A
  invalid : ArgumentError → Checked A

unfoldable pub get_field : Fields → Text → Option Json
unfolding text_eq
get_field no_fields name = none
get_field (field n v rest) name =
    let later = get_field rest name in if text_eq n name then some v else later

-- A type assertion to a string.
abbrev pub as_text : Option Json → Option Text
as_text none = none
as_text (some (text s)) = some s
as_text (some (array _)) = none
as_text (some (object _)) = none
as_text (some scalar) = none

abbrev pub required_text : Text → Option Json → Checked Text
required_text name none = invalid (missing name)
required_text name (some (text s)) = valid s
required_text name (some (array _)) = invalid (no_text name)
required_text name (some (object _)) = invalid (no_text name)
required_text name (some scalar) = invalid (no_text name)

-- stringArgument
unfoldable pub string_argument : Fields → Text → Checked Text
unfolding get_field
string_argument arguments name = required_text name (get_field arguments name)

abbrev pub item_texts : ℕ → Option Text → Option Text → Checked (Text × Text)
item_texts number none _ = invalid (no_old_text number)
item_texts number (some old) none = invalid (no_new_text number)
item_texts number (some old) (some new) = valid (old, new)

unfoldable pub item_argument : ℕ → Json → Checked (Text × Text)
unfolding get_field
item_argument number (text _) = invalid (no_object number)
item_argument number (array _) = invalid (no_object number)
item_argument number scalar = invalid (no_object number)
item_argument number (object o) =
    item_texts number (as_text (get_field o (codes "oldText")))
      (as_text (get_field o (codes "newText")))

abbrev pub with_item :
    Checked (Text × Text) → Checked (List (Text × Text)) → Checked (List (Text × Text))
with_item (invalid error) rest = invalid error
with_item (valid e) (invalid error) = invalid error
with_item (valid e) (valid es) = valid (e ∷ es)

unfoldable pub item_arguments : ℕ → Items → Checked (List (Text × Text))
unfolding item_argument
item_arguments number no_items = valid []
item_arguments number (item v vs) =
    with_item (item_argument number v) (item_arguments (suc number) vs)

unfoldable pub array_argument : Option Json → Checked (List (Text × Text))
unfolding item_arguments
array_argument none = invalid undecodable
array_argument (some (text _)) = invalid no_edits
array_argument (some (object _)) = invalid no_edits
array_argument (some scalar) = invalid no_edits
array_argument (some (array no_items)) = invalid no_edits
array_argument (some (array (item v vs))) = item_arguments 0 (item v vs)

-- The form with one pair of texts beside the path.
abbrev pub single_edit : Option Text → Option Text → Checked (List (Text × Text))
single_edit none _ = invalid no_edits
single_edit (some old) none = invalid no_edits
single_edit (some old) (some new) = valid ((old, new) ∷ [])

-- editArguments; a text is decoded as JSON once.
unfoldable pub edit_arguments : (Text → Option Json) → Fields → Checked (List (Text × Text))
unfolding get_field array_argument
edit_arguments unmarshal arguments = elim (get_field arguments (codes "edits")) [
  | none ↦
      single_edit (as_text (get_field arguments (codes "oldText")))
        (as_text (get_field arguments (codes "newText")))
  | some (text encoded) ↦ array_argument (unmarshal encoded)
  | some (array items) ↦ array_argument (some (array items))
  | some (object o) ↦ array_argument (some (object o))
  | some scalar ↦ array_argument (some scalar)
]
