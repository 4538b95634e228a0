-- ===== src/Hub.antt =====
-- pkg/hub/protocol.go: the messages and the conversations of the hub.
pub mod Store
pub mod Examples
use midas.Common.{ℕ, Bool, ◌&&◌, Option, List, ◌==◌}
use midas.Common.Int.{ℤ}
use midas.Common.Text.{Text, codes, trim_space, is_empty}

abbrev pub kind_text : Text
kind_text = codes "text"

pub record Media : Type 0 where
  pub kind : Text
  pub mime : Text
  pub filename : Text
  pub size : ℤ
  pub caption : Text
  pub duration_ms : ℤ
  pub path : Text
  pub url : Text
  pub sha256 : Text
  pub thumbnail : Text

pub record Reaction : Type 0 where
  pub emoji : Text
  pub sender : Text
  pub at : ℤ
  pub removed : Bool

pub record Thread : Type 0 where
  pub id : Text
  pub account : Text
  pub title : Text
  pub bridge : Text
  pub unread : ℤ
  pub last_message : ℤ
  pub kind : Text
  pub parent : Text
  pub participants : List Text
  pub muted : Option Bool
  pub archived : Option Bool

pub record Message : Type 0 where
  pub id : Text
  pub account : Text
  pub thread : Text
  pub sender : Text
  pub text : Text
  pub timestamp : ℤ
  pub incoming : Bool
  pub kind : Text
  pub media : List Media
  pub reply_to : Text
  pub reactions : List Reaction
  pub edited : Bool
  pub deleted : Bool
  pub status : Text
  pub error : Text
