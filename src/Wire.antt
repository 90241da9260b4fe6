-- ===== src/Wire.antt =====
-- internal/wire: the messages, and the framing of their payloads with the optional encryption.
-- The payload of a message, which encoding/gob makes, is taken as given.
pub mod Frame
use cs_sync.Prelude.{Text, ℕ, ◌*◌, Option}

-- `Op` of mkdir, rename, delete, rmdir and symlink frames.
pub record WireOp : Type 0 where
  pub op_path : Text
  pub op_old_path : Text
  pub op_mode : ℕ
  pub op_mtime : ℕ
  pub op_link : Text
  pub op_acl : Text

pub record FileBegin : Type 0 where
  pub begin_path : Text
  pub begin_size : ℕ
  pub begin_mode : ℕ
  pub begin_mtime : ℕ

pub record FileData : Type 0 where
  pub offset : ℕ
  pub block_hash : Text
  pub block : Text

pub record FolderAcl : Type 0 where
  pub folder : Text
  pub folder_acl_type : Text
  pub acl_text : Text

pub record LoopMarker : Type 0 where
  pub service_id : Text
  pub stamp : Text

pub record Welcome : Type 0 where
  pub proto_version : ℕ
  pub sync_version : Text
  pub os_name : Text
  pub welcome_acl_type : Text
  pub key : Text

abbrev pub proto_version_here : ℕ
proto_version_here = 1

abbrev block_size : ℕ
block_size = 4 * 1024 * 1024

-- A received frame; `none` stands for a payload that `Decode` refuses.
pub data Incoming : Type 0 where
  ping : Incoming
  loop_marker : Option LoopMarker → Incoming
  mkdir_frame rename_frame delete_frame rmdir_frame symlink_frame : Option WireOp → Incoming
  file_begin : Option FileBegin → Incoming
  file_data : Option FileData → Incoming
  file_end : Option Text → Incoming
  folder_acl : Option FolderAcl → Incoming
  acl_csv : Option Text → Incoming
  unknown_frame : ℕ → Incoming
