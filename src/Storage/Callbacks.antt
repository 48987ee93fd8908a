-- ===== src/Storage/Callbacks.antt =====
-- memory_storage.hpp, the other overrides of `storage_interface`: libtorrent calls them, and they keep
-- the storage as it is. `bdecode_node`, `entry` and `storage_error` are libtorrent's, so they are
-- parameters. The code writes to none of its arguments; its lines for the log are left out.
use libtorrent_go.Base.{ℕ, Bool, false, List, ℤ, pos}
use libtorrent_go.Storage.{Storage}

-- A text is the list of its bytes.
abbrev Text : Type 0
Text = List ℕ

-- An override called with its arguments, the overloads told apart by their last word.
pub data Callback (StorageError Entry BdecodeNode : Type 0) : Type 0 where
  initialize : StorageError → Callback StorageError Entry BdecodeNode
  rename_file : ℤ → Text → StorageError → Callback StorageError Entry BdecodeNode
  move_storage_to : Text → Callback StorageError Entry BdecodeNode
  verify_resume_data :
      BdecodeNode → List Text → StorageError → Callback StorageError Entry BdecodeNode
  write_resume_data_to : Entry → Callback StorageError Entry BdecodeNode
  write_resume_data : Entry → StorageError → Callback StorageError Entry BdecodeNode
  release_files : StorageError → Callback StorageError Entry BdecodeNode
  delete_all_files : Callback StorageError Entry BdecodeNode
  has_any_file : StorageError → Callback StorageError Entry BdecodeNode
  set_file_priority : List ℕ → StorageError → Callback StorageError Entry BdecodeNode
  move_storage : Text → ℤ → StorageError → Callback StorageError Entry BdecodeNode
  delete_files : ℤ → StorageError → Callback StorageError Entry BdecodeNode

-- What an override returns.
pub data Reply : Type 0 where
  nothing : Reply
  boolean : Bool → Reply
  int : ℤ → Reply

module _ {StorageError Entry BdecodeNode : Type 0} where
  unfoldable pub respond : Storage → Callback StorageError Entry BdecodeNode → Reply × Storage
  respond s (initialize ec) = (nothing, s)
  respond s (rename_file index new_filename ec) = (nothing, s)
  respond s (move_storage_to save_path) = (boolean false, s)
  respond s (verify_resume_data rd links error) = (boolean false, s)
  respond s (write_resume_data_to rd) = (boolean false, s)
  respond s (write_resume_data rd ec) = (nothing, s)
  respond s (release_files ec) = (nothing, s)
  respond s delete_all_files = (boolean false, s)
  respond s (has_any_file ec) = (boolean false, s)
  respond s (set_file_priority prio ec) = (nothing, s)
  respond s (move_storage save_path flags ec) = (int (pos 0), s)
  respond s (delete_files options ec) = (nothing, s)
