-- ===== src/Http/Exchange/Files.antt =====
-- crates/plugins/http/src/php/sendfile.rs: the checks of a file before PHP sends it.
--
-- `FileSystem` holds the calls of std::path, std::fs and PHP's getcwd, as they answer during one call;
-- a text is the list of its scalar values.
use Prim.Native.String.{String}
use rapira_windows.Common.{
  ℕ, ◌+◌, ◌-◌, ◌%◌, Bool, not, Option, none, some, List, ltb, if◌then◌else◌,
}
use rapira_windows.Pool.Scoreboard.{u64}
use rapira_windows.Http.Reply.{File}
use rapira_windows.Http.Exchange.Head.{Checked, passed, failed}
use rapira_windows.Http.Exchange.Trim.{from_utf8}

pub record Metadata : Type 0 where
  pub is_file : Bool
  pub len : ℕ

pub record FileSystem : Type 1 where
  pub PathBuf : Type 0
  pub new : List ℕ → PathBuf
  pub is_relative : PathBuf → Bool
  -- A null pointer is `none`.
  pub getcwd : Option (List ℕ)
  pub join : PathBuf → PathBuf → PathBuf
  pub canonicalize : PathBuf → Option PathBuf
  pub starts_with : PathBuf → PathBuf → Bool
  pub open_path : PathBuf → Option File
  pub metadata : File → Option Metadata

pub record FileSlice : Type 0 where
  pub handle : File
  pub len : ℕ

abbrev pub unreadable : String
unreadable = "no readable file at the path"

abbrev pub past_end : String
past_end = "the requested slice runs past the end of the file"

abbrev pub readable {ℓ κ} : {A : Type ℓ} {B : Type κ} → Option A → (A → Checked B) → Checked B
readable none f = failed unreadable
readable (some a) f = f a

abbrev pub slice_len : ℕ → ℕ → Option ℕ → Checked ℕ
slice_len size offset none = passed (size - offset)
slice_len size offset (some l) = if ltb size ((offset + l) % u64) then failed past_end else passed l

abbrev pub slice_of : File → Checked ℕ → Checked FileSlice
slice_of handle (failed msg) = failed msg
slice_of handle (passed len) = passed (record { handle = handle; len = len })

abbrev pub slice_in : Metadata → ℕ → Option ℕ → Checked ℕ
slice_in meta offset length =
    if not meta.is_file
    then failed "not a regular file"
    else if ltb meta.len offset
    then failed past_end
    else slice_len meta.len offset length

module _ (fs : FileSystem) where
  open fs use {PathBuf, getcwd, join, is_relative, canonicalize, starts_with, open_path, metadata}

  unfoldable pub in_cwd : PathBuf → Checked PathBuf
  unfolding from_utf8
  in_cwd p =
      if is_relative p
      then readable getcwd (λ cwd. readable (from_utf8 cwd) (λ dir. passed (join (fs.new dir) p)))
      else passed p

  abbrev pub and_path : {A : Type 0} → Checked PathBuf → (PathBuf → Checked A) → Checked A
  and_path (failed msg) f = failed msg
  and_path (passed p) f = f p

  -- From `File::open` on.
  abbrev pub open_slice : PathBuf → ℕ → Option ℕ → Checked FileSlice
  open_slice p offset length =
      readable (open_path p) (λ handle.
        readable (metadata handle) (λ meta. slice_of handle (slice_in meta offset length)))

  -- `root` is `SENDFILE_ROOT`.
  unfoldable pub open_send_file : PathBuf → List ℕ → ℕ → Option ℕ → Checked FileSlice
  unfolding from_utf8
  open_send_file root path offset length = readable (from_utf8 path) (λ text.
      and_path (in_cwd (fs.new text)) (λ p. readable (canonicalize p) (λ canonical.
        if not (starts_with canonical root)
        then failed "the path is outside the configured sendfile root"
        else open_slice canonical offset length)))
