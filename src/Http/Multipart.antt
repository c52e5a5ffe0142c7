-- ===== src/Http/Multipart.antt =====
-- crates/plugins/http/src/multipart.rs: the multipart/form-data parser.
--
-- An index into the body is a number, and a slice of it is `take` and `drop`. The loops over the
-- body run on fuel, and so answer an option; `parse` gives one round for each byte and one more. The
-- header sections are parsed by httparse and the files are written by tempfile: both are arguments.
pub mod Delimiter
pub mod FirstLine
pub mod Scan
pub mod Disposition
pub mod Boundary
pub mod Part
pub mod Parse
pub mod Within
pub mod Advance
pub mod Terminates
pub mod Accepts
pub mod Quoted
mod Tests
use Prim.Native.String.{String}
use rapira_windows.Common.{ℕ, Option, List}
use rapira_windows.Common.Bytes.{trim_by, is_ascii_whitespace}
use rapira_windows.Http.{Rejection}

-- `dir` is with the file system.
pub record Limits : Type 0 where
  pub max_file_size : ℕ
  pub max_field_size : ℕ
  pub max_files : ℕ
  pub max_parts : ℕ
  pub max_part_headers : ℕ

pub record Header : Type 0 where
  pub name : List ℕ
  pub value : List ℕ

pub record FormField : Type 0 where
  pub name : List ℕ
  pub value : List ℕ
  pub headers : List Header

-- `file` is a name for the spooled file.
pub record UploadedFile : Type 0 where
  pub name : List ℕ
  pub client_filename : List ℕ
  pub client_media_type : Option (List ℕ)
  pub headers : List Header
  pub file : ℕ
  pub size : ℕ

pub record MultipartBody : Type 0 where
  pub fields : List FormField
  pub files : List UploadedFile

abbrev pub bad : String → Rejection
bad reason = record { status = 400; reason = reason }

abbrev pub over : String → Rejection
over reason = record { status = 413; reason = reason }

abbrev pub trim_ascii : List ℕ → List ℕ
trim_ascii v = trim_by is_ascii_whitespace v
