-- ===== src/Manifest/Types.antt =====
-- The tables of a manifest (src/core/Manifest.hpp). A digest is 20 bytes; a TimePoint is its
-- nanoseconds, an int64_t held as its bit pattern.
use ccache.Prelude.{ℕ, Bool, Bytes, List, [], ◌==◌, ◌&&◌, eq_bytes}

abbrev pub digest_size : ℕ
digest_size = 20

pub record FileStats : Type 0 where
  pub size : ℕ
  pub mtime : ℕ
  pub ctime : ℕ

pub record FileInfo : Type 0 where
  pub index : ℕ
  pub digest : Bytes
  pub fsize : ℕ
  pub mtime : ℕ
  pub ctime : ℕ

pub record ResultEntry : Type 0 where
  pub file_info_indexes : List ℕ
  pub key : Bytes

pub record Manifest : Type 0 where
  pub files : List Bytes
  pub file_infos : List FileInfo
  pub results : List ResultEntry

-- Manifest::FileInfo::operator==
unfoldable pub eq_file_info : FileInfo → FileInfo → Bool
eq_file_info a b =
    (a.index == b.index)
    && eq_bytes a.digest b.digest
    && (a.fsize == b.fsize)
    && (a.mtime == b.mtime)
    && (a.ctime == b.ctime)

-- Manifest::ResultEntry::operator==
unfoldable pub eq_result_entry : ResultEntry → ResultEntry → Bool
eq_result_entry a b = eq_bytes a.file_info_indexes b.file_info_indexes && eq_bytes a.key b.key

-- Manifest(), and Manifest::clear
abbrev pub empty : Manifest
empty = record { files = []; file_infos = []; results = [] }
