-- ===== src/Fallible.antt =====
-- Calls that may throw core::Error (src/core/exceptions.hpp). Each throw site is a constructor,
-- with the numbers that its message shows; the messages' wording is not kept.
use ccache.Prelude.{ℕ}

pub data Error : Type 0 where
  -- CacheEntryDataReader::read_bytes: the bytes that are missing
  reader_underflow : ℕ → Error
  -- CacheEntry::Header::parse
  bad_magic unknown_format_version unknown_entry_type unknown_compression_type : ℕ → Error
  -- CacheEntry's constructor and verify_checksum
  entry_underflow bad_checksum decompression_error compression_error : Error
  -- Manifest::read and Manifest::serialized_size
  unknown_manifest_version manifest_too_large : ℕ → Error
  -- Result::Deserializer::visit and Result::Serializer
  unknown_result_version too_many_files unknown_file_marker result_too_large : ℕ → Error
  unreadable_file : Error
  -- no exception: an index past the end of a vector, which is undefined behaviour
  out_of_bounds : Error

-- What a call returns, or the exception that it throws.
pub data Result {ℓ} (A : Type ℓ) : Type ℓ where
  err : Error → Result A
  ok : A → Result A

-- The next call is made only where the one before it has returned.
infixl 5 ◌>>=◌
abbrev pub ◌>>=◌ {ℓ κ} : {A : Type ℓ} {B : Type κ} → Result A → (A → Result B) → Result B
err thrown >>= next = err thrown
ok returned >>= next = next returned
