-- ===== src/Artifacts/Source/Files.antt =====
-- source-schema.ts, `validateFileList` and `validateFiles`: manifests of files.
use interleave.Prelude.{
  ℕ, false, Option, none, some, List, [], ◌∷◌, Text, Dict, codes, length, map, leb, guard, ◌>>=◌,
  ◌>>◌,
}
use interleave.Artifacts.Json.{Json}
use interleave.Artifacts.Fields.{field, safe_integer}
use interleave.Artifacts.Source.{
  source_shape, source_array, portable_path, fingerprint_text, sum, equal_count, comes_after,
  max_file_bytes,
}

pub record SourceFile : Type 0 where
  pub path : Text
  pub bytes : ℕ
  pub sha256 : Text

pub record Manifest : Type 0 where
  pub files : List SourceFile
  pub byte_count : ℕ

abbrev file_keys : List Text
file_keys = codes "path" ∷ codes "bytes" ∷ codes "sha256" ∷ []

unfoldable pub source_file : Json → Option SourceFile
unfolding source_shape portable_path safe_integer fingerprint_text
source_file value = do
  ms ← source_shape value file_keys file_keys
  path ← portable_path (← field ms (codes "path")) false
  bytes ← safe_integer (← field ms (codes "bytes")) 0
  guard (leb bytes max_file_bytes)
  sha256 ← fingerprint_text (← field ms (codes "sha256"))
  some (record { path = path; bytes = bytes; sha256 = sha256 })

-- The loop, with the path before and the bytes so far.
unfoldable pub files_from : Option Text → ℕ → List Json → Option Manifest
unfolding source_file sum
files_from before total [] = some (record { files = []; byte_count = total })
files_from before total (value ∷ values) = do
  file ← source_file value
  guard (comes_after before file.path)
  total' ← sum total file.bytes
  rest ← files_from (some file.path) total' values
  some (record { files = file ∷ rest.files; byte_count = rest.byte_count })

unfoldable pub validate_file_list : Json → Option Manifest
unfolding source_array files_from
validate_file_list value = do values ← source_array value; files_from none 0 values

-- The members of an object that describe files, with their totals.
unfoldable pub manifest_of : Dict Json → Option (Text × Manifest)
unfolding fingerprint_text validate_file_list equal_count
manifest_of ms = do
  fingerprint ← fingerprint_text (← field ms (codes "fingerprint"))
  manifest ← validate_file_list (← field ms (codes "files"))
  equal_count (← field ms (codes "fileCount")) (length manifest.files)
  equal_count (← field ms (codes "byteCount")) manifest.byte_count
  some (fingerprint, manifest)

abbrev pub files_keys : List Text
files_keys = codes "fingerprint" ∷ codes "files" ∷ codes "fileCount" ∷ codes "byteCount" ∷ []

unfoldable pub validate_files : Json → Option (Text × Manifest)
unfolding source_shape manifest_of
validate_files value = do ms ← source_shape value files_keys files_keys; manifest_of ms

abbrev pub paths_of : Manifest → List Text
paths_of m = map (λ (f : SourceFile). f.path) m.files
