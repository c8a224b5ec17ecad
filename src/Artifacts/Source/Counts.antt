-- ===== src/Artifacts/Source/Counts.antt =====
-- The bytes of a manifest are those of its files.
use interleave.Prelude.{
  ℕ, ◌+◌, ◌≡◌, ◌∙◌, subst, Option, none, some, List, [], ◌∷◌, Text, Dict, codes, length, arith,
  bind-some, guard-some, some_injective,
}
use interleave.Artifacts.Json.{Json}
use interleave.Artifacts.Fields.{field}
use interleave.Artifacts.Source.{
  source_shape, source_array, sum, equal_count, comes_after, fingerprint_text,
}
use interleave.Artifacts.Source.Files.{
  SourceFile, Manifest, source_file, files_from, validate_file_list, manifest_of, validate_files,
}
use interleave.Artifacts.Source.Graph.{
  Package, package_keys, package_names, package_of, source_package,
}

abbrev pub bytes_in : List SourceFile → ℕ
bytes_in [] = 0
bytes_in (f ∷ fs) = f.bytes + bytes_in fs

pub sum-some : (a b c : ℕ) → sum a b ≡ some c → c ≡ a + b
unfolding sum
sum-some a b c h = ground arith

pub files_from-bytes :
    (before : Option Text) (total : ℕ) (vs : List Json) (m : Manifest)
    → files_from before total vs ≡ some m
    → m.byte_count ≡ total + bytes_in m.files
unfolding files_from
files_from-bytes before total [] m h =
    subst (λ x. x.byte_count ≡ total + bytes_in x.files) (some_injective h) (omega arith)
files_from-bytes before total (v ∷ vs) m h =
    let (file, e0, k0) = bind-some (source_file v) _ h in
    let (sorted, k1) = guard-some (comes_after before file.path) _ k0 in
    let (total', e2, k2) = bind-some (sum total file.bytes) _ k1 in
    let (rest, e3, k3) = bind-some (files_from (some file.path) total' vs) _ k2 in
    let after = files_from-bytes (some file.path) total' vs rest e3 in
    subst (λ x. x.byte_count ≡ total + bytes_in x.files) (some_injective k3)
      (omega (arith, sum-some total file.bytes total' e2))

pub validate_file_list-bytes :
    (v : Json) (m : Manifest) → validate_file_list v ≡ some m → m.byte_count ≡ bytes_in m.files
unfolding validate_file_list
validate_file_list-bytes v m h =
    let (values, e, k) = bind-some (source_array v) _ h in
    files_from-bytes none 0 values m k ∙ omega arith

pub manifest_of-bytes :
    (ms : Dict Json) (r : Text × Manifest)
    → manifest_of ms ≡ some r
    → r.1.byte_count ≡ bytes_in r.1.files
unfolding manifest_of
manifest_of-bytes ms r h =
    let (f0, e0, k0) = bind-some (field ms (codes "fingerprint")) _ h in
    let (print, e1, k1) = bind-some (fingerprint_text f0) _ k0 in
    let (f2, e2, k2) = bind-some (field ms (codes "files")) _ k1 in
    let (m, e3, k3) = bind-some (validate_file_list f2) _ k2 in
    let (f4, e4, k4) = bind-some (field ms (codes "fileCount")) _ k3 in
    let (u5, e5, k5) = bind-some (equal_count f4 (length m.files)) _ k4 in
    let (f6, e6, k6) = bind-some (field ms (codes "byteCount")) _ k5 in
    let (u7, e7, k7) = bind-some (equal_count f6 m.byte_count) _ k6 in
    subst (λ x. x.1.byte_count ≡ bytes_in x.1.files) (some_injective k7)
      (validate_file_list-bytes f2 m e3)

pub validate_files-bytes :
    (v : Json) (r : Text × Manifest)
    → validate_files v ≡ some r
    → r.1.byte_count ≡ bytes_in r.1.files
unfolding validate_files
validate_files-bytes v r h =
    let (ms, e, k) = bind-some (source_shape v _ _) _ h in manifest_of-bytes ms r k

pub source_package-bytes :
    (index : ℕ) (v : Json) (p : Package)
    → source_package index v ≡ some p
    → p.manifest.byte_count ≡ bytes_in p.manifest.files
unfolding source_package package_of
source_package-bytes index v p h =
    let (ms, e, k) = bind-some (source_shape v package_keys package_keys) _ h in
    let (names, e0, k0) = bind-some (package_names index ms) _ k in
    let (manifest, e1, k1) = bind-some (manifest_of ms) _ k0 in
    let (f2, e2, k2) = bind-some (field ms (codes "dependencies")) _ k1 in
    let (pending, e3, k3) = bind-some (source_array f2) _ k2 in
    subst (λ x. x.manifest.byte_count ≡ bytes_in x.manifest.files) (some_injective k3)
      (manifest_of-bytes ms manifest e1)
