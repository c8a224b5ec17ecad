-- ===== src/Artifacts/SourceTests.antt =====
-- Tests and witnesses on source identities: one file that needs one package.
use interleave.Prelude.{
  ℕ, ◌≤◌, ◌≡◌, refl, false, Option, none, some, List, [], ◌∷◌, Text, Dict, codes, text_eq, lookup,
  decimal,
}
use interleave.Types.{or_else}
use interleave.Artifacts.Json.{Json, string, one}
use interleave.Artifacts.Samples.{arr, obj, num, digest_a, repeat}
use interleave.Artifacts.Source.{portable_path, package_version, max_source_files, max_source_bytes}
use interleave.Artifacts.Source.Files.{Manifest, validate_files}
use interleave.Artifacts.Source.Graph.{Graph}
use interleave.Artifacts.Source.Identity.{validate_source_identity, Sources}
use interleave.Artifacts.Source.Totals.{total_files, total_bytes, validate_source_identity-within}

abbrev file_json : Text → ℕ → Json
file_json path bytes =
    obj ((codes "path", string path) ∷ (codes "bytes", num bytes) ∷ (codes "sha256", digest_a) ∷ [])

abbrev counts : ℕ → ℕ → Dict Json → Dict Json
counts files bytes more =
    (codes "fingerprint", digest_a)
    ∷ (codes "fileCount", num files)
    ∷ (codes "byteCount", num bytes)
    ∷ more

abbrev files_json : ℕ → ℕ → List Json → Dict Json → Json
files_json files bytes values more = obj (counts files bytes ((codes "files", arr values) ∷ more))

abbrev package_json : Json
package_json = files_json 1 7 (file_json (codes "index.js") 7 ∷ []) (
    (codes "id", string (codes "p0"))
    ∷ (codes "name", string (codes "@a/pg"))
    ∷ (codes "version", string (codes "8.11.0-rc.1"))
    ∷ (codes "dependencies", arr [])
    ∷ [])

abbrev root_json : Json
root_json = obj (
    (codes "name", string (codes "@a/pg"))
    ∷ (codes "from", string (codes "src/main.ts"))
    ∷ (codes "packageId", string (codes "p0"))
    ∷ [])

abbrev graph_json : ℕ → ℕ → List Json → List Json → Json
graph_json files bytes roots packages =
    obj (counts files bytes ((codes "roots", arr roots) ∷ (codes "packages", arr packages) ∷ []))

abbrev two_files : List Json
two_files = file_json (codes "src/lib.ts") 20 ∷ file_json (codes "src/main.ts") 30 ∷ []

-- A whole identity that states some number of bytes.
abbrev identity : ℕ → Json
identity bytes = obj (
    counts 3 bytes (
      (codes "version", num 1)
      ∷ (codes "profile", string (codes "node-source-v1"))
      ∷ (codes "algorithm", string (codes "sha256"))
      ∷ (codes "entry", string (codes "src/main.ts"))
      ∷ (codes "includes", arr [])
      ∷ (codes "sharedPackages", arr [])
      ∷ (
        codes "components",
        obj (
            (codes "source", files_json 2 50 two_files [])
            ∷ (codes "dependencies", graph_json 1 7 (root_json ∷ []) (package_json ∷ []))
            ∷ (
              codes "runtime",
              files_json 0 0 [] (
                  (codes "mode", string (codes "source"))
                  ∷ (codes "dependencies", graph_json 0 0 [] [])
                  ∷ []),
            )
            ∷ []),
      )
      ∷ []))

abbrev read : Option (Text × Sources)
unfolding validate_source_identity text_eq lookup one decimal
read = validate_source_identity (identity 57)

abbrev nothing_listed : Manifest
nothing_listed = record { files = []; byte_count = 0 }

abbrev no_packages : Graph
no_packages = record { packages = []; file_count = 0; byte_count = 0 }

abbrev nothing_read : Sources
nothing_read = record {
  manifest = nothing_listed;
  dependencies = no_packages;
  runtime = record {
    manifest = nothing_listed;
    graph = no_packages;
    file_count = 0;
    byte_count = 0;
  };
}

abbrev the_sources : Sources
the_sources = (or_else read ([], nothing_read)).1

reads_identity : validate_source_identity (identity 57) ≡ some (repeat 64 97, the_sources)
unfolding validate_source_identity text_eq lookup one decimal
reads_identity = refl

total_read : total_bytes the_sources ≡ 57
unfolding validate_source_identity text_eq lookup one decimal
total_read = refl

miscounted_refused : validate_source_identity (identity 58) ≡ none
unfolding validate_source_identity text_eq lookup one decimal
miscounted_refused = refl

unsorted_refused :
    validate_files
      (files_json 2 50 (file_json (codes "b.ts") 20 ∷ file_json (codes "a.ts") 30 ∷ []) [])
    ≡ none
unfolding validate_files text_eq lookup one
unsorted_refused = refl

climbing_refused : portable_path (string (codes "src/../key")) false ≡ none
unfolding portable_path text_eq
climbing_refused = refl

partial_version_refused : package_version (string (codes "8.11")) ≡ none
unfolding package_version
partial_version_refused = refl

validate_source_identity-within_example :
    (total_files the_sources ≤ max_source_files) × (total_bytes the_sources ≤ max_source_bytes)
validate_source_identity-within_example =
    validate_source_identity-within (identity 57) (repeat 64 97) the_sources reads_identity
