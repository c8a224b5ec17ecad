-- ===== src/Artifacts/Source/Graph.antt =====
-- source-schema.ts, `validateGraph`: graphs of packages and the edges between them.
use interleave.Prelude.{
  ℕ, suc, Bool, true, false, ◌&&◌, not, Option, none, some, List, [], ◌∷◌, ◌++◌, Text, Dict, codes,
  decimal, text_eq, has, any, length, if◌then◌else◌, guard, ◌>>=◌, ◌>>◌, traverse,
}
use interleave.Types.{is_some, or_else}
use interleave.Artifacts.Json.{Json}
use interleave.Artifacts.Fields.{field}
use interleave.Artifacts.Completions.{optional, is_literal_true}
use interleave.Artifacts.Source.{
  source_shape, source_array, portable_path, fingerprint_text, sum, equal_count, comes_after,
  dependency_specifier, package_name, package_version, package_id,
}
use interleave.Artifacts.Source.Files.{Manifest, manifest_of, files_keys}

pub record Package : Type 0 where
  pub id : Text
  pub name : Text
  pub version : Text
  pub fingerprint : Text
  pub manifest : Manifest
  pub pending : List Json

abbrev pub package_keys : List Text
package_keys = codes "id" ∷ codes "name" ∷ codes "version" ∷ codes "dependencies" ∷ files_keys

-- `p${index}`, which also keeps the ids apart.
unfoldable pub package_names : ℕ → Dict Json → Option (Text × Text × Text)
unfolding package_id package_name package_version
package_names index ms = do
  id ← package_id (← field ms (codes "id"))
  guard (text_eq id (codes "p" ++ decimal index))
  name ← package_name (← field ms (codes "name"))
  version ← package_version (← field ms (codes "version"))
  some (id, name, version)

unfoldable pub package_of : Text × Text × Text → Text × Manifest → List Json → Package
package_of names manifest pending = record {
  id = names.0;
  name = names.1;
  version = names.2;
  fingerprint = manifest.0;
  manifest = manifest.1;
  pending = pending;
}

unfoldable pub source_package : ℕ → Json → Option Package
unfolding source_shape package_names manifest_of source_array package_of
source_package index value = do
  ms ← source_shape value package_keys package_keys
  names ← package_names index ms
  manifest ← manifest_of ms
  pending ← source_array (← field ms (codes "dependencies"))
  some (package_of names manifest pending)

pub record Graph : Type 0 where
  pub packages : List Package
  pub file_count : ℕ
  pub byte_count : ℕ

unfoldable pub packages_from : ℕ → ℕ → ℕ → List Json → Option Graph
unfolding source_package sum
packages_from index files bytes [] =
    some (record { packages = []; file_count = files; byte_count = bytes })
packages_from index files bytes (value ∷ values) = do
  found ← source_package index value
  files' ← sum files (length found.manifest.files)
  bytes' ← sum bytes found.manifest.byte_count
  rest ← packages_from (suc index) files' bytes' values
  some (record rest { packages = found ∷ rest.packages })

abbrev pub dependency_keys : List Text
dependency_keys =
    codes "name" ∷ codes "from" ∷ codes "packageId" ∷ codes "optional" ∷ codes "missing" ∷ []

abbrev has_package : List Package → Text → Bool
has_package packages id = any (λ (p : Package). text_eq p.id id) packages

-- A dependency's edge as the text that it is ordered by.
unfoldable pub dependency_edge : List Package → Option (List Text) → Json → Option Text
unfolding source_shape dependency_specifier package_id portable_path
dependency_edge packages sources value = do
  ms ← source_shape value dependency_keys (codes "name" ∷ [])
  name ← dependency_specifier (← field ms (codes "name"))
  optional_ ← optional ms (codes "optional") is_literal_true
  missing ← optional ms (codes "missing") is_literal_true
  found ← optional ms (codes "packageId") package_id
  guard (if is_some missing then is_some optional_ && not (is_some found) else is_some found)
  guard (elim found [ none ↦ true | some id ↦ has_package packages id ])
  from ← optional ms (codes "from") (λ path. portable_path path false)
  guard (elim sources [
    | none ↦ not (is_some from)
    | some paths ↦ elim from [ none ↦ false | some path ↦ has path paths ]
  ])
  let tail = if is_some missing then codes "missing" else []
  some ((name ++ 0 ∷ or_else from []) ++ 0 ∷ (or_else found [] ++ 0 ∷ tail))

unfoldable pub edges_from :
    List Package → Option (List Text) → Option Text → List Json → Option (Unit {0})
unfolding dependency_edge
edges_from packages sources before [] = some tt
edges_from packages sources before (value ∷ values) = do
  edge ← dependency_edge packages sources value
  guard (comes_after before edge)
  edges_from packages sources (some edge) values

abbrev pub graph_keys : List Text
graph_keys =
    codes "fingerprint"
    ∷ codes "roots"
    ∷ codes "packages"
    ∷ codes "fileCount"
    ∷ codes "byteCount"
    ∷ []

unfoldable pub graph_packages : Dict Json → Option Graph
unfolding fingerprint_text source_array packages_from
graph_packages ms = do
  fingerprint ← fingerprint_text (← field ms (codes "fingerprint"))
  values ← source_array (← field ms (codes "packages"))
  packages_from 0 0 0 values

-- Roots of the application name an importer among its files, where `sources` has these.
unfoldable pub graph_edges : Dict Json → Option (List Text) → Graph → Option (Unit {0})
unfolding source_array edges_from traverse
graph_edges ms sources graph = do
  edges ← traverse (λ p. edges_from graph.packages none none p.pending) graph.packages
  roots ← source_array (← field ms (codes "roots"))
  edges_from graph.packages sources none roots

unfoldable pub graph_counts : Dict Json → Graph → Option (Unit {0})
unfolding equal_count
graph_counts ms graph = do
  equal_count (← field ms (codes "fileCount")) graph.file_count
  equal_count (← field ms (codes "byteCount")) graph.byte_count

unfoldable pub validate_graph : Json → Option (List Text) → Option Graph
unfolding source_shape graph_packages graph_edges graph_counts
validate_graph value sources = do
  ms ← source_shape value graph_keys graph_keys
  graph ← graph_packages ms
  graph_edges ms sources graph
  graph_counts ms graph
  some graph
