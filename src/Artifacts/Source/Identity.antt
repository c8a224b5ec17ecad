-- ===== src/Artifacts/Source/Identity.antt =====
-- source-schema.ts, `validateSourceIdentity`: shared packages, the runtime, and the whole.
use interleave.Prelude.{
  ℕ, Bool, true, false, ◌&&◌, not, Option, none, some, List, [], ◌∷◌, Text, Dict, codes, text_eq,
  has, find, length, leb, ◌==◌, guard, ◌>>=◌, ◌>>◌,
}
use interleave.Artifacts.Json.{Json}
use interleave.Artifacts.Fields.{field, literal, enum_value}
use interleave.Artifacts.Source.{
  source_shape, source_array, portable_path, fingerprint_text, sum, equal_count, comes_after,
  package_id, max_source_files, max_source_bytes,
}
use interleave.Artifacts.Source.Files.{
  SourceFile, Manifest, validate_file_list, files_keys, validate_files, paths_of,
}
use interleave.Artifacts.Source.Graph.{Package, Graph, validate_graph}

abbrev file_eq : SourceFile → SourceFile → Bool
file_eq a b = text_eq a.path b.path && a.bytes == b.bytes && text_eq a.sha256 b.sha256

abbrev files_eq : List SourceFile → List SourceFile → Bool
files_eq [] [] = true
files_eq [] (y ∷ ys) = false
files_eq (x ∷ xs) [] = false
files_eq (x ∷ xs) (y ∷ ys) = file_eq x y && files_eq xs ys

unfoldable pub is_same_package : Package → Package → Bool
is_same_package a b =
    text_eq a.name b.name
    && text_eq a.version b.version
    && text_eq a.fingerprint b.fingerprint
    && length a.manifest.files == length b.manifest.files
    && a.manifest.byte_count == b.manifest.byte_count
    && files_eq a.manifest.files b.manifest.files

abbrev shared_keys : List Text
shared_keys = codes "dependencyPackageId" ∷ codes "runtimePackageId" ∷ []

module _ (dependencies runtime : List Package) where
  -- The dependency ids increase, so that only runtime ids can repeat.
  unfoldable pub shared_from : Option Text → List Text → List Json → Option (Unit {0})
  unfolding source_shape package_id is_same_package
  shared_from before used [] = some tt
  shared_from before used (value ∷ values) = do
    ms ← source_shape value shared_keys shared_keys
    dependency_id ← package_id (← field ms (codes "dependencyPackageId"))
    runtime_id ← package_id (← field ms (codes "runtimePackageId"))
    guard (comes_after before dependency_id && not (has runtime_id used))
    dependency ← find (λ (p : Package). text_eq p.id dependency_id) dependencies
    found ← find (λ (p : Package). text_eq p.id runtime_id) runtime
    guard (is_same_package dependency found)
    shared_from (some dependency_id) (runtime_id ∷ used) values

abbrev pub runtime_keys : List Text
runtime_keys = codes "mode" ∷ codes "dependencies" ∷ files_keys

pub record Runtime : Type 0 where
  pub manifest : Manifest
  pub graph : Graph
  pub file_count : ℕ
  pub byte_count : ℕ

-- The modes of a runtime: `true` for its sources.
abbrev pub runtime_modes : Dict Bool
runtime_modes = (codes "source", true) ∷ (codes "build", false) ∷ []

unfoldable pub runtime_of : Dict Json → Manifest → Graph → Option Runtime
unfolding sum equal_count
runtime_of ms manifest graph = do
  files ← sum (length manifest.files) graph.file_count
  bytes ← sum manifest.byte_count graph.byte_count
  equal_count (← field ms (codes "fileCount")) files
  equal_count (← field ms (codes "byteCount")) bytes
  some (record { manifest = manifest; graph = graph; file_count = files; byte_count = bytes })

unfoldable pub validate_runtime : Json → Option Runtime
unfolding source_shape enum_value validate_graph fingerprint_text validate_file_list runtime_of
validate_runtime value = do
  ms ← source_shape value runtime_keys runtime_keys
  mode ← enum_value (← field ms (codes "mode")) runtime_modes
  fingerprint ← fingerprint_text (← field ms (codes "fingerprint"))
  manifest ← validate_file_list (← field ms (codes "files"))
  graph ← validate_graph (← field ms (codes "dependencies")) none
  runtime_of ms manifest graph

-- The paths that a run includes: unique and sorted.
unfoldable pub includes_from : Option Text → List Json → Option (Unit {0})
unfolding portable_path
includes_from before [] = some tt
includes_from before (value ∷ values) = do
  path ← portable_path value true
  guard (comes_after before path)
  includes_from (some path) values

-- What the parts of an identity add up to.
pub record Sources : Type 0 where
  pub manifest : Manifest
  pub dependencies : Graph
  pub runtime : Runtime

unfoldable pub equal_totals : Dict Json → Sources → Option (Unit {0})
unfolding sum equal_count
equal_totals ms s = do
  some_files ← sum (length s.manifest.files) s.dependencies.file_count
  files ← sum some_files s.runtime.file_count
  some_bytes ← sum s.manifest.byte_count s.dependencies.byte_count
  bytes ← sum some_bytes s.runtime.byte_count
  equal_count (← field ms (codes "fileCount")) files
  equal_count (← field ms (codes "byteCount")) bytes
  guard (leb files max_source_files && leb bytes max_source_bytes)

abbrev pub component_keys : List Text
component_keys = codes "source" ∷ codes "dependencies" ∷ codes "runtime" ∷ []

-- The components, with the entry among the files of the source.
unfoldable pub sources_of : Dict Json → Json → Option Sources
unfolding validate_files portable_path validate_graph validate_runtime
sources_of components entry_value = do
  files ← validate_files (← field components (codes "source"))
  let (fingerprint, manifest) = files
  entry ← portable_path entry_value false
  guard (has entry (paths_of manifest))
  dependencies ←
      validate_graph (← field components (codes "dependencies")) (some (paths_of manifest))
  runtime ← validate_runtime (← field components (codes "runtime"))
  some (record { manifest = manifest; dependencies = dependencies; runtime = runtime })

unfoldable pub sources_value : Dict Json → Option Sources
unfolding source_shape sources_of
sources_value ms = do
  components ← source_shape (← field ms (codes "components")) component_keys component_keys
  sources_of components (← field ms (codes "entry"))

abbrev pub source_keys : List Text
source_keys =
    codes "version"
    ∷ codes "profile"
    ∷ codes "algorithm"
    ∷ codes "fingerprint"
    ∷ codes "entry"
    ∷ codes "includes"
    ∷ codes "sharedPackages"
    ∷ codes "components"
    ∷ codes "fileCount"
    ∷ codes "byteCount"
    ∷ []

unfoldable pub identity_text : Dict Json → Option Text
unfolding equal_count literal fingerprint_text
identity_text ms = do
  equal_count (← field ms (codes "version")) 1
  literal (← field ms (codes "profile")) (codes "node-source-v1")
  literal (← field ms (codes "algorithm")) (codes "sha256")
  fingerprint_text (← field ms (codes "fingerprint"))

-- The fingerprint of an identity, and the parts that were checked.
unfoldable pub validate_source_identity : Json → Option (Text × Sources)
unfolding source_shape identity_text sources_value source_array includes_from shared_from
    equal_totals
validate_source_identity value = do
  ms ← source_shape value source_keys source_keys
  fingerprint ← identity_text ms
  sources ← sources_value ms
  includes ← source_array (← field ms (codes "includes"))
  includes_from none includes
  shared ← source_array (← field ms (codes "sharedPackages"))
  shared_from sources.dependencies.packages sources.runtime.graph.packages none [] shared
  equal_totals ms sources
  some (fingerprint, sources)

-- What a run keeps of a source identity.
unfoldable pub source_fingerprint : Json → Option Text
unfolding validate_source_identity
source_fingerprint value = do checked ← validate_source_identity value; some checked.0
