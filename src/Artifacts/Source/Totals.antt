-- ===== src/Artifacts/Source/Totals.antt =====
-- The totals of a source identity are those of its files.
use interleave.Prelude.{
  ℕ, suc, ◌+◌, ◌≤◌, ◌≡◌, ap, subst, false, Option, none, some, List, [], ◌∷◌, Text, Dict, codes,
  length, has, arith, bind-some, guard-some, some_injective,
}
use interleave.Artifacts.Json.{Json}
use interleave.Artifacts.Fields.{field, enum_value}
use interleave.Artifacts.Source.{
  source_shape, source_array, sum, equal_count, portable_path, fingerprint_text, max_source_files,
  max_source_bytes,
}
use interleave.Artifacts.Source.Files.{Manifest, validate_file_list, validate_files, paths_of}
use interleave.Artifacts.Source.Graph.{
  Package, source_package, Graph, packages_from, graph_keys, graph_packages, graph_edges,
  graph_counts, validate_graph,
}
use interleave.Artifacts.Source.Identity.{
  shared_from, Runtime, runtime_keys, runtime_modes, runtime_of, validate_runtime, includes_from,
  Sources, equal_totals, component_keys, sources_value, sources_of, source_keys, identity_text,
  validate_source_identity,
}
use interleave.Artifacts.Source.Counts.{
  bytes_in, sum-some, validate_file_list-bytes, validate_files-bytes, source_package-bytes,
}

abbrev pub files_of_all : List Package → ℕ
files_of_all [] = 0
files_of_all (p ∷ ps) = length p.manifest.files + files_of_all ps

abbrev pub bytes_of_all : List Package → ℕ
bytes_of_all [] = 0
bytes_of_all (p ∷ ps) = bytes_in p.manifest.files + bytes_of_all ps

-- The counts of a graph are those of its packages' files.
abbrev AddsUp : ℕ → ℕ → Graph → Type 0
AddsUp files bytes g =
    (g.file_count ≡ files + files_of_all g.packages)
    × (g.byte_count ≡ bytes + bytes_of_all g.packages)

packages_from-AddsUp :
    (index files bytes : ℕ) (vs : List Json) (g : Graph)
    → packages_from index files bytes vs ≡ some g
    → AddsUp files bytes g
unfolding packages_from
packages_from-AddsUp index files bytes [] g h =
    subst (AddsUp files bytes) (some_injective h) (omega arith, omega arith)
packages_from-AddsUp index files bytes (v ∷ vs) g h =
    let (p, e0, k0) = bind-some (source_package index v) _ h in
    let (files', e1, k1) = bind-some (sum files (length p.manifest.files)) _ k0 in
    let (bytes', e2, k2) = bind-some (sum bytes p.manifest.byte_count) _ k1 in
    let (rest, e3, k3) = bind-some (packages_from (suc index) files' bytes' vs) _ k2 in
    let (after, after') = packages_from-AddsUp (suc index) files' bytes' vs rest e3 in
    subst (AddsUp files bytes) (some_injective k3) (
      omega (arith, sum-some files (length p.manifest.files) files' e1),
      omega (
        arith,
        sum-some bytes p.manifest.byte_count bytes' e2,
        source_package-bytes index v p e0,
      ),
    )

graph_packages-AddsUp : (ms : Dict Json) (g : Graph) → graph_packages ms ≡ some g → AddsUp 0 0 g
unfolding graph_packages
graph_packages-AddsUp ms g h =
    let (f0, e0, k0) = bind-some (field ms (codes "fingerprint")) _ h in
    let (print, e1, k1) = bind-some (fingerprint_text f0) _ k0 in
    let (f2, e2, k2) = bind-some (field ms (codes "packages")) _ k1 in
    let (values, e3, k3) = bind-some (source_array f2) _ k2 in
    packages_from-AddsUp 0 0 0 values g k3

validate_graph-AddsUp :
    (v : Json) (sources : Option (List Text)) (g : Graph)
    → validate_graph v sources ≡ some g
    → AddsUp 0 0 g
unfolding validate_graph
validate_graph-AddsUp v sources g h =
    let (ms, e, k) = bind-some (source_shape v graph_keys graph_keys) _ h in
    let (graph, e0, k0) = bind-some (graph_packages ms) _ k in
    let (u1, e1, k1) = bind-some (graph_edges ms sources graph) _ k0 in
    let (u2, e2, k2) = bind-some (graph_counts ms graph) _ k1 in
    subst (AddsUp 0 0) (some_injective k2) (graph_packages-AddsUp ms graph e0)

-- A runtime's counts are those of its own files and of its packages' files.
abbrev RuntimeAddsUp : Runtime → Type 0
RuntimeAddsUp r =
    (r.file_count ≡ length r.manifest.files + files_of_all r.graph.packages)
    × (r.byte_count ≡ bytes_in r.manifest.files + bytes_of_all r.graph.packages)

runtime_counts :
    (m : Manifest) (g : Graph) (files bytes : ℕ)
    → m.byte_count ≡ bytes_in m.files
    → AddsUp 0 0 g
    → sum (length m.files) g.file_count ≡ some files
    → sum m.byte_count g.byte_count ≡ some bytes
    → RuntimeAddsUp (record { manifest = m; graph = g; file_count = files; byte_count = bytes })
runtime_counts m g files bytes own (graph_files, graph_bytes) e e' = (
  omega (arith, sum-some (length m.files) g.file_count files e),
  omega (arith, sum-some m.byte_count g.byte_count bytes e'),
)

runtime_of-RuntimeAddsUp :
    (ms : Dict Json) (m : Manifest) (g : Graph) (r : Runtime)
    → m.byte_count ≡ bytes_in m.files
    → AddsUp 0 0 g
    → runtime_of ms m g ≡ some r
    → RuntimeAddsUp r
unfolding runtime_of
runtime_of-RuntimeAddsUp ms m g r own inner h =
    let (files, e0, k0) = bind-some (sum (length m.files) g.file_count) _ h in
    let (bytes, e1, k1) = bind-some (sum m.byte_count g.byte_count) _ k0 in
    let (f2, e2, k2) = bind-some (field ms (codes "fileCount")) _ k1 in
    let (u3, e3, k3) = bind-some (equal_count f2 files) _ k2 in
    let (f4, e4, k4) = bind-some (field ms (codes "byteCount")) _ k3 in
    let (u5, e5, k5) = bind-some (equal_count f4 bytes) _ k4 in
    subst RuntimeAddsUp (some_injective k5) (runtime_counts m g files bytes own inner e0 e1)

validate_runtime-RuntimeAddsUp :
    (v : Json) (r : Runtime) → validate_runtime v ≡ some r → RuntimeAddsUp r
unfolding validate_runtime
validate_runtime-RuntimeAddsUp v r h =
    let (ms, e0, k0) = bind-some (source_shape v runtime_keys runtime_keys) _ h in
    let (f1, e1, k1) = bind-some (field ms (codes "mode")) _ k0 in
    let (mode, e2, k2) = bind-some (enum_value f1 runtime_modes) _ k1 in
    let (f3, e3, k3) = bind-some (field ms (codes "fingerprint")) _ k2 in
    let (print, e4, k4) = bind-some (fingerprint_text f3) _ k3 in
    let (f5, e5, k5) = bind-some (field ms (codes "files")) _ k4 in
    let (m, e6, k6) = bind-some (validate_file_list f5) _ k5 in
    let (f7, e7, k7) = bind-some (field ms (codes "dependencies")) _ k6 in
    let (g, e8, k8) = bind-some (validate_graph f7 none) _ k7 in
    runtime_of-RuntimeAddsUp ms m g r (validate_file_list-bytes f5 m e6)
      (validate_graph-AddsUp f7 none g e8) k8

-- The parts of an identity, with their own counts right.
abbrev PartsAddUp : Sources → Type 0
PartsAddUp s =
    (s.manifest.byte_count ≡ bytes_in s.manifest.files)
    × AddsUp 0 0 s.dependencies
    × RuntimeAddsUp s.runtime

sources_of-PartsAddUp :
    (components : Dict Json) (v : Json) (s : Sources)
    → sources_of components v ≡ some s
    → PartsAddUp s
unfolding sources_of
sources_of-PartsAddUp components v s h =
    let (f0, e0, k0) = bind-some (field components (codes "source")) _ h in
    let (files, e1, k1) = bind-some (validate_files f0) _ k0 in
    let (entry, e2, k2) = bind-some (portable_path v false) _ k1 in
    let (listed, k3) = guard-some (has entry (paths_of files.1)) _ k2 in
    let (f4, e4, k4) = bind-some (field components (codes "dependencies")) _ k3 in
    let (graph, e5, k5) = bind-some (validate_graph f4 (some (paths_of files.1))) _ k4 in
    let (f6, e6, k6) = bind-some (field components (codes "runtime")) _ k5 in
    let (runtime, e7, k7) = bind-some (validate_runtime f6) _ k6 in
    subst PartsAddUp (some_injective k7) (
      validate_files-bytes f0 files e1,
      validate_graph-AddsUp f4 (some (paths_of files.1)) graph e5,
      validate_runtime-RuntimeAddsUp f6 runtime e7,
    )

sources_value-PartsAddUp : (ms : Dict Json) (s : Sources) → sources_value ms ≡ some s → PartsAddUp s
unfolding sources_value
sources_value-PartsAddUp ms s h =
    let (f0, e0, k0) = bind-some (field ms (codes "components")) _ h in
    let (components, e1, k1) = bind-some (source_shape f0 component_keys component_keys) _ k0 in
    let (entry, e2, k2) = bind-some (field ms (codes "entry")) _ k1 in
    sources_of-PartsAddUp components entry s k2

-- The files and the bytes of all parts.
abbrev pub total_files : Sources → ℕ
total_files s =
    length s.manifest.files
    + files_of_all s.dependencies.packages
    + (length s.runtime.manifest.files + files_of_all s.runtime.graph.packages)

abbrev pub total_bytes : Sources → ℕ
total_bytes s =
    bytes_in s.manifest.files
    + bytes_of_all s.dependencies.packages
    + (bytes_in s.runtime.manifest.files + bytes_of_all s.runtime.graph.packages)

equal_totals-within :
    (ms : Dict Json) (s : Sources)
    → PartsAddUp s
    → equal_totals ms s ≡ some tt
    → (total_files s ≤ max_source_files) × (total_bytes s ≤ max_source_bytes)
unfolding equal_totals
equal_totals-within ms s p h =
    let (a, e0, k0) = bind-some (sum (length s.manifest.files) s.dependencies.file_count) _ h in
    let (files, e1, k1) = bind-some (sum a s.runtime.file_count) _ k0 in
    let (b, e2, k2) = bind-some (sum s.manifest.byte_count s.dependencies.byte_count) _ k1 in
    let (bytes, e3, k3) = bind-some (sum b s.runtime.byte_count) _ k2 in
    let (f4, e4, k4) = bind-some (field ms (codes "fileCount")) _ k3 in
    let (u5, e5, k5) = bind-some (equal_count f4 files) _ k4 in
    let (f6, e6, k6) = bind-some (field ms (codes "byteCount")) _ k5 in
    let (u7, e7, k7) = bind-some (equal_count f6 bytes) _ k6 in
    let first = sum-some (length s.manifest.files) s.dependencies.file_count a e0 in
    let second = sum-some a s.runtime.file_count files e1 in
    let third = sum-some s.manifest.byte_count s.dependencies.byte_count b e2 in
    let fourth = sum-some b s.runtime.byte_count bytes e3 in
    let (whole, (graph_files, graph_bytes), (runtime_files, runtime_bytes)) = p in
    (ground arith, ground arith)

-- A source identity that is accepted has at most 100000 files and 256 MiB in all, where the files of
-- its manifest, of its runtime and of the packages of both are counted one by one.
pub validate_source_identity-within :
    (v : Json) (print : Text) (s : Sources)
    → validate_source_identity v ≡ some (print, s)
    → (total_files s ≤ max_source_files) × (total_bytes s ≤ max_source_bytes)
unfolding validate_source_identity
validate_source_identity-within v print s h =
    let (ms, e, k) = bind-some (source_shape v source_keys source_keys) _ h in
    let (own, e0, k0) = bind-some (identity_text ms) _ k in
    let (sources, e1, k1) = bind-some (sources_value ms) _ k0 in
    let (f2, e2, k2) = bind-some (field ms (codes "includes")) _ k1 in
    let (includes, e3, k3) = bind-some (source_array f2) _ k2 in
    let (u4, e4, k4) = bind-some (includes_from none includes) _ k3 in
    let (f5, e5, k5) = bind-some (field ms (codes "sharedPackages")) _ k4 in
    let (shared, e6, k6) = bind-some (source_array f5) _ k5 in
    let (u7, e7, k7) =
      bind-some
        (shared_from sources.dependencies.packages sources.runtime.graph.packages none [] shared) _
        k6 in
    let (u8, e8, k8) = bind-some (equal_totals ms sources) _ k7 in
    let bounded = equal_totals-within ms sources (sources_value-PartsAddUp ms sources e1) e8 in
    subst (λ x. (total_files x ≤ max_source_files) × (total_bytes x ≤ max_source_bytes))
      (ap (λ r. r.1) (some_injective k8)) bounded
