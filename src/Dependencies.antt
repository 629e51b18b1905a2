-- ===== src/Dependencies.antt =====
-- backend/server/src/dependency_comparison.rs: the runtime dependencies that a pull request adds to
-- the outputs of its packages or removes from them. The queries of the database are an interface;
-- `none` is their error. Store paths are
-- ASCII in Nix; `extract_panics` tells where the slices of bytes panic on another text, and what
-- `extract_pname` gives there means nothing.
pub mod Filtered
mod Tests
use eka_ci.Prelude.{
  ℕ, ◌==◌, ◌-◌, Bool, true, false, not, ◌||◌, Option, none, some, List, [], ◌∷◌, ◌++◌,
  if◌then◌else◌, leb, ltb, length, skip, is_empty, any, retain, contains, set_insert, HashMap, keys,
  contains_key, take, insert, map,
}
use eka_ci.Prelude.Text.{Text, text, Text_eq, strip_prefix}
use eka_ci.Prelude.Ordered.{Text_order, difference}
use eka_ci.Prelude.Bytes.{byte_len, slice_from, decimal}
use eka_ci.Scheduler.Features.{split}
use eka_ci.Changes.Names.{pname_from_name, panics_on, unwrap_or}
use eka_ci.Changes.Render.{and_then}
use eka_ci.Changes.Render.Rows.{concat}

-- Behind the hash and its dash, the name is cut as `pname_from_name` cuts one: the code repeats it.
unfoldable pub extract_pname : Text → Text
extract_pname store_path =
    let name_part = unwrap_or (strip_prefix store_path (text "/nix/store/")) store_path in
    if leb (byte_len name_part) 33
    then name_part
    else pname_from_name (unwrap_or (slice_from 33 name_part) name_part)

unfoldable pub extract_panics : Text → Bool
extract_panics store_path =
    let name_part = unwrap_or (strip_prefix store_path (text "/nix/store/")) store_path in
    if leb (byte_len name_part) 33
    then false
    else elim (slice_from 33 name_part) as (λ o. Bool) [ none ↦ true | some name ↦ panics_on name ]

-- `collect` into a `HashSet`.
unfoldable pub to_set : List Text → List Text
to_set [] = []
to_set (x ∷ xs) = set_insert x (to_set xs)

-- The store path of each package name, the last one where several have it.
unfoldable pub by_pname : HashMap Text Text → List Text → HashMap Text Text
by_pname m [] = m
by_pname m (path ∷ paths) = by_pname (insert (extract_pname path) path m) paths

unfoldable pub filter_version_changes : List Text → List Text → List Text × List Text
filter_version_changes added removed =
    let removed_by_pname = by_pname [] removed in
    let changed = retain (contains_key removed_by_pname) (keys (by_pname [] added)) in
    let is_true = λ (path : Text). not (contains changed (extract_pname path)) in
    (retain is_true added, retain is_true removed)

pub record DependencyComparison : Type 0 where
  pub attr_path : Text
  pub output_name : Text
  pub base_dep_count : ℕ
  pub head_dep_count : ℕ
  pub added_deps : List Text
  pub removed_deps : List Text

-- The comparison of one output, from its references in the base and in the head.
unfoldable pub compare_output :
    Text → Text → (base_refs head_refs : List Text) → Option DependencyComparison
compare_output attr_path output_name base_refs head_refs =
    let base_set = to_set base_refs in
    let head_set = to_set head_refs in
    let (added, removed) =
      filter_version_changes (difference head_set base_set) (difference base_set head_set) in
    if is_empty base_refs || is_empty head_refs
    then none
    else if length base_refs == length head_refs
    then none
    else if not (is_empty added) || not (is_empty removed)
    then some (record {
      attr_path = attr_path;
      output_name = output_name;
      base_dep_count = length base_set;
      head_dep_count = length head_set;
      added_deps = added;
      removed_deps = removed;
    })
    else none

-- The queries.
pub record RuntimeReferences : Type 0 where
  pub base_drv_of : Text → Option (Option ℕ)
  pub drv_id_of : Text → Option (Option ℕ)
  pub get_output_paths : ℕ → Option (HashMap Text Text)
  pub get_runtime_references : ℕ → Text → Option (List Text)

abbrev push_some {ℓ} : {A : Type ℓ} → Option A → List A → List A
push_some none xs = xs
push_some (some x) xs = x ∷ xs

module _ (db : RuntimeReferences) where
  -- The loop over the outputs of one package.
  unfoldable pub compare_outputs :
      Text → ℕ → ℕ → HashMap Text Text → List Text → Option (List DependencyComparison)
  compare_outputs attr_path base head base_outputs [] = some []
  compare_outputs attr_path base head base_outputs (output ∷ outputs) =
      let rest = compare_outputs attr_path base head base_outputs outputs in
      if not (contains_key base_outputs output)
      then rest
      else and_then (db.get_runtime_references base output) (λ base_refs.
        and_then (db.get_runtime_references head output) (λ head_refs. and_then rest (λ others.
          some (push_some (compare_output attr_path output base_refs head_refs) others))))

  -- The comparison of one package; nothing where it is new, unknown or without recorded outputs.
  unfoldable pub compare_drvs : Text → Option ℕ → Option ℕ → Option (List DependencyComparison)
  compare_drvs attr_path none head = some []
  compare_drvs attr_path (some base) none = some []
  compare_drvs attr_path (some base) (some head) =
      and_then (db.get_output_paths base) (λ base_outputs.
        and_then (db.get_output_paths head) (λ head_outputs.
          if is_empty base_outputs || is_empty head_outputs
          then some []
          else compare_outputs attr_path base head base_outputs (keys head_outputs)))

  -- The head's identifier is asked for only where the base has the package.
  unfoldable pub compare_job : Text → Text → Option (List DependencyComparison)
  compare_job attr_path head_drv_path = and_then (db.base_drv_of attr_path) (λ base.
      elim base as (λ o. Option (List DependencyComparison)) [
        | none ↦ some []
        | some b ↦ and_then (db.drv_id_of head_drv_path) (compare_drvs attr_path (some b))
      ])

  -- The loop over the jobs of the head: an error of a query ends it.
  unfoldable pub compare_runtime_references :
      List (Text × Text) → Option (List DependencyComparison)
  compare_runtime_references [] = some []
  compare_runtime_references ((attr_path, head_drv_path) ∷ jobs) =
      and_then (compare_job attr_path head_drv_path)
        (λ found. and_then (compare_runtime_references jobs) (λ others. some (found ++ others)))

-- The difference of the counts, with its sign.
unfoldable pub count_change : ℕ → ℕ → Text
count_change base head =
    if ltb base head
    then b'+' ∷ decimal (head - base)
    else if ltb head base
    then b'-' ∷ decimal (base - head)
    else decimal 0

unfoldable pub lines_of : Text → List Text → Text
lines_of sign [] = []
lines_of sign (dep ∷ deps) = concat (sign ∷ dep ∷ text "\n" ∷ lines_of sign deps ∷ [])

unfoldable pub format_comparison : DependencyComparison → Text
format_comparison c = concat (
    text "## "
    ∷ c.attr_path
    ∷ text "!"
    ∷ c.output_name
    ∷ text "\n*Runtime dependencies: "
    ∷ decimal c.base_dep_count
    ∷ text " → "
    ∷ decimal c.head_dep_count
    ∷ text " ("
    ∷ count_change c.base_dep_count c.head_dep_count
    ∷ text ")*\n\n"
    ∷ lines_of (text "+ ") c.added_deps
    ∷ lines_of (text "- ") c.removed_deps
    ∷ text "\n"
    ∷ [])

unfoldable pub format_dependency_changes_as_diff : List DependencyComparison → Text
format_dependency_changes_as_diff comparisons =
    if is_empty comparisons
    then text "No dependency changes detected."
    else concat (map format_comparison comparisons)
