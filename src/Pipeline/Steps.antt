-- ===== src/Pipeline/Steps.antt =====
-- The steps that the flows share, pkg/pipeline/pipeline.go.
pub mod Kept
use gemaal.Base.{
  List, [], ◌∷◌, ◌++◌, Bool, true, false, Option, none, some, Text, codes, cut_prefix, split,
  is_blank, fields, is_empty, not,
}
use gemaal.Engine.Types.{Result, ok, err}
use gemaal.Pipeline.{Config, Chart}
use gemaal.Pipeline.Select.{Selection, SelectError, select_ring_charts}
use gemaal.Pipeline.Flow.{
  ◌>>◌, Event, Outside, Step, FlowError, call_failed, empty_toplevel, no_version,
  no_packaged_charts, not_selected, ◌>>=◌, give, fail, skip, require, perform, attempt,
  show_toplevel, glob_charts, remove_file, read_manifest, make_charts_out, update_dependencies,
  package_ring2, package_pinned, read_stamp, ecr_password, registry_login, helm_push,
}

abbrev pub first_word : List Text → Option Text
first_word [] = none
first_word (w ∷ ws) = some w

-- the first word behind "version:" on the first line that begins so
unfoldable pub version_in : List Text → Option Text
unfolding cut_prefix
version_in [] = none
version_in (line ∷ lines) = elim (cut_prefix line (codes "version:")) [
  | none ↦ version_in lines
  | some rest ↦ first_word (fields rest)
]

-- the parts put together, as `strings.Join` with nothing between them
abbrev pub concat_words : List Text → Text
concat_words [] = []
concat_words (w ∷ ws) = w ++ concat_words ws

abbrev pub lift_glob : Result Text (List Text) → Result FlowError (List Text)
lift_glob (ok paths) = ok paths
lift_glob (err e) = err (call_failed e)

abbrev pub lift_selection : Result SelectError Selection → Result FlowError Selection
lift_selection (ok sel) = ok sel
lift_selection (err e) = err (not_selected e)

module _ {S : Type 0} (o : Outside) where
  unfoldable pub resolve_root : Step S Unit
  unfolding perform
  resolve_root = do out ← perform o show_toplevel; require (not (is_blank out)) empty_toplevel

  abbrev pub tolerate : Result Text Text → Step S Unit
  tolerate (ok t) = skip
  tolerate (err e) = require (o.not_exist e) (call_failed e)

  unfoldable pub remove_if_there : Text → Step S Unit
  unfolding attempt
  remove_if_there path = do r ← attempt o (remove_file path); tolerate r

  abbrev pub remove_all : List Text → Step S Unit
  remove_all [] = skip
  remove_all (path ∷ paths) = do remove_if_there path; remove_all paths

  unfoldable pub list_charts : Step S (List Text)
  unfolding attempt
  list_charts = do attempt o glob_charts; λ w. (w, lift_glob (o.glob w.trace))

  unfoldable pub clean_charts_output : Text → Step S Unit
  unfolding list_charts remove_if_there
  clean_charts_output stamp_path = do
    paths ← list_charts
    remove_all paths
    remove_if_there stamp_path

  abbrev pub version_or_fail : Option Text → Step S Text
  version_or_fail none = fail no_version
  version_or_fail (some v) = give v

  unfoldable pub manifest_version : Step S Text
  unfolding perform version_in
  manifest_version = do
    raw ← perform o read_manifest
    version_or_fail (version_in (split raw b'\n'))

  -- a call whose output nobody reads
  abbrev pub call : Event → Step S Unit
  call e = do perform o e; skip

  abbrev pub call_if : Bool → Event → Step S Unit
  call_if true e = call e
  call_if false e = skip

  unfoldable pub vendor_dependencies : Chart → Step S Unit
  unfolding perform
  vendor_dependencies ch = call_if ch.vendor_dependencies (update_dependencies ch)

  abbrev pub package_extras : List Chart → Step S Unit
  package_extras [] = skip
  package_extras (ch ∷ chs) = do
    vendor_dependencies ch
    call (package_pinned ch)
    package_extras chs

  unfoldable pub package_charts : Config → Text → Step S Unit
  unfolding perform vendor_dependencies
  package_charts c version = do
    call make_charts_out
    vendor_dependencies c.charts.ring2
    call (package_ring2 version)
    package_extras c.charts.extra
    call (package_pinned c.charts.ring3)

  abbrev pub push_each : List Text → Step S Unit
  push_each [] = skip
  push_each (path ∷ paths) = do call (helm_push path); push_each paths

  unfoldable pub push_charts : Step S Unit
  unfolding list_charts perform
  push_charts = do
    paths ← list_charts
    require (not (is_empty paths)) no_packaged_charts
    push_each paths

  abbrev pub stamp_value : Result Text Text → Step S (Option Text)
  stamp_value (ok raw) = give (some (concat_words (fields raw)))
  stamp_value (err e) = do require (o.not_exist e) (call_failed e); give none

  -- the stamp in a file, or that there is none
  unfoldable pub read_release_stamp : Text → Step S (Option Text)
  unfolding attempt
  read_release_stamp path = do r ← attempt o (read_stamp path); stamp_value r

  unfoldable pub ecr_login : Step S Unit
  unfolding perform
  ecr_login = do call ecr_password; call registry_login

  -- the selection from the files staged by now
  unfoldable pub select_staged : Config → Text → Step S Selection
  unfolding select_ring_charts
  select_staged c dir w = (w, lift_selection (select_ring_charts c.charts (o.stage w.trace) dir))
