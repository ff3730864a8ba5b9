-- ===== src/Pipeline/Steps/Kept.antt =====
-- What the shared steps of pkg/pipeline/pipeline.go keep: a condition on runs that survives the
-- calls a step makes survives the step.
use gemaal.Base.{
  List, [], ◌∷◌, Bool, true, false, not, is_empty, is_blank, Option, none, some, Text, ◌≡◌, split,
  fields,
}
use gemaal.Engine.Types.{Result, ok, err}
use gemaal.Pipeline.{Config, Chart}
use gemaal.Pipeline.Select.{SelectError, Selection, select_ring_charts}
use gemaal.Pipeline.Flow.{
  take_lock, drop_lock, set_lock, unlock, acquire_chart_lock, release_chart_lock, keep_result,
  released, holding_lock, Event, Outside, Run, Step, FlowError, no_version, call_failed,
  empty_toplevel, no_packaged_charts, record_call, perform, attempt, lift_call, show_toplevel,
  glob_charts, remove_file, read_manifest, make_charts_out, update_dependencies, package_ring2,
  package_pinned, read_stamp, ecr_password, registry_login, helm_push,
}
use gemaal.Pipeline.Flow.Triples.{Triple, >>=-Triple, Keeps, Ends, ◌⟫◌, kept_by_none, require-Keeps}
use gemaal.Pipeline.Steps.{
  call, call_if, resolve_root, tolerate, remove_if_there, remove_all, list_charts, lift_glob,
  clean_charts_output, version_or_fail, version_in, manifest_version, vendor_dependencies,
  package_extras, package_charts, push_each, push_charts, stamp_value, read_release_stamp,
  ecr_login, select_staged, lift_selection, concat_words,
}

module _ {S : Type 0} (o : Outside) (I : Run S → Type 0) (good : Event → Bool)
    (kept : (e : Event)
      → good e ≡ true
      → (r : Result Text Text) (w : Run S) → I w
      → I (record_call w e r)) where
  lifted-Ends : (w : Run S) (r : Result Text Text) → I w → Ends (λ _. I) I (w, lift_call r)
  lifted-Ends w (ok t) p = p
  lifted-Ends w (err t) p = p

  pub perform-Keeps : (e : Event) → good e ≡ true → Keeps I (perform o e)
  unfolding perform
  perform-Keeps e g = record {
    run = λ w p.
        lifted-Ends (record_call w e (o.answer w.trace e)) (o.answer w.trace e)
          (kept e g (o.answer w.trace e) w p);
  }

  pub attempt-Keeps : (e : Event) → good e ≡ true → Keeps I (attempt o e)
  unfolding attempt
  attempt-Keeps e g = record { run = λ w p. kept e g (o.answer w.trace e) w p }

  pub call-Keeps : (e : Event) → good e ≡ true → Keeps I (call o e)
  call-Keeps e g = perform-Keeps e g ⟫ λ _. kept_by_none (ok tt)

  pub call_if-Keeps : (b : Bool) (e : Event) → good e ≡ true → Keeps I (call_if o b e)
  call_if-Keeps true e g = call-Keeps e g
  call_if-Keeps false e g = kept_by_none (ok tt)

  pub resolve_root-Keeps : good show_toplevel ≡ true → Keeps I (resolve_root o)
  unfolding resolve_root
  resolve_root-Keeps g =
      perform-Keeps show_toplevel g ⟫ λ out. require-Keeps I (not (is_blank out)) empty_toplevel

  tolerate-Keeps : (r : Result Text Text) → Keeps I (tolerate o r)
  tolerate-Keeps (ok t) = kept_by_none (ok tt)
  tolerate-Keeps (err e) = require-Keeps I (o.not_exist e) (call_failed e)

  remove_if_there-Keeps :
      ((path : Text) → good (remove_file path) ≡ true)
      → (path : Text) → Keeps I (remove_if_there o path)
  unfolding remove_if_there
  remove_if_there-Keeps g path = attempt-Keeps (remove_file path) (g path) ⟫ tolerate-Keeps

  remove_all-Keeps :
      ((path : Text) → good (remove_file path) ≡ true)
      → (paths : List Text) → Keeps I (remove_all o paths)
  remove_all-Keeps g [] = kept_by_none (ok tt)
  remove_all-Keeps g (path ∷ paths) = remove_if_there-Keeps g path ⟫ λ _. remove_all-Keeps g paths

  globbed-Ends : (w : Run S) (r : Result Text (List Text)) → I w → Ends (λ _. I) I (w, lift_glob r)
  globbed-Ends w (ok t) p = p
  globbed-Ends w (err t) p = p

  globbed-Keeps : Keeps I (λ w. (w, lift_glob (o.glob w.trace)))
  globbed-Keeps = record { run = λ w p. globbed-Ends w (o.glob w.trace) p }

  pub list_charts-Keeps : good glob_charts ≡ true → Keeps I (list_charts o)
  unfolding list_charts
  list_charts-Keeps g = attempt-Keeps glob_charts g ⟫ λ _. globbed-Keeps

  pub clean_charts_output-Keeps :
      good glob_charts ≡ true
      → ((path : Text) → good (remove_file path) ≡ true)
      → (stamp_path : Text) → Keeps I (clean_charts_output o stamp_path)
  unfolding clean_charts_output
  clean_charts_output-Keeps g h stamp_path = list_charts-Keeps g ⟫ λ paths.
      remove_all-Keeps h paths ⟫ λ _. remove_if_there-Keeps h stamp_path

  version_or_fail-Keeps : (v : Option Text) → Keeps I (version_or_fail o v)
  version_or_fail-Keeps none = kept_by_none (err no_version)
  version_or_fail-Keeps (some v) = kept_by_none (ok v)

  pub manifest_version-Keeps : good read_manifest ≡ true → Keeps I (manifest_version o)
  unfolding manifest_version
  manifest_version-Keeps g =
      perform-Keeps read_manifest g ⟫ λ raw. version_or_fail-Keeps (version_in (split raw b'\n'))

  module _ (vendored : (ch : Chart) → good (update_dependencies ch) ≡ true)
      (pinned : (ch : Chart) → good (package_pinned ch) ≡ true) where
    vendor_dependencies-Keeps : (ch : Chart) → Keeps I (vendor_dependencies o ch)
    unfolding vendor_dependencies
    vendor_dependencies-Keeps ch =
        call_if-Keeps ch.vendor_dependencies (update_dependencies ch) (vendored ch)

    package_extras-Keeps : (chs : List Chart) → Keeps I (package_extras o chs)
    package_extras-Keeps [] = kept_by_none (ok tt)
    package_extras-Keeps (ch ∷ chs) = vendor_dependencies-Keeps ch ⟫ λ _.
        call-Keeps (package_pinned ch) (pinned ch) ⟫ λ _. package_extras-Keeps chs

    pub package_charts-Keeps :
        good make_charts_out ≡ true
        → ((version : Text) → good (package_ring2 version) ≡ true)
        → (c : Config) (version : Text) → Keeps I (package_charts o c version)
    unfolding package_charts
    package_charts-Keeps g h c version = call-Keeps make_charts_out g ⟫ λ _.
        vendor_dependencies-Keeps c.charts.ring2 ⟫ λ _.
        call-Keeps (package_ring2 version) (h version) ⟫ λ _.
        package_extras-Keeps c.charts.extra ⟫ λ _.
        call-Keeps (package_pinned c.charts.ring3) (pinned c.charts.ring3)

  push_each-Keeps :
      ((path : Text) → good (helm_push path) ≡ true)
      → (paths : List Text) → Keeps I (push_each o paths)
  push_each-Keeps g [] = kept_by_none (ok tt)
  push_each-Keeps g (path ∷ paths) =
      call-Keeps (helm_push path) (g path) ⟫ λ _. push_each-Keeps g paths

  pub push_charts-Keeps :
      good glob_charts ≡ true
      → ((path : Text) → good (helm_push path) ≡ true)
      → Keeps I (push_charts o)
  unfolding push_charts
  push_charts-Keeps g h = list_charts-Keeps g ⟫ λ paths.
      require-Keeps I (not (is_empty paths)) no_packaged_charts ⟫ λ _. push_each-Keeps h paths

  stamp_value-Keeps : (r : Result Text Text) → Keeps I (stamp_value o r)
  stamp_value-Keeps (ok raw) = kept_by_none (ok (some (concat_words (fields raw))))
  stamp_value-Keeps (err e) =
      require-Keeps I (o.not_exist e) (call_failed e) ⟫ λ _. kept_by_none (ok none)

  pub read_release_stamp-Keeps :
      (path : Text) → good (read_stamp path) ≡ true → Keeps I (read_release_stamp o path)
  unfolding read_release_stamp
  read_release_stamp-Keeps path g = attempt-Keeps (read_stamp path) g ⟫ stamp_value-Keeps

  pub ecr_login-Keeps :
      good ecr_password ≡ true → good registry_login ≡ true → Keeps I (ecr_login o)
  unfolding ecr_login
  ecr_login-Keeps g h = call-Keeps ecr_password g ⟫ λ _. call-Keeps registry_login h

  selected-Ends :
      (w : Run S) (r : Result SelectError Selection) → I w → Ends (λ _. I) I (w, lift_selection r)
  selected-Ends w (ok t) p = p
  selected-Ends w (err t) p = p

  pub select_staged-Keeps : (c : Config) (dir : Text) → Keeps I (select_staged o c dir)
  unfolding select_staged
  select_staged-Keeps c dir = record {
    run = λ w p. selected-Ends w (select_ring_charts c.charts (o.stage w.trace) dir) p;
  }

  module _ (unlocked : (w : Run S) (b : Bool) → I w → I (record w { locked = b })) where
    set_lock-Keeps : (b : Bool) → Keeps I (set_lock b)
    set_lock-Keeps b = record { run = λ w p. unlocked w b p }

    unlock-Keeps : good drop_lock ≡ true → (b : Bool) → Keeps I (unlock o b)
    unfolding unlock
    unlock-Keeps g true = attempt-Keeps drop_lock g ⟫ λ _. set_lock-Keeps false
    unlock-Keeps g false = kept_by_none (ok tt)

    pub release_chart_lock-Keeps : good drop_lock ≡ true → Keeps I (release_chart_lock o)
    unfolding release_chart_lock
    release_chart_lock-Keeps g = record { run = λ w p. (unlock-Keeps g w.locked).run w p }

    pub acquire_chart_lock-Keeps : good take_lock ≡ true → Keeps I (acquire_chart_lock o)
    unfolding acquire_chart_lock
    acquire_chart_lock-Keeps g = perform-Keeps take_lock g ⟫ λ _. set_lock-Keeps true

    kept-Ends :
        {A : Type 0} (r : Result FlowError A) (x : Run S × Result FlowError Unit)
        → Ends (λ _. I) I x
        → Ends (λ _. I) I (keep_result x r)
    kept-Ends (ok a) (w, ok tt) p = p
    kept-Ends (ok a) (w, err e) p = p
    kept-Ends (err f) (w, ok tt) p = p
    kept-Ends (err f) (w, err e) p = p

    released-Ends :
        {A : Type 0}
        → good drop_lock ≡ true
        → (x : Run S × Result FlowError A) → Ends (λ _. I) I x
        → Ends (λ _. I) I (released o x)
    released-Ends {A} g (w, ok a) p =
        kept-Ends (ok a) (release_chart_lock o w) ((release_chart_lock-Keeps g).run w p)
    released-Ends {A} g (w, err e) p =
        kept-Ends {A = A} (err e) (release_chart_lock o w) ((release_chart_lock-Keeps g).run w p)

    -- a flow under the lock, from a condition of its own to one that the release keeps
    pub holding_lock-Triple :
        {A : Type 0} (P : Run S → Type 0) (m : Step S A)
        → good drop_lock ≡ true
        → Triple P (acquire_chart_lock o) (λ _. P) I
        → Triple P m (λ _. I) I
        → Triple P (holding_lock o m) (λ _. I) I
    holding_lock-Triple P m g first body =
        >>=-Triple P (λ _. P) (λ _. I) I (acquire_chart_lock o) (λ _ w. released o (m w)) first
          (λ _ w p. released-Ends g (m w) (body w p))
