-- ===== src/Pipeline/Flow.antt =====
-- A run of one of the flows of pkg/pipeline: the calls that it makes, in order, with their answers.
-- An Event is a call of an external command, of the file system or of the chart lock; an answer may
-- depend on all calls before it. The image steps of images.go and koimages.go are one Event each.
pub mod Triples
use gemaal.Base.{List, [], ◌∷◌, ◌++◌, Bool, true, false, Text}
use gemaal.Engine.Types.{Result, ok, err}
use gemaal.Pipeline.{Chart}
use gemaal.Pipeline.Select.{Files, SelectError}

pub data Event : Type 0 where
  show_toplevel git_status git_fetch git_head git_remote_tip git_describe : Event
  git_ls_remote git_tag_object : Text → Event
  take_lock drop_lock glob_charts : Event
  remove_file : Text → Event
  pre_build : List Text → Event
  goreleaser publish_images publish_ko_images : Bool → Event
  goreleaser_manifest read_manifest make_charts_out : Event
  update_dependencies : Chart → Event
  package_ring2 : Text → Event
  package_pinned : Chart → Event
  write_stamp : Text → Event
  stat_charts stage_charts remove_stage : Event
  read_stamp : Text → Event
  ecr_password registry_login : Event
  push_chart : Text → Text → Text → Bool → Event
  helm_push : Text → Event

-- A call, its answer, and whether the run held the chart lock when it made it.
pub record Occurrence : Type 0 where
  pub event : Event
  pub answer : Result Text Text
  pub locked : Bool

-- What the flows meet. A glob's matches and the staged files are those of that moment.
pub record Outside : Type 0 where
  pub answer : List Occurrence → Event → Result Text Text
  pub glob : List Occurrence → Result Text (List Text)
  pub not_exist : Text → Bool
  pub stage : List Occurrence → Files

-- Where a run stands: its calls so far, whether it holds the lock, and the flow's own state.
pub record Run (S : Type 0) : Type 0 where
  pub trace : List Occurrence
  pub locked : Bool
  pub state : S

-- What a flow fails with; a call's error is passed on.
pub data FlowError : Type 0 where
  call_failed : Text → FlowError
  empty_toplevel not_clean not_tip no_tag unpushed_tag moved_tag no_version wrong_version :
      FlowError
  no_charts_dir unknown_provenance no_packaged_charts : FlowError
  wrong_stamp : Text → FlowError
  not_selected : SelectError → FlowError

abbrev pub Step : Type 0 → Type 0 → Type 0
Step S A = Run S → Run S × Result FlowError A

abbrev pub after :
    {S A B : Type 0} → Run S × Result FlowError A → (A → Step S B) → Run S × Result FlowError B
after (w, ok a) k = k a w
after (w, err e) k = (w, err e)

infixl 5 ◌>>=◌ ◌>>◌
abbrev pub ◌>>=◌ : {S A B : Type 0} → Step S A → (A → Step S B) → Step S B
(m >>= k) w = after (m w) k

abbrev pub ◌>>◌ : {S A B : Type 0} → Step S A → Step S B → Step S B
m >> k = m >>= λ _. k

abbrev pub give : {S A : Type 0} → A → Step S A
give a w = (w, ok a)

abbrev pub fail : {S A : Type 0} → FlowError → Step S A
fail e w = (w, err e)

abbrev pub skip : {S : Type 0} → Step S Unit
skip w = (w, ok tt)

abbrev pub require : {S : Type 0} → Bool → FlowError → Step S Unit
require true e w = (w, ok tt)
require false e w = (w, err e)

-- the call, with its answer and the lock, behind the calls so far
abbrev pub record_call : {S : Type 0} → Run S → Event → Result Text Text → Run S
record_call w e r = record w {
  trace = w.trace ++ (record { event = e; answer = r; locked = w.locked } ∷ []);
}

abbrev pub lift_call : Result Text Text → Result FlowError Text
lift_call (ok t) = ok t
lift_call (err t) = err (call_failed t)

-- a call whose error ends the flow
unfoldable pub perform : {S : Type 0} → Outside → Event → Step S Text
perform o e w = let r = o.answer w.trace e in (record_call w e r, lift_call r)

-- a call whose error the flow looks at
unfoldable pub attempt : {S : Type 0} → Outside → Event → Step S (Result Text Text)
attempt o e w = let r = o.answer w.trace e in (record_call w e r, ok r)

unfoldable pub update : {S : Type 0} → (S → S) → Step S Unit
update f w = (record w { state = f w.state }, ok tt)

abbrev pub set_lock : {S : Type 0} → Bool → Step S Unit
set_lock b w = (record w { locked = b }, ok tt)

-- `acquireChartLock`, and the release that it returns, which unlocks once
unfoldable pub acquire_chart_lock : {S : Type 0} → Outside → Step S Unit
unfolding perform
acquire_chart_lock o = do perform o take_lock; set_lock true

unfoldable pub unlock : {S : Type 0} → Outside → Bool → Step S Unit
unfolding attempt
unlock o true = do attempt o drop_lock; set_lock false
unlock o false = skip

unfoldable pub release_chart_lock : {S : Type 0} → Outside → Step S Unit
unfolding unlock
release_chart_lock o w = unlock o w.locked w

-- the deferred release: whatever a flow ends with, the lock is dropped
abbrev pub keep_result :
    {S A : Type 0} → Run S × Result FlowError Unit → Result FlowError A → Run S × Result FlowError A
keep_result (w, r) result = (w, result)

abbrev pub released :
    {S A : Type 0} → Outside → Run S × Result FlowError A → Run S × Result FlowError A
released o (w, r) = keep_result (release_chart_lock o w) r

abbrev pub holding_lock : {S A : Type 0} → Outside → Step S A → Step S A
holding_lock o m = do acquire_chart_lock o; λ w. released o (m w)
