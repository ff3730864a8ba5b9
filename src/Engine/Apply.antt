-- ===== src/Engine/Apply.antt =====
-- pkg/engine/apply.go: from a plan to calls of the clients. The outside world is the trace of the
-- calls made so far, with what it answers to the next one; a client error leaves the call made.
pub mod Gates
pub mod Calls
pub mod Ringed
pub mod Reach
pub mod TestRoots
use gemaal.Base.{
  ℕ, List, [], ◌∷◌, ◌++◌, map, not, Bool, false, Option, none, some, Text, codes, slash, ℤ, text_eq,
  cut_prefix, has_prefix, trim_prefix, cut, if◌then◌else◌, any, is_some, length,
}
use mathlib.Core.Option
use gemaal.Config.{AllowList}
use gemaal.Engine.Types.{
  Engine, Kind, helm_release, s3_prefix, ssm_prefix, other, Tenant, Item, Action, ActionResult,
  ExecuteError, no_release_name, no_bucket_name, no_ssm, no_s3, unknown_kind, client_error, Plan,
  Source, SweepRecord,
}
use gemaal.Engine.Rules.{install_of, sort_actions}
use gemaal.Engine.Artifacts.{normalized_root}
use gemaal.Engine.Sweep.{tier_selected}

pub data Call : Type 0 where
  uninstall : Text → Text → Call
  delete_parameters : List Text → Call
  delete_prefix : Text → Text → Call
  label_secret : Text → Text → List (Text × Text) → Call

abbrev pub Trace : Type 0
Trace = List Call

-- The count and the error that a client gives back to a call, after the calls before it.
abbrev pub World : Type 0
World = Trace → Call → ℕ × Option Text

-- Why an action is refused: which test of `authorize` it fails.
pub data OutOfReach : Type 0 where
  not_tier_selected not_in_namespace not_of_tenant not_an_ssm_subtree : OutOfReach
  parameter_outside : Text → OutOfReach
  not_a_bucket_prefix : OutOfReach
  unknown_item : Kind → OutOfReach

-- `fmt.Sprintf("%s%s/%s/", root, ns, rel)`
abbrev pub subtree : Text → Tenant → Text
subtree root t = root ++ (t.namespace ++ (codes "/" ++ (t.release ++ codes "/")))

-- `fmt.Sprintf("s3://%s/%s/%s/", bucket, ns, rel)`
abbrev pub bucket_prefix : Text → Tenant → Text
bucket_prefix bucket t =
    codes "s3://"
    ++ (bucket ++ (codes "/" ++ (t.namespace ++ (codes "/" ++ (t.release ++ codes "/")))))

-- the first name that does not begin with `want`
unfoldable pub outside : Text → List Text → Option Text
outside want [] = none
outside want (name ∷ names) =
    let rest = outside want names in if has_prefix name want then rest else some name

unfoldable pub authorize_release : Item → Plan → Option OutOfReach
authorize_release i p =
    let want = i.tenant.namespace ++ codes "/" in
    if not (tier_selected i.tenant.namespace p)
    then some not_tier_selected
    else if not (has_prefix i.id want)
    then some not_in_namespace
    else if not (text_eq (install_of (trim_prefix i.id want)) i.tenant.release)
    then some not_of_tenant
    else none

unfoldable pub authorize_ssm : AllowList → Item → Option OutOfReach
authorize_ssm a i =
    if any (λ root. text_eq i.id (subtree (normalized_root root) i.tenant)) a.ssm_roots
    then Option.map parameter_outside (outside i.id i.names)
    else some not_an_ssm_subtree

unfoldable pub authorize_s3 : AllowList → Item → Option OutOfReach
authorize_s3 a i =
    if any (λ bucket. text_eq i.id (bucket_prefix bucket i.tenant)) a.s3_buckets
    then none
    else some not_a_bucket_prefix

abbrev authorize_kind : Kind → AllowList → Item → Plan → Option OutOfReach
authorize_kind helm_release a i p = authorize_release i p
authorize_kind ssm_prefix a i p = authorize_ssm a i
authorize_kind s3_prefix a i p = authorize_s3 a i
authorize_kind (other k) a i p = some (unknown_item (other k))

unfoldable pub authorize : AllowList → Action → Plan → Option OutOfReach
authorize a action p = authorize_kind action.item.kind a action.item p

-- the first refusal along the plan's actions
unfoldable pub refusal : AllowList → List Action → Plan → Option OutOfReach
refusal a [] p = none
refusal a (action ∷ actions) p = elim (authorize a action p) [
  | some r ↦ some r
  | none ↦ refusal a actions p
]

-- A call's outcome: the count, the error, and the trace with the call.
abbrev pub Outcome : Type 0
Outcome = record { deleted : ℕ; error : Option ExecuteError; trace : Trace }

abbrev failed : ExecuteError → Trace → Outcome
failed e t = record { deleted = 0; error = some e; trace = t }

-- Helm's and SSM's calls give no count: it is 0 on an error, else `count`.
abbrev counted : ℕ → Option Text → ℕ
counted count none = count
counted count (some text) = 0

abbrev pub invoke : World → Trace → Call → ℕ → Outcome
invoke world t c count =
    let answer = world t c in
    record {
      deleted = counted count answer.1;
      error = Option.map client_error answer.1;
      trace = t ++ c ∷ [];
    }

-- DeletePrefix reports its own count, on an error too.
abbrev pub invoke_prefix : World → Trace → Call → Outcome
invoke_prefix world t c =
    let answer = world t c in
    record { deleted = answer.0; error = Option.map client_error answer.1; trace = t ++ c ∷ [] }

unfoldable pub execute_release : World → Item → Trace → Outcome
execute_release world i t = elim (cut_prefix i.id (i.tenant.namespace ++ codes "/")) [
  | none ↦ failed (no_release_name i.id) t
  | some release ↦ invoke world t (uninstall i.tenant.namespace release) 1
]

unfoldable pub execute_ssm : World → Bool → Item → Trace → Outcome
execute_ssm world has_client i t =
    if has_client
    then invoke world t (delete_parameters i.names) (length i.names)
    else failed no_ssm t

unfoldable pub execute_s3 : World → Bool → Item → Trace → Outcome
execute_s3 world has_client i t =
    if has_client
    then (elim (cut (trim_prefix i.id (codes "s3://")) slash) [
      | none ↦ failed (no_bucket_name i.id) t
      | some (bucket, rest) ↦ invoke_prefix world t (delete_prefix bucket rest)
    ])
    else failed no_s3 t

abbrev execute_kind : Kind → Engine → World → Item → Trace → Outcome
execute_kind helm_release e world i t = execute_release world i t
execute_kind ssm_prefix e world i t = execute_ssm world (is_some e.ssm) i t
execute_kind s3_prefix e world i t = execute_s3 world (is_some e.s3) i t
execute_kind (other k) e world i t = failed (unknown_kind (other k)) t

unfoldable pub execute : Engine → World → Action → Trace → Outcome
execute e world action t = execute_kind action.item.kind e world action.item t

abbrev pub result_of : Action → Outcome → ActionResult
result_of action o = record {
  action = action;
  executed = not (is_some o.error);
  deleted = o.deleted;
  error = o.error;
}

-- The loop over the sorted actions: the results and the trace behind the last.
unfoldable pub execute_all : Engine → World → List Action → Trace → List ActionResult × Trace
execute_all e world [] t = ([], t)
execute_all e world (action ∷ actions) t =
    let o = execute e world action t in
    let (results, t') = execute_all e world actions o.trace in (result_of action o ∷ results, t')

-- What `Apply` fails with: a refusal, or the errors of the actions that failed.
pub data ApplyError : Type 0 where
  refused : OutOfReach → ApplyError
  actions_failed : List (Item × ExecuteError) → ApplyError

abbrev failure_of : ActionResult → List (Item × ExecuteError) → List (Item × ExecuteError)
failure_of r more = elim r.error [ none ↦ more | some e ↦ (r.action.item, e) ∷ more ]

unfoldable pub failures : List ActionResult → List (Item × ExecuteError)
failures [] = []
failures (r ∷ rest) = failure_of r (failures rest)

abbrev joined : List (Item × ExecuteError) → Option ApplyError
joined [] = none
joined (e ∷ es) = some (actions_failed (e ∷ es))

abbrev pub Applied : Type 0
Applied = record { swept : SweepRecord; error : Option ApplyError; trace : Trace }

abbrev pub dry_result : Action → ActionResult
dry_result action = record { action = action; executed = false; deleted = 0; error = none }

abbrev pub start_record : ℤ → Plan → Bool → Source → SweepRecord
start_record now p confirm source = record {
  at = now;
  dry_run = not confirm;
  source = source;
  results = [];
  problems = p.problems;
  kept = length p.keep;
  quiet_ticks = 0;
}

unfoldable pub apply_confirmed : Engine → World → List Action → SweepRecord → Trace → Applied
apply_confirmed e world actions r t =
    let (results, t') = execute_all e world actions t in
    record { swept = record r { results = results }; error = joined (failures results); trace = t' }

-- `Apply`, at the clock's reading: the record, the error and the trace behind it.
unfoldable pub apply : Engine → World → ℤ → Plan → Bool → Source → Trace → Applied
apply e world now p confirm source t = elim (refusal e.config.allow_list p.delete p) [
  | some r ↦ record {
    swept = start_record now p confirm source;
    error = some (refused r);
    trace = t;
  }
  | none ↦
      if confirm
      then apply_confirmed e world (sort_actions p.delete) (start_record now p confirm source) t
      else record {
        swept = record (start_record now p confirm source) {
          results = map dry_result (sort_actions p.delete);
        };
        error = none;
        trace = t;
      }
]
