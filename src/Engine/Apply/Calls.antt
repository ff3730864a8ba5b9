-- ===== src/Engine/Apply/Calls.antt =====
-- The confirmed `Apply` of pkg/engine/apply.go: its calls and its record.
use gemaal.Base.{
  List, [], ◌∷◌, ◌++◌, map, Bool, true, false, none, some, ℤ, ◌≡◌, ◌↔◌, refl, ◌⊎◌, inl, inr, ap,
  subst, ℕ, Option, Text, length, Bool-cases, sym, ◌∙◌, arith, All, Option-cases, codes, slash,
  cut_prefix, trim_prefix, cut, is_some, if◌then◌else◌,
}
use mathlib.Core.List.{append-nil, append_assoc}
use mathlib.Core.Option
use gemaal.Engine.Types.{
  client_error, ExecuteError, Engine, Kind, helm_release, s3_prefix, ssm_prefix, other, Item,
  Action, ActionResult, Plan, Source,
}
use gemaal.Engine.Rules.{sort_actions}
use gemaal.Engine.Apply.{
  Call, uninstall, delete_parameters, delete_prefix, label_secret, Trace, Outcome, World, authorize,
  refusal, execute_release, execute_ssm, execute_s3, execute, execute_all, failures,
  apply_confirmed, apply,
}
use gemaal.Engine.Apply.Gates.{refusal-none, actions_dry}

-- The calls that one kind of item stands for, whatever the outside world answers.
unfoldable pub calls_of_kind : Kind → Engine → Item → List Call
calls_of_kind helm_release e i = elim (cut_prefix i.id (i.tenant.namespace ++ codes "/")) [
  | none ↦ []
  | some release ↦ uninstall i.tenant.namespace release ∷ []
]
calls_of_kind ssm_prefix e i = if is_some e.ssm then delete_parameters i.names ∷ [] else []
calls_of_kind s3_prefix e i =
    if is_some e.s3
    then (elim (cut (trim_prefix i.id (codes "s3://")) slash) [
      | none ↦ []
      | some (bucket, rest) ↦ delete_prefix bucket rest ∷ []
    ])
    else []
calls_of_kind (other k) e i = []

unfoldable pub calls_of : Engine → List Action → List Call
unfolding calls_of_kind
calls_of e [] = []
calls_of e (x ∷ xs) = calls_of_kind x.item.kind e x.item ++ calls_of e xs

-- A result is marked executed exactly where it carries no error.
abbrev pub IsConsistent : ActionResult → Type 0
IsConsistent r = (r.executed ≡ true) ↔ (r.error ≡ none)

-- The count that stands for a call that was answered so.
unfoldable pub reported : Call → ℕ × Option Text → ℕ
reported (uninstall namespace release) (n, none) = 1
reported (uninstall namespace release) (n, some text) = 0
reported (delete_parameters names) (n, none) = length names
reported (delete_parameters names) (n, some text) = 0
reported (delete_prefix bucket prefix) (n, error) = n
reported (label_secret namespace name labels) (n, error) = 0

-- An error and a count against what the world answers to an action's call, behind the calls `t`:
-- without a call there is an error and no count; with one the error is the client's, and the count
-- that of the call.
abbrev pub IsAnswered : World → List Call → Trace → Option ExecuteError → ℕ → Type 0
IsAnswered world [] t error deleted = (is_some error ≡ true) × (deleted ≡ 0)
IsAnswered world (call ∷ calls) t error deleted =
    (error ≡ Option.map client_error (world t call).1) × (deleted ≡ reported call (world t call))

-- Each result against the answer to its own call, behind the calls of the results before it.
unfoldable pub AreAnswered : Engine → World → List ActionResult → Trace → Type 0
AreAnswered e world [] t = Unit
AreAnswered e world (r ∷ rs) t =
    let calls = calls_of_kind r.action.item.kind e r.action.item in
    IsAnswered world calls t r.error r.deleted × AreAnswered e world rs (t ++ calls)

module _ (e : Engine) (world : World) where
  AnswersItem : Kind → Item → Trace → Outcome → Type 0
  AnswersItem k i t o = IsAnswered world (calls_of_kind k e i) t o.error o.deleted

  release-IsAnswered :
      (i : Item) (t : Trace) → AnswersItem helm_release i t (execute_release world i t)
  unfolding execute_release calls_of_kind reported AnswersItem
  release-IsAnswered i t = elim (Option-cases (cut_prefix i.id (i.tenant.namespace ++ codes "/"))) [
    | inl q ↦ rw (q, calls_of_kind, execute_release) (refl, refl)
    | inr (release, q) ↦ elim (Option-cases (world t (uninstall i.tenant.namespace release)).1) [
      | inl w ↦ rw (q, w, calls_of_kind, execute_release, reported) (refl, refl)
      | inr (text, w) ↦ rw (q, w, calls_of_kind, execute_release, reported) (refl, refl)
    ]
  ]

  ssm-IsAnswered :
      (i : Item) (t : Trace) → AnswersItem ssm_prefix i t (execute_ssm world (is_some e.ssm) i t)
  unfolding execute_ssm calls_of_kind reported AnswersItem
  ssm-IsAnswered i t = elim (Bool-cases (is_some e.ssm)) [
    | inr q ↦ rw (q, calls_of_kind, execute_ssm) (refl, refl)
    | inl q ↦ elim (Option-cases (world t (delete_parameters i.names)).1) [
      | inl w ↦ rw (q, w, calls_of_kind, execute_ssm, reported) (refl, refl)
      | inr (text, w) ↦ rw (q, w, calls_of_kind, execute_ssm, reported) (refl, refl)
    ]
  ]

  s3-IsAnswered :
      (i : Item) (t : Trace) → AnswersItem s3_prefix i t (execute_s3 world (is_some e.s3) i t)
  unfolding execute_s3 calls_of_kind reported AnswersItem
  s3-IsAnswered i t = elim (Bool-cases (is_some e.s3)) [
    | inr q ↦ rw (q, calls_of_kind, execute_s3) (refl, refl)
    | inl q ↦ elim (Option-cases (cut (trim_prefix i.id (codes "s3://")) slash)) [
      | inl c ↦ rw (q, c, calls_of_kind, execute_s3) (refl, refl)
      | inr ((bucket, rest), c) ↦ rw (q, c, calls_of_kind, execute_s3, reported) (refl, refl)
    ]
  ]

  execute-IsAnswered :
      (k : Kind) (x : Action) (t : Trace)
      → x.item.kind ≡ k
      → AnswersItem x.item.kind x.item t (execute e world x t)
  unfolding execute AnswersItem calls_of_kind execute_release execute_s3 execute_ssm
  execute-IsAnswered helm_release x t h = rw (h, execute) (release-IsAnswered x.item t)
  execute-IsAnswered ssm_prefix x t h = rw (h, execute) (ssm-IsAnswered x.item t)
  execute-IsAnswered s3_prefix x t h = rw (h, execute) (s3-IsAnswered x.item t)
  execute-IsAnswered (other k) x t h = rw (h, execute) (refl, refl)

  execute-trace :
      (k : Kind) (x : Action) (t : Trace)
      → x.item.kind ≡ k
      → (execute e world x t).trace ≡ t ++ calls_of_kind x.item.kind e x.item
  unfolding execute execute_release execute_ssm execute_s3 calls_of_kind
  execute-trace helm_release x t h = rw h (ground (arith, append-nil t))
  execute-trace ssm_prefix x t h = rw h (ground (arith, append-nil t))
  execute-trace s3_prefix x t h = rw h (ground (arith, append-nil t))
  execute-trace (other k) x t h = rw h (ground (arith, append-nil t))

  execute_all-trace :
      (xs : List Action) (t : Trace) → (execute_all e world xs t).1 ≡ t ++ calls_of e xs
  unfolding execute_all calls_of
  execute_all-trace [] t = sym (append-nil t)
  execute_all-trace (x ∷ xs) t =
      execute_all-trace xs (execute e world x t).trace
      ∙ ap (λ u. u ++ calls_of e xs) (execute-trace x.item.kind x t refl)
      ∙ append_assoc t (calls_of_kind x.item.kind e x.item) (calls_of e xs)

  execute_all-AreAnswered :
      (xs : List Action) (t : Trace) → AreAnswered e world (execute_all e world xs t).0 t
  unfolding execute_all AreAnswered AnswersItem
  execute_all-AreAnswered [] t = tt
  execute_all-AreAnswered (x ∷ xs) t = (
    execute-IsAnswered x.item.kind x t refl,
    subst (AreAnswered e world (execute_all e world xs (execute e world x t).trace).0)
        (execute-trace x.item.kind x t refl)
        (execute_all-AreAnswered xs (execute e world x t).trace),
  )

  execute_all-actions :
      (xs : List Action) (t : Trace) → map (λ r. r.action) (execute_all e world xs t).0 ≡ xs
  unfolding execute_all
  execute_all-actions [] t = refl
  execute_all-actions (x ∷ xs) t = ap (◌∷◌ x) (execute_all-actions xs (execute e world x t).trace)

  execute_all-IsConsistent :
      (xs : List Action) (t : Trace) → All IsConsistent (execute_all e world xs t).0
  unfolding execute_all
  execute_all-IsConsistent [] t = tt
  execute_all-IsConsistent (x ∷ xs) t =
      (ground arith, execute_all-IsConsistent xs (execute e world x t).trace)

failures-nil : (rs : List ActionResult) → (failures rs ≡ []) ↔ All (λ r. r.error ≡ none) rs
unfolding failures
failures-nil [] = ground arith
failures-nil (r ∷ rs) = ground (arith, failures-nil rs)

module _ (e : Engine) (world : World) (now : ℤ) (p : Plan) (source : Source) (t : Trace) where
  -- A confirmed `Apply` of a plan whose actions are all authorized makes exactly the calls that
  -- its sorted actions stand for, in their order, whatever the clients answer; it records one
  -- result for each action in that order, marked executed exactly where it has no error; it returns
  -- no error exactly if no result has one; and a result has the error that the client answered to
  -- its call, and that call's count, or an error and no count where its action stands for no call.
  pub apply_confirmed_calls :
      All (λ x. authorize e.config.allow_list x p ≡ none) p.delete
      → let a = apply e world now p true source t in
        (a.trace ≡ t ++ calls_of e (sort_actions p.delete))
        × (map (λ r. r.action) a.swept.results ≡ sort_actions p.delete)
        × All IsConsistent a.swept.results
        × ((a.error ≡ none) ↔ All (λ r. r.error ≡ none) a.swept.results)
        × AreAnswered e world a.swept.results t
  unfolding apply apply_confirmed
  apply_confirmed_calls h =
      rw (refusal-none e.config.allow_list p.delete p h, apply)
        (
          execute_all-trace e world (sort_actions p.delete) t,
          execute_all-actions e world (sort_actions p.delete) t,
          execute_all-IsConsistent e world (sort_actions p.delete) t,
          ground (arith, failures-nil (execute_all e world (sort_actions p.delete) t).0),
          execute_all-AreAnswered e world (sort_actions p.delete) t,
        )

  pub apply-actions :
      (confirm : Bool)
      → let done = map (λ r. r.action) (apply e world now p confirm source t).swept.results in
        (done ≡ []) ⊎ (done ≡ sort_actions p.delete)
  unfolding apply apply_confirmed
  apply-actions true = elim (Option-cases (refusal e.config.allow_list p.delete p)) [
    | inr (r, q) ↦ inl (rw (q, apply))
    | inl q ↦ inr (rw (q, apply) (execute_all-actions e world (sort_actions p.delete) t))
  ]
  apply-actions false = elim (Option-cases (refusal e.config.allow_list p.delete p)) [
    | inr (r, q) ↦ inl (rw (q, apply))
    | inl q ↦ inr (rw (q, apply) (actions_dry (sort_actions p.delete)))
  ]
