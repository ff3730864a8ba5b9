-- ===== src/Pipeline/Stable/Gates.antt =====
-- The gates of the stable release in pkg/pipeline/stable.go, before every other call.
use gemaal.Base.{
  List, [], ◌∷◌, ◌++◌, Bool, true, false, not, Text, ◌≡◌, refl, sym, subst, ◌⊎◌, inl, inr, All,
  All-append, text_eq, is_empty, is_blank, trim_space, fields,
}
use gemaal.Engine.Types.{Result, ok, err}
use gemaal.Pipeline.Flow.{
  Event, Occurrence, Outside, Run, Step, FlowError, not_clean, not_tip, unpushed_tag, moved_tag,
  empty_toplevel, require, record_call, perform, attempt, lift_call, ◌>>=◌, ◌>>◌, give,
  show_toplevel, git_status, git_fetch, git_head, git_remote_tip, git_describe, git_ls_remote,
  git_tag_object,
}
use gemaal.Pipeline.Flow.Triples.{Ends, Ends-map, Leads, ◌▷◌}
use gemaal.Pipeline.Steps.{call, resolve_root, first_word}
use gemaal.Pipeline.Stable.{StableState, or_none, Release, tag_or_fail, stable_gates}
use gemaal.Pipeline.Stable.Kept.{is_gate}

-- The call that finds the repository's root, or one of the gates'.
unfoldable pub IsCheck : Occurrence → Type 0
IsCheck x = (x.event ≡ show_toplevel) ⊎ (is_gate x.event ≡ true)

abbrev pub answered : Event → Text → Occurrence
answered e t = record { event = e; answer = ok t; locked = false }

-- The calls of gates that all let the tag pass, with what they answered.
pub record PassedGates (tag : Text) (calls : List Occurrence) : Type 0 where
  pub toplevel : Text
  pub status : Text
  pub fetched : Text
  pub head : Text
  pub tip : Text
  pub described : Text
  pub listed : Text
  pub object : Text
  pub calls_made :
      calls
      ≡ answered show_toplevel toplevel
        ∷ answered git_status status
        ∷ answered git_fetch fetched
        ∷ answered git_head head
        ∷ answered git_remote_tip tip
        ∷ answered git_describe described
        ∷ answered (git_ls_remote tag) listed
        ∷ answered (git_tag_object tag) object
        ∷ []
  pub clean_tree : is_blank status ≡ true
  pub at_tip : text_eq (trim_space head) (trim_space tip) ≡ true
  pub tag_on_head : tag ≡ trim_space described
  pub tag_pushed : is_empty (or_none (first_word (fields listed))) ≡ false
  pub tag_unmoved : text_eq (or_none (first_word (fields listed))) (trim_space object) ≡ true

-- the calls so far, all of them checks, without the lock
pub record At (calls : List Occurrence) (w : Run StableState) : Type 0 where
  pub trace : w.trace ≡ calls
  pub free : w.locked ≡ false
  pub checks : All IsCheck calls

abbrev pub OnlyChecks : Run StableState → Type 0
OnlyChecks w = All IsCheck w.trace

module _ (o : Outside) where
  call_recorded :
      (calls : List Occurrence) (e : Event) (r : Result Text Text) (w : Run StableState)
      → IsCheck (record { event = e; answer = r; locked = false })
      → At calls w
      → At (calls ++ (record { event = e; answer = r; locked = false } ∷ [])) (record_call w e r)
  call_recorded calls e r w k a = record {
    trace = λ i. a.trace i ++ (record { event = e; answer = r; locked = a.free i } ∷ []);
    free = a.free;
    checks =
        All-append IsCheck calls (record { event = e; answer = r; locked = false } ∷ []) a.checks
          (k, tt);
  }

  pub At-OnlyChecks : (calls : List Occurrence) (w : Run StableState) → At calls w → OnlyChecks w
  At-OnlyChecks calls w a = subst (All IsCheck) (sym a.trace) a.checks

  lifted-At :
      (calls : List Occurrence) (e : Event) (r : Result Text Text) (w : Run StableState)
      → ((s : Result Text Text) → IsCheck (record { event = e; answer = s; locked = false }))
      → At calls w
      → Ends (λ t. At (calls ++ (answered e t ∷ []))) OnlyChecks (record_call w e r, lift_call r)
  lifted-At calls e (ok t) w k a = call_recorded calls e (ok t) w (k (ok t)) a
  lifted-At calls e (err t) w k a =
      At-OnlyChecks (calls ++ (record { event = e; answer = err t; locked = false } ∷ []))
        (record_call w e (err t)) (call_recorded calls e (err t) w (k (err t)) a)

  pub perform-At :
      (calls : List Occurrence) (e : Event)
      → ((s : Result Text Text) → IsCheck (record { event = e; answer = s; locked = false }))
      → Leads (At calls) (perform o e) (λ t. At (calls ++ (answered e t ∷ []))) OnlyChecks
  unfolding perform
  perform-At calls e k = record { leads = λ w a. lifted-At calls e (o.answer w.trace e) w k a }

  call-At :
      (calls : List Occurrence) (e : Event)
      → ((s : Result Text Text) → IsCheck (record { event = e; answer = s; locked = false }))
      → Leads
          (At calls)
          (call o e)
          (λ _ w. (t : Text) × At (calls ++ (answered e t ∷ [])) w)
          OnlyChecks
  call-At calls e k = perform-At calls e k ▷ λ t. record { leads = λ w a. (t, a) }

  -- what a requirement that is met leaves known
  require-Known :
      (P : Run StableState → Type 0) (b : Bool) (e : FlowError)
      → ((w : Run StableState) → P w → OnlyChecks w)
      → Leads P (require b e) (λ _ w. P w × (b ≡ true)) OnlyChecks
  require-Known P true e f = record { leads = λ w a. (a, refl) }
  require-Known P false e f = record { leads = f }

  -- a fact, or a text, that a condition comes with
  given :
      {A : Type 0} {F : Type 0} {P : Run StableState → Type 0} {m : Step StableState A}
      {Q : A → Run StableState → Type 0}
      → (F → Leads P m Q OnlyChecks)
      → Leads (λ w. P w × F) m Q OnlyChecks
  given f = record { leads = λ w (a, k). (f k).leads w a }

  pub each :
      {A : Type 0} {P : Text → Run StableState → Type 0} {m : Step StableState A}
      {Q : A → Run StableState → Type 0}
      → ((t : Text) → Leads (P t) m Q OnlyChecks)
      → Leads (λ w. (t : Text) × P t w) m Q OnlyChecks
  each f = record { leads = λ w (t, a). (f t).leads w a }

  attempt-At :
      (calls : List Occurrence) (e : Event)
      → ((s : Result Text Text) → IsCheck (record { event = e; answer = s; locked = false }))
      → Leads
          (At calls)
          (attempt o e)
          (λ r. At (calls ++ (record { event = e; answer = r; locked = false } ∷ [])))
          OnlyChecks
  unfolding attempt
  attempt-At calls e k = record {
    leads = λ w a. call_recorded calls e (o.answer w.trace e) w (k (o.answer w.trace e)) a;
  }

  tag_or_fail-At :
      (calls : List Occurrence) (r : Result Text Text)
      → Leads
          (At (calls ++ (record { event = git_describe; answer = r; locked = false } ∷ [])))
          (tag_or_fail o r)
          (λ tag w.
            (t : Text) × (At (calls ++ (answered git_describe t ∷ [])) w × (tag ≡ trim_space t)))
          OnlyChecks
  tag_or_fail-At calls (ok t) = record { leads = λ w a. (t, (a, refl)) }
  tag_or_fail-At calls (err e) = record {
    leads = λ w a.
        At-OnlyChecks
          (calls ++ (record { event = git_describe; answer = err e; locked = false } ∷ [])) w a;
  }

  requirement :
      (calls : List Occurrence) (b : Bool) (e : FlowError)
      → Leads (At calls) (require b e) (λ _ w. At calls w × (b ≡ true)) OnlyChecks
  requirement calls b e = require-Known (At calls) b e (At-OnlyChecks calls)

  was_false : (b : Bool) → not b ≡ true → b ≡ false
  was_false true h = absurd (cc h)
  was_false false h = refl

  -- the calls up to the tip of the branch, and those up to the tag's object
  upto_tip : Text → Text → Text → Text → Text → List Occurrence
  upto_tip top status fetched head tip =
      answered show_toplevel top
      ∷ answered git_status status
      ∷ answered git_fetch fetched
      ∷ answered git_head head
      ∷ answered git_remote_tip tip
      ∷ []

  -- the gates c and d
  tag_gates : Release Text
  unfolding perform attempt
  tag_gates = do
    described ← attempt o git_describe
    tag ← tag_or_fail o described
    listed ← perform o (git_ls_remote tag)
    require (not (is_empty (or_none (first_word (fields listed))))) unpushed_tag
    object ← perform o (git_tag_object tag)
    require (text_eq (or_none (first_word (fields listed))) (trim_space object)) moved_tag
    give tag

  gates_passed :
      (top status fetched head tip described listed object tag : Text)
      → is_blank status ≡ true
      → text_eq (trim_space head) (trim_space tip) ≡ true
      → tag ≡ trim_space described
      → is_empty (or_none (first_word (fields listed))) ≡ false
      → text_eq (or_none (first_word (fields listed))) (trim_space object) ≡ true
      → Leads
          (At (
            upto_tip top status fetched head tip
            ++ (answered git_describe described ∷ [])
            ++ (answered (git_ls_remote tag) listed ∷ [])
            ++ (answered (git_tag_object tag) object ∷ [])))
          (give tag)
          (λ t w. PassedGates t w.trace)
          OnlyChecks
  unfolding upto_tip
  gates_passed top status fetched head tip described listed object tag clean at_tip tagged
        some_listed same =
      record {
        leads = λ w a. record {
          toplevel = top;
          status = status;
          fetched = fetched;
          head = head;
          tip = tip;
          described = described;
          listed = listed;
          object = object;
          calls_made = a.trace;
          clean_tree = clean;
          at_tip = at_tip;
          tag_on_head = tagged;
          tag_pushed = some_listed;
          tag_unmoved = same;
        };
      }

  tag_gates-Leads :
      (top status fetched head tip : Text)
      → is_blank status ≡ true
      → text_eq (trim_space head) (trim_space tip) ≡ true
      → Leads
          (At (upto_tip top status fetched head tip))
          tag_gates
          (λ tag w. PassedGates tag w.trace)
          OnlyChecks
  unfolding tag_gates upto_tip is_gate IsCheck
  tag_gates-Leads top status fetched head tip clean at_tip =
      let X = upto_tip top status fetched head tip in
      attempt-At X git_describe (λ s. inr refl) ▷ λ r. tag_or_fail-At X r ▷ λ tag.
      each (λ described. given (λ tagged.
        let Y = X ++ (answered git_describe described ∷ []) in
        perform-At Y (git_ls_remote tag) (λ s. inr refl) ▷ λ listed.
        let Z = Y ++ (answered (git_ls_remote tag) listed ∷ []) in
        requirement Z (not (is_empty (or_none (first_word (fields listed))))) unpushed_tag ▷ λ _.
        given (λ listed_one. perform-At Z (git_tag_object tag) (λ s. inr refl) ▷ λ object.
        requirement (Z ++ (answered (git_tag_object tag) object ∷ []))
          (text_eq (or_none (first_word (fields listed))) (trim_space object)) moved_tag
        ▷ λ _. given (λ same.
          gates_passed top status fetched head tip described listed object tag clean at_tip tagged
            (was_false (is_empty (or_none (first_word (fields listed)))) listed_one) same))))

  pub stable_gates-Leads :
      (top : Text)
      → Leads
          (At (answered show_toplevel top ∷ []))
          (stable_gates o)
          (λ tag w. PassedGates tag w.trace)
          OnlyChecks
  unfolding stable_gates tag_gates upto_tip is_gate IsCheck
  stable_gates-Leads top =
      let T = answered show_toplevel top ∷ [] in
      perform-At T git_status (λ s. inr refl) ▷ λ status.
      let U = T ++ (answered git_status status ∷ []) in
      requirement U (is_blank status) not_clean ▷ λ _. given (λ clean.
        call-At U git_fetch (λ s. inr refl) ▷ λ _. each (λ fetched.
          let V = U ++ (answered git_fetch fetched ∷ []) in
          perform-At V git_head (λ s. inr refl) ▷ λ head.
          let W = V ++ (answered git_head head ∷ []) in
          perform-At W git_remote_tip (λ s. inr refl) ▷ λ tip.
          requirement (W ++ (answered git_remote_tip tip ∷ []))
            (text_eq (trim_space head) (trim_space tip)) not_tip
          ▷ λ _. given (λ at_tip. tag_gates-Leads top status fetched head tip clean at_tip)))

  pub resolve_root-Leads :
      Leads
        (At [])
        (resolve_root o)
        (λ _ w. (t : Text) × At (answered show_toplevel t ∷ []) w)
        OnlyChecks
  unfolding resolve_root IsCheck
  resolve_root-Leads = perform-At [] show_toplevel (λ s. inl refl) ▷ λ t. record {
    leads = λ w a.
        Ends-map (λ _ v. At (answered show_toplevel t ∷ []) v × (not (is_blank t) ≡ true))
          (λ _ v. (t : Text) × At (answered show_toplevel t ∷ []) v) OnlyChecks OnlyChecks
          (λ _ v (b, k). (t, b)) (λ v b. b) (require (not (is_blank t)) empty_toplevel w)
          ((requirement (answered show_toplevel t ∷ []) (not (is_blank t)) empty_toplevel).leads w
            a);
  }
