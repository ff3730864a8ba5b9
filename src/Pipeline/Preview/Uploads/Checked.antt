-- ===== src/Pipeline/Preview/Uploads/Checked.antt =====
-- The checks of PushPreview in pkg/pipeline/pushpreview.go, from the calls before them to what they
-- let pass.
use gemaal.Base.{
  List, [], ◌∷◌, true, Option, none, some, Text, codes, text_eq, text_eq_iff, fields, ◌≡◌, refl, ap,
  ◌∙◌, ◌++◌, Bool, subst, inl, inr, All-append, Any, Any-append_left, Any-append_right, All-map,
  arith, Bool-cases,
}
use mathlib.Core.List.{append_assoc}
use gemaal.Engine.Types.{Result, ok, err, Result-cases}
use gemaal.Pipeline.{Config}
use gemaal.Pipeline.Paths.{join, stamp_file_name}
use gemaal.Pipeline.Select.{Selection, select_ring_charts}
use gemaal.Pipeline.Flow.{
  ◌>>=◌, ◌>>◌, Event, Occurrence, Outside, Run, record_call, read_stamp, stage_charts, give,
  perform,
}
use gemaal.Pipeline.Flow.Triples.{Ends, Leads, ◌▷◌}
use gemaal.Pipeline.Steps.{select_staged, read_release_stamp, stamp_value, concat_words}
use gemaal.Pipeline.Preview.{require_preview, check_staged}
use gemaal.Pipeline.Preview.Uploads.{
  stage_call, is_registry, IsOwnPush, IsStampRead, IsCleared, Local, call-Local, is_local, no_push,
  local_no_push,
}

module _ (o : Outside) (c : Config) where
  abbrev pub Cleared : Selection → Run Unit → Type 0
  Cleared sel w = IsCleared o c w.trace sel

  pub cleared_call :
      (sel : Selection) (e : Event) (r : Result Text Text) (w : Run Unit)
      → IsOwnPush c sel (record { event = e; answer = r; locked = w.locked })
      → Cleared sel w
      → Cleared sel (record_call w e r)
  cleared_call sel e r w own k =
      let x : Occurrence = record { event = e; answer = r; locked = w.locked } in
      record {
        dir = k.dir;
        before = k.before;
        locked = k.locked;
        more = k.more ++ (x ∷ []);
        staged =
            ap (λ t. t ++ (x ∷ [])) k.staged
            ∙ append_assoc k.before (stage_call k.dir k.locked ∷ k.more) (x ∷ []);
        selected = k.selected;
        stamp = k.stamp;
        stamp_read = Any-append_left (IsStampRead k.dir k.stamp) w.trace (x ∷ []) k.stamp_read;
        is_preview = k.is_preview;
        pushes = All-append (IsOwnPush c sel) w.trace (x ∷ []) k.pushes (own, tt);
      }

  pub quiet_call :
      (sel : Selection) (e : Event)
      → no_push e ≡ true
      → (r : Result Text Text) (w : Run Unit) → Cleared sel w
      → Cleared sel (record_call w e r)
  quiet_call sel e g r w k = cleared_call sel e r w (inl (ground arith)) k

  -- local calls, the last of which staged the charts
  pub Staged : Text → Run Unit → Type 0
  Staged dir w =
      Local w
      × ((before : List Occurrence) × (locked : Bool) × (w.trace
            ≡ before ++ (stage_call dir locked ∷ [])))

  pub stage_charts-Leads : Leads Local (perform o stage_charts) Staged Local
  unfolding Staged perform is_registry
  stage_charts-Leads = record {
    leads = λ w p. elim (Result-cases (o.answer w.trace stage_charts)) [
      | inl (dir, q) ↦ rw q (call-Local stage_charts refl (ok dir) w p, (w.trace, w.locked, refl))
      | inr (t, q) ↦ rw q (call-Local stage_charts refl (err t) w p)
    ];
  }

  module _ (dir : Text) (before : List Occurrence) (locked : Bool) where
    -- local calls, the given ones before the stage and some others behind it
    Behind : Run Unit → Type 0
    Behind w =
        Local w × ((more : List Occurrence) × (w.trace ≡ before ++ (stage_call dir locked ∷ more)))

    -- what the stamp says, once it is read
    Stamped : Option Text → Run Unit → Type 0
    Stamped none w = Unit
    Stamped (some v) w =
        (raw : Text) × (Any (IsStampRead dir raw) w.trace × (concat_words (fields raw) ≡ v))

    call-Behind :
        (e : Event)
        → is_local e ≡ true
        → (r : Result Text Text) (w : Run Unit) → Behind w
        → Behind (record_call w e r)
    unfolding Behind
    call-Behind e g r w (p, (more, t)) =
        let x : Occurrence = record { event = e; answer = r; locked = w.locked } in
        (
          call-Local e g r w p,
          (
            more ++ (x ∷ []),
            ap (λ u. u ++ (x ∷ [])) t ∙ append_assoc before (stage_call dir locked ∷ more) (x ∷ []),
          ),
        )

    stamp-Ends :
        (r : Result Text Text) (w : Run Unit)
        → Behind w
        → Ends
            (λ s v. Behind v × Stamped s v)
            Local
            (stamp_value o r (record_call w (read_stamp (join dir stamp_file_name)) r))
    unfolding Stamped Behind is_registry
    stamp-Ends (ok raw) w p =
        let e = read_stamp (join dir stamp_file_name) in
        let x : Occurrence = record { event = e; answer = ok raw; locked = w.locked } in
        (
          call-Behind e refl (ok raw) w p,
          (raw, (Any-append_right (IsStampRead dir raw) w.trace (x ∷ []) (inl (refl, refl)), refl)),
        )
    stamp-Ends (err t) w p =
        let e = read_stamp (join dir stamp_file_name) in
        elim (Bool-cases (o.not_exist t)) [
          | inl q ↦ rw q (call-Behind e refl (err t) w p, tt)
          | inr q ↦ rw q (call-Local e refl (err t) w p.0)
        ]

    read_release_stamp-Leads :
        Leads Behind
          (read_release_stamp o (join dir stamp_file_name))
          (λ v w. Behind w × Stamped v w)
          Local
    unfolding read_release_stamp
    read_release_stamp-Leads = record {
      leads = λ w p. stamp-Ends (o.answer w.trace (read_stamp (join dir stamp_file_name))) w p;
    }

    require_preview-Leads :
        (v : Option Text)
        → Leads
            (λ w. Behind w × Stamped v w)
            (require_preview o v)
            (λ _ w. Behind w × Stamped (some (codes "preview")) w)
            Local
    unfolding require_preview Behind
    require_preview-Leads none = record { leads = λ w (p, s). p.0 }
    require_preview-Leads (some v) = record {
      leads = λ w (p, s). elim (Bool-cases (text_eq v (codes "preview"))) [
        | inl q ↦
            rw q (p, subst (λ t. Stamped (some t) w) ((text_eq_iff v (codes "preview")).0 q) s)
        | inr q ↦ rw q p.0
      ];
    }

    -- the selection and the stamp, put together
    given_back :
        (sel : Selection)
        → select_ring_charts c.charts (o.stage (before ++ (stage_call dir locked ∷ []))) dir
          ≡ ok sel
        → Leads (λ w. Behind w × Stamped (some (codes "preview")) w) (give sel) Cleared Local
    unfolding Stamped Behind
    given_back sel e = record {
      leads = λ w ((p, (more, t)), (raw, (read, says))). record {
        dir = dir;
        before = before;
        locked = locked;
        more = more;
        staged = t;
        selected = e;
        stamp = raw;
        stamp_read = read;
        is_preview = says;
        pushes = All-map (λ x l. inl (local_no_push x.event l)) w.trace p;
      };
    }

    stamp_checked :
        (sel : Selection)
        → select_ring_charts c.charts (o.stage (before ++ (stage_call dir locked ∷ []))) dir
          ≡ ok sel
        → Leads Behind
            (do
              stamp ← read_release_stamp o (join dir stamp_file_name)
              require_preview o stamp
              give sel)
            Cleared
            Local
    unfolding read_release_stamp require_preview
    stamp_checked sel e =
        read_release_stamp-Leads ▷ λ stamp. require_preview-Leads stamp ▷ λ _. given_back sel e

  -- the place of the stage in the calls, and the selection from it
  IsSelected : Text → Selection → List Occurrence → Bool → Type 0
  IsSelected dir sel before locked =
      select_ring_charts c.charts (o.stage (before ++ (stage_call dir locked ∷ []))) dir ≡ ok sel

  select-Leads :
      (dir : Text)
      → Leads
          (Staged dir)
          (select_staged o c dir)
          (λ sel w.
            (before : List Occurrence) × (locked : Bool) × (Behind dir before locked w
              × IsSelected dir sel before locked))
          Local
  unfolding select_staged Staged Behind IsSelected
  select-Leads dir = record {
    leads = λ w (p, (before, locked, t)).
        elim (Result-cases (select_ring_charts c.charts (o.stage w.trace) dir)) [
          | inl (sel, e) ↦ rw e (
            before,
            locked,
            ((p, ([], t)), subst (λ u. select_ring_charts c.charts (o.stage u) dir ≡ ok sel) t e),
          )
          | inr (x, e) ↦ rw e p
        ];
  }

  pub check_staged-Leads : (dir : Text) → Leads (Staged dir) (check_staged o c dir) Cleared Local
  unfolding check_staged IsSelected
  check_staged-Leads dir = select-Leads dir ▷ λ sel. record {
    leads = λ w (before, locked, (p, e)). (stamp_checked dir before locked sel e).leads w p;
  }
