-- ===== src/Pipeline/Preview/Uploads.antt =====
-- What PushPreview of pkg/pipeline/pushpreview.go may upload, and when.
pub mod Checked
pub mod Guarded
use gemaal.Base.{
  List, [], ◌∷◌, ◌++◌, Bool, true, false, Text, codes, fields, ◌≡◌, refl, ◌⊎◌, All, All-append, Any,
  not, arith,
}
use gemaal.Engine.Types.{Result, ok}
use gemaal.Pipeline.{Config}
use gemaal.Pipeline.Paths.{join, stamp_file_name}
use gemaal.Pipeline.Select.{Selection, ChartTarball, select_ring_charts}
use gemaal.Pipeline.Flow.{
  Event, Occurrence, Outside, Run, ◌>>=◌, ◌>>◌, record_call, read_stamp, stage_charts, push_chart,
  helm_push, ecr_password, registry_login,
}
use gemaal.Pipeline.Steps.{concat_words}

-- The registry login and the pushes.
unfoldable pub is_registry : Event → Bool
is_registry ecr_password = true
is_registry registry_login = true
is_registry (helm_push path) = true
is_registry (push_chart name tgz version overwrite) = true
is_registry e = false

abbrev pub IsLocal : Occurrence → Type 0
IsLocal x = is_registry x.event ≡ false

-- the selected tarballs, with their charts' names
abbrev pub tarballs : Config → Selection → List ChartTarball
tarballs c sel =
    record { name = c.charts.ring2.name; tgz = sel.infra_tgz }
    ∷ record { name = c.charts.ring3.name; tgz = sel.app_tgz }
    ∷ sel.extra

unfoldable pub is_push : Event → Bool
is_push (push_chart name tgz version overwrite) = true
is_push (helm_push path) = true
is_push e = false

-- No push, or that of a selected tarball at the selection's version.
abbrev pub IsOwnPush : Config → Selection → Occurrence → Type 0
IsOwnPush c sel x =
    (is_push x.event ≡ false)
    ⊎ Any (λ t. x.event ≡ push_chart t.name t.tgz sel.version true) (tarballs c sel)

-- The stamp that was read from a directory, among the calls.
abbrev pub IsStampRead : Text → Text → Occurrence → Type 0
IsStampRead dir stamp x = (x.event ≡ read_stamp (join dir stamp_file_name)) × (x.answer ≡ ok stamp)

-- the call that staged the charts in a directory
abbrev pub stage_call : Text → Bool → Occurrence
stage_call dir locked = record { event = stage_charts; answer = ok dir; locked = locked }

-- The charts were staged, the checks of what was then in the stage passed, and every push is of
-- what they let pass.
pub record IsCleared (o : Outside) (c : Config) (trace : List Occurrence) (sel : Selection)
    : Type 0 where
  pub dir : Text
  pub before : List Occurrence
  pub locked : Bool
  pub more : List Occurrence
  pub staged : trace ≡ before ++ (stage_call dir locked ∷ more)
  pub selected :
      select_ring_charts c.charts (o.stage (before ++ (stage_call dir locked ∷ []))) dir ≡ ok sel
  pub stamp : Text
  pub stamp_read : Any (IsStampRead dir stamp) trace
  pub is_preview : concat_words (fields stamp) ≡ codes "preview"
  pub pushes : All (IsOwnPush c sel) trace

-- Nothing was asked of a registry, or the checks passed.
abbrev pub IsSafe : Outside → Config → List Occurrence → Type 0
IsSafe o c trace = All IsLocal trace ⊎ ((sel : Selection) × IsCleared o c trace sel)

pub local_no_push : (e : Event) → is_registry e ≡ false → is_push e ≡ false
unfolding is_registry is_push
local_no_push (push_chart name tgz version overwrite) h = absurd (cc h)
local_no_push (helm_push path) h = absurd (cc h)
local_no_push e h = refl

abbrev pub Local : Run Unit → Type 0
Local w = All IsLocal w.trace

abbrev pub is_local : Event → Bool
is_local e = not (is_registry e)

pub call-Local :
    (e : Event)
    → is_local e ≡ true
    → (r : Result Text Text) (w : Run Unit) → Local w
    → Local (record_call w e r)
call-Local e g r w p =
    All-append IsLocal w.trace (record { event = e; answer = r; locked = w.locked } ∷ []) p
      (ground arith, tt)

abbrev pub no_push : Event → Bool
no_push e = not (is_push e)
