-- ===== src/Pipeline/Stable/Report.antt =====
-- The partial-publish report of pkg/pipeline/stable.go, as what it lists and advises.
pub mod Listed
use gemaal.Base.{
  List, [], ◌∷◌, ◌++◌, map, filter_by, any, Bool, not, ◌&&◌, ◌||◌, Option, none, some, Text,
  is_empty, if◌then◌else◌,
}
use gemaal.Pipeline.{Config, Chart}
use gemaal.Pipeline.Stable.{StableState, ExtraPush}

-- What the report says of the commit point.
pub data Conclusion : Type 0 where
  ring3_confirmed ring3_unknown : Conclusion
  ring3_missing : Bool → Conclusion

-- What it tells the operator to do. A push by hand names a chart and its staged tarball; packaging
-- by hand names the version, where there is one, and the charts.
pub data Recovery : Type 0 where
  nothing_to_push : Recovery
  push_by_hand : List (Text × Text) → Recovery
  package_by_hand : Option Text → List Chart → Recovery
  new_patch_tag : Recovery

pub record Report : Type 0 where
  pub images_published : Bool
  pub version_or_tag : Text
  pub published : List Text
  pub possibly : List Text
  pub not_published : List Text
  pub conclusion : Conclusion
  pub recovery : Recovery

abbrev pub listed : Bool → Text → List Text
listed b name = if b then name ∷ [] else []

abbrev pub is_confirmed : ExtraPush → Bool
is_confirmed x = x.confirmed

abbrev pub is_unknown : ExtraPush → Bool
is_unknown x = x.started && not x.confirmed

abbrev pub is_unstarted : ExtraPush → Bool
is_unstarted x = not x.started

abbrev pub names_of : (ExtraPush → Bool) → List ExtraPush → List Text
names_of p xs = map (λ x. x.name) (filter_by p xs)

unfoldable pub published_charts : Config → StableState → List Text
published_charts c s =
    if not s.published_images
    then []
    else listed s.confirmed_ring2 c.charts.ring2.name
      ++ names_of is_confirmed s.extras
      ++ listed s.confirmed_ring3 c.charts.ring3.name

unfoldable pub possibly_charts : Config → StableState → List Text
possibly_charts c s =
    listed (s.started_ring2 && not s.confirmed_ring2) c.charts.ring2.name
    ++ names_of is_unknown s.extras
    ++ listed (s.started_ring3 && not s.confirmed_ring3) c.charts.ring3.name

unfoldable pub unpublished_charts : Config → StableState → List Text
unpublished_charts c s =
    listed (not s.started_ring2) c.charts.ring2.name
    ++ names_of is_unstarted s.extras
    ++ listed (not s.started_ring3) c.charts.ring3.name

unfoldable pub conclusion : StableState → Conclusion
conclusion s =
    if s.confirmed_ring3
    then ring3_confirmed
    else if s.started_ring3
    then ring3_unknown
    else ring3_missing (any is_confirmed s.extras)

abbrev pub advice : Bool → Text → Text → List (Text × Text)
advice b name tgz = if b then (name, tgz) ∷ [] else []

-- the charts to push, with their tarballs, ring3 at the end
unfoldable pub pushes_advised : Config → StableState → List (Text × Text)
pushes_advised c s =
    advice (not s.confirmed_ring2) c.charts.ring2.name s.infra_tgz
    ++ map (λ x. (x.name, x.tgz)) (filter_by (λ x. not x.confirmed) s.extras)
    ++ ((c.charts.ring3.name, s.app_tgz) ∷ [])

abbrev pub or_unnamed : Text → Option Text
or_unnamed t = if is_empty t then none else some t

unfoldable pub recovery : Config → StableState → Recovery
unfolding pushes_advised
recovery c s =
    if s.confirmed_ring3
    then nothing_to_push
    else if s.published_images && s.charts_selected
    then push_by_hand (pushes_advised c s)
    else if s.published_images
    then package_by_hand (or_unnamed s.version)
        (c.charts.ring2 ∷ (c.charts.extra ++ (c.charts.ring3 ∷ [])))
    else new_patch_tag

-- `reportPartialPublish`: no report where the release completed, did not fail, or had not begun to
-- publish.
unfoldable pub report_partial_publish : Config → StableState → Bool → Option Report
unfolding published_charts possibly_charts unpublished_charts conclusion recovery
report_partial_publish c s has_failed =
    if s.release_complete || not has_failed
    then none
    else if not s.goreleaser_started
    then none
    else some (record {
      images_published = s.published_images;
      version_or_tag = if is_empty s.version then s.tag else s.version;
      published = published_charts c s;
      possibly = possibly_charts c s;
      not_published = unpublished_charts c s;
      conclusion = conclusion s;
      recovery = recovery c s;
    })
