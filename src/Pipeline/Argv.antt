-- ===== src/Pipeline/Argv.antt =====
-- The command lines of the calls and their environment, pkg/pipeline/pipeline.go, and those that
-- stable.go and snapshot.go put together themselves. Calls of the file system and of the lock have
-- none, and those of the image steps are their own.
use gemaal.Base.{List, [], ◌∷◌, ◌++◌, Bool, Text, codes, if◌then◌else◌}
use gemaal.Pipeline.{Config, Chart, Destination, release_tag_prefix, chart_repository}
use gemaal.Pipeline.Paths.{charts_out, manifest_path}
use gemaal.Pipeline.Flow.{
  Event, show_toplevel, git_status, git_fetch, git_head, git_remote_tip, git_describe,
  git_ls_remote, git_tag_object, goreleaser, goreleaser_manifest, update_dependencies,
  package_ring2, package_pinned, ecr_password, registry_login, push_chart, helm_push, pre_build,
}

-- A flow's destination, and whether the credentials come from the environment.
pub record Target : Type 0 where
  pub destination : Destination
  pub ambient : Bool

abbrev pub words : List Text → List Text → List Text
words base args = base ++ args

abbrev pub git : List Text → List Text
git args = codes "git" ∷ args

unfoldable pub destination_env : Config → Target → Bool → List Text
destination_env c t for_build =
    (codes "REGISTRY=" ++ t.destination.registry)
      ∷ (codes "AWS_REGION=" ++ c.aws_region)
      ∷ (if t.ambient then [] else (codes "AWS_PROFILE=" ++ t.destination.profile) ∷ [])
    ++ (if for_build
        then (codes "KO_DOCKER_REPO=" ++ t.destination.registry ++ codes "/" ++ c.project) ∷ []
        else [])

unfoldable pub profile_args : Target → List Text
profile_args t = if t.ambient then [] else codes "--profile" ∷ t.destination.profile ∷ []

unfoldable pub push_args : Config → Target → Text → Text → Text → Bool → List Text
push_args c t name tgz version allow_overwrite =
    (codes "push"
      ∷ codes "--tgz"
      ∷ tgz
      ∷ codes "--registry"
      ∷ t.destination.registry
      ∷ codes "--repository"
      ∷ chart_repository c name
      ∷ [])
    ++ profile_args t
    ++ (codes "--name" ∷ name ∷ codes "--version" ∷ version ∷ [])
    ++ (if allow_overwrite then codes "--allow-overwrite" ∷ [] else [])

unfoldable pub package_pinned_args : Config → Chart → List Text
package_pinned_args c ch =
    codes "package"
    ∷ codes "--chart"
    ∷ ch.path
    ∷ codes "--manifest"
    ∷ manifest_path c
    ∷ codes "--require-image-digests"
    ∷ codes "--output"
    ∷ charts_out c
    ∷ []

unfoldable pub package_ring2_args : Config → Text → List Text
package_ring2_args c version =
    codes "package"
    ∷ codes "--chart"
    ∷ c.charts.ring2.path
    ∷ codes "--version"
    ∷ version
    ∷ codes "--output"
    ∷ charts_out c
    ∷ []

unfoldable pub goreleaser_args : Config → Bool → List Text
goreleaser_args c snapshot =
    codes "release"
      ∷ (if snapshot
          then codes "--snapshot" ∷ codes "--clean" ∷ codes "--skip=validate,docker,ko" ∷ []
          else codes "--clean" ∷ codes "--skip=docker,ko" ∷ [])
    ++ (codes "-f" ∷ c.goreleaser_config ∷ [])

-- the argv of a call of an external command
unfoldable pub argv : Config → Target → Event → List Text
unfolding push_args package_pinned_args package_ring2_args goreleaser_args profile_args
argv c t show_toplevel = git (codes "rev-parse" ∷ codes "--show-toplevel" ∷ [])
argv c t git_status = git (codes "status" ∷ codes "--porcelain" ∷ [])
argv c t git_fetch = git (codes "fetch" ∷ codes "origin" ∷ c.release_branch ∷ codes "--tags" ∷ [])
argv c t git_head = git (codes "rev-parse" ∷ codes "HEAD" ∷ [])
argv c t git_remote_tip = git (codes "rev-parse" ∷ (codes "origin/" ++ c.release_branch) ∷ [])
argv c t git_describe = git (
    codes "describe"
    ∷ codes "--exact-match"
    ∷ codes "--match"
    ∷ (release_tag_prefix c ++ codes "v*")
    ∷ codes "--tags"
    ∷ codes "HEAD"
    ∷ [])
argv c t (git_ls_remote tag) =
    git (codes "ls-remote" ∷ codes "origin" ∷ (codes "refs/tags/" ++ tag) ∷ [])
argv c t (git_tag_object tag) = git (codes "rev-parse" ∷ (codes "refs/tags/" ++ tag) ∷ [])
argv c t (pre_build ws) = ws
argv c t (goreleaser snapshot) = words c.commands.goreleaser (goreleaser_args c snapshot)
argv c t goreleaser_manifest = words c.commands.helmctl (
    codes "goreleaser-manifest"
    ∷ codes "--goreleaser-dist"
    ∷ c.dist_dir
    ∷ codes "-o"
    ∷ manifest_path c
    ∷ [])
argv c t (update_dependencies ch) =
    words c.commands.helm (codes "dependency" ∷ codes "update" ∷ ch.path ∷ [])
argv c t (package_ring2 version) = words c.commands.helmctl (package_ring2_args c version)
argv c t (package_pinned ch) = words c.commands.helmctl (package_pinned_args c ch)
argv c t ecr_password = words c.commands.aws (
    (codes "ecr" ∷ codes "get-login-password" ∷ [])
    ++ profile_args t
    ++ (codes "--region" ∷ c.aws_region ∷ []))
argv c t registry_login = words c.commands.helm (
    codes "registry"
    ∷ codes "login"
    ∷ codes "--username"
    ∷ codes "AWS"
    ∷ codes "--password-stdin"
    ∷ t.destination.registry
    ∷ [])
argv c t (push_chart name tgz version allow_overwrite) =
    words c.commands.helmctl (push_args c t name tgz version allow_overwrite)
argv c t (helm_push path) = words c.commands.helm (
    codes "push"
    ∷ path
    ∷ (codes "oci://" ++ t.destination.registry ++ codes "/" ++ c.project ++ codes "/charts")
    ∷ [])
argv c t e = []
