-- ===== src/Tests/Loading.antt =====
-- The theorem on a project's document at one that points at a file of identities.
use gemaal.Base.{
  Text, List, [], ◌∷◌, Bool, true, false, Option, none, some, codes, text_eq, ◌≡◌, refl, All,
  has_prefix, is_empty, if◌then◌else◌,
}
use gemaal.Engine.Types.{ok}
use gemaal.Project.{
  ProjectConfig, no_label, two_sources, decoded, undecodable, Reader, empty_config,
  validate_email_slugs, project_problem, load, email_slugs, build_hook, dir_of, cluster_values,
}
use gemaal.Project.Emails.{IsEntry, IsChecked, load-IsChecked}

abbrev document : ProjectConfig Text
document = record empty_config {
  identity = record { emails = []; file = codes "people.yaml" };
  hooks = record { build = codes "make" ∷ [] };
  projects =
      (codes "site", record { hooks = record { build = codes "npm" ∷ [] } })
      ∷ (codes "docs", record { hooks = record { build = [] } })
      ∷ [];
  clusters = (codes "dev", record { values = some (codes "v") }) ∷ [];
}

abbrev people : List (Text × Text)
people = (codes "ann@example.org", codes "ann-b") ∷ []

-- every file holds its own path
abbrev reader : Reader Text
reader = record {
  read_file = λ path. ok path;
  not_exist = λ e. false;
  decode_config = λ raw. decoded document;
  decode_emails = λ raw.
      if text_eq raw (codes "conf/people.yaml")
      then decoded people
      else undecodable (codes "not a map");
}

abbrev loaded : ProjectConfig Text
loaded = record document { dir = codes "conf" }

load-IsChecked_example : IsChecked loaded × All IsEntry people
unfolding load email_slugs
load-IsChecked_example =
    load-IsChecked reader (codes "conf/gemaal.yaml") loaded people document_loads people_read
  where
    document_loads : load reader (codes "conf/gemaal.yaml") ≡ ok loaded
    document_loads = refl

    people_read : email_slugs reader loaded ≡ ok people
    people_read = refl

bad_slug :
    validate_email_slugs ((codes "ann@example.org", codes "-ann") ∷ [])
    ≡ some (no_label (codes "-ann"))
unfolding validate_email_slugs gemaal.Base.cut_prefix
bad_slug = refl

both_sources :
    project_problem
      (record document { identity = record { emails = people; file = codes "people.yaml" } })
    ≡ some two_sources
unfolding project_problem
both_sources = refl

own_hook : build_hook document (codes "site") ≡ codes "npm" ∷ []
unfolding build_hook
own_hook = refl

empty_hook : build_hook document (codes "docs") ≡ codes "make" ∷ []
unfolding build_hook
empty_hook = refl

unknown_cluster : cluster_values document (codes "prod") ≡ none
unfolding cluster_values
unknown_cluster = refl

no_directory : dir_of (codes "gemaal.yaml") ≡ codes "."
unfolding gemaal.Pipeline.Paths.clean
no_directory = refl
