-- ===== src/Engine/Stamp.antt =====
-- StampKeepUntil of pkg/engine/view.go: the hold that is written on a tenant's release secrets.
use gemaal.Base.{
  List, [], ◌∷◌, ◌++◌, Bool, true, false, Option, none, some, Text, text_eq, ℤ, if◌then◌else◌,
}
use gemaal.Config.{labels}
use gemaal.Engine.Types.{Result, ok, err, Engine, ReleaseSecret, Tenant}
use gemaal.Engine.Rules.{install_of}
use gemaal.Engine.Apply.{label_secret, Trace, World}

pub data StampError : Type 0 where
  cannot_list_secrets cannot_label : Text → Text → StampError
  no_secrets : Tenant → StampError
  no_kube : StampError

-- Whether it failed, and the calls made so far.
abbrev pub Stamped : Type 0
Stamped = record { error : Option StampError; trace : Trace }

-- The loop over the secrets; the first error ends it. `stamped` says that one was stamped before.
unfoldable pub stamp_secrets :
    World → Tenant → List (Text × Text) → List ReleaseSecret → Bool → Trace → Stamped
stamp_secrets world tenant stamp [] stamped t = record {
  error = if stamped then none else some (no_secrets tenant);
  trace = t;
}
stamp_secrets world tenant stamp (s ∷ rest) stamped t =
    let c = label_secret tenant.namespace s.name stamp in
    elim (text_eq (install_of s.release) tenant.release) [
      | false ↦ stamp_secrets world tenant stamp rest stamped t
      | true ↦ elim (world t c).1 [
        | some text ↦ record { error = some (cannot_label s.name text); trace = t ++ c ∷ [] }
        | none ↦ stamp_secrets world tenant stamp rest true (t ++ c ∷ [])
      ]
    ]

abbrev stamp_listed :
    Engine → World → Tenant → ℤ → Result Text (List ReleaseSecret) → Trace → Stamped
stamp_listed e world tenant until (err text) t = record {
  error = some (cannot_list_secrets tenant.namespace text);
  trace = t;
}
stamp_listed e world tenant until (ok secrets) t =
    stamp_secrets world tenant (((labels e.config).1, e.times.format_keep_until until) ∷ []) secrets
      false t

-- StampKeepUntil. Without a cluster client the program panics, which `no_kube` stands for.
unfoldable pub stamp_keep_until : Engine → World → Tenant → ℤ → Trace → Stamped
stamp_keep_until e world tenant until t = elim e.kube [
  | none ↦ record { error = some no_kube; trace = t }
  | some kube ↦ stamp_listed e world tenant until (kube.release_secrets tenant.namespace) t
]
