-- ===== src/Pipeline/Validate.antt =====
-- `Parse` of pkg/pipeline/config.go behind the YAML decoding: the defaults, and the checks on a
-- loaded document. Go ranges the map of the two registries and that of the two rings in any order,
-- which decides between two errors.
pub mod Sound
use gemaal.Base.{
  ℕ, suc, ◌||◌, not, List, [], ◌∷◌, ◌++◌, Bool, Option, none, some, Text, codes, text_eq,
  has_prefix, is_empty, if◌then◌else◌,
}
use gemaal.Config.{lookup}
use gemaal.Pipeline.{Config, Chart, Destination, apply_defaults}
use gemaal.Engine.Types.{Result, ok, err}
use gemaal.Pipeline.Paths.{clean}

-- What holds a chart name.
pub data Owner : Type 0 where
  ring2 ring3 : Owner
  extra : ℕ → Owner

pub data ConfigError : Type 0 where
  no_project no_region : ConfigError
  bad_registry bad_ring : Text → ConfigError
  same_rings : Text → ConfigError
  bad_extra : ℕ → ConfigError
  taken_name : ℕ → Text → Owner → ConfigError
  lock_in_dist : Text → Text → ConfigError

-- Which entry of a two-entry map comes first.
pub record MapOrder : Type 0 where
  pub stable_first : Bool
  pub ring3_first : Bool

abbrev pub must : Bool → ConfigError → Option ConfigError
must b e = if b then none else some e

-- the first problem of two
abbrev pub then_check : Option ConfigError → Option ConfigError → Option ConfigError
then_check (some e) p = some e
then_check none p = p

unfoldable pub destination_problem : Text → Destination → Option ConfigError
destination_problem name d =
    must (not (is_empty d.registry || is_empty d.profile)) (bad_registry name)

unfoldable pub ring_problem : Text → Chart → Option ConfigError
ring_problem name ch = must (not (is_empty ch.name || is_empty ch.path)) (bad_ring name)

abbrev pub in_order : Bool → Option ConfigError → Option ConfigError → Option ConfigError
in_order second_first p q = if second_first then then_check q p else then_check p q

abbrev pub taken_problem : ℕ → Text → Option Owner → Option ConfigError
taken_problem n name none = none
taken_problem n name (some owner) = some (taken_name n name owner)

abbrev pub extra_problem : ℕ → List (Text × Owner) → Chart → Option ConfigError
extra_problem n claimed ch =
    then_check (must (not (is_empty ch.name || is_empty ch.path)) (bad_extra n))
      (taken_problem n ch.name (lookup ch.name claimed))

abbrev pub extras_problem : ℕ → List (Text × Owner) → List Chart → Option ConfigError
extras_problem n claimed [] = none
extras_problem n claimed (ch ∷ chs) =
    then_check (extra_problem n claimed ch)
      (extras_problem (suc n) ((ch.name, extra n) ∷ claimed) chs)

unfoldable pub lock_problem : Text → Text → Option ConfigError
lock_problem lock dist =
    must (not (text_eq lock dist || has_prefix lock (dist ++ codes "/"))) (lock_in_dist lock dist)

abbrev pub rings_claimed : Config → List (Text × Owner)
rings_claimed c = (c.charts.ring2.name, ring2) ∷ (c.charts.ring3.name, ring3) ∷ []

-- the checks in their order
abbrev pub checks : MapOrder → Config → List (Option ConfigError)
checks o c =
    must (not (is_empty c.project)) no_project
    ∷ must (not (is_empty c.aws_region)) no_region
    ∷ in_order o.stable_first (destination_problem (codes "preview") c.registries.preview)
        (destination_problem (codes "stable") c.registries.stable)
    ∷ in_order o.ring3_first (ring_problem (codes "ring2") c.charts.ring2)
        (ring_problem (codes "ring3") c.charts.ring3)
    ∷ must (not (text_eq c.charts.ring2.name c.charts.ring3.name)) (same_rings c.charts.ring2.name)
    ∷ extras_problem 0 (rings_claimed c) c.charts.extra
    ∷ lock_problem (clean c.lock.file) (clean c.dist_dir)
    ∷ []

abbrev pub first_problem : List (Option ConfigError) → Option ConfigError
first_problem [] = none
first_problem (p ∷ ps) = then_check p (first_problem ps)

unfoldable pub validate : MapOrder → Config → Option ConfigError
validate o c = first_problem (checks o c)

abbrev pub checked : Config → Option ConfigError → Result ConfigError Config
checked c none = ok c
checked c (some e) = err e

unfoldable pub parse : MapOrder → Config → Result ConfigError Config
parse o document = checked (apply_defaults document) (validate o (apply_defaults document))
