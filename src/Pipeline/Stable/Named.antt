-- ===== src/Pipeline/Stable/Named.antt =====
-- That the stable release of pkg/pipeline/stable.go pushes the charts of the project's document.
use gemaal.Base.{List, [], ◌∷◌, ◌++◌, map, Bool, true, false, Text, ◌≡◌, refl, ap, ◌∙◌, inl, inr}
use gemaal.Engine.Types.{ok, Result-cases}
use gemaal.Pipeline.{Config}
use gemaal.Pipeline.Select.{Selection, ChartTarball, select_ring_charts}
use gemaal.Pipeline.Select.Coherent.{select_ring_charts-IsCoherent}
use gemaal.Pipeline.Flow.{Outside, Run, update}
use gemaal.Pipeline.Flow.Triples.{Keeps, ◌⟫◌, kept_by_none, Leads}
use gemaal.Pipeline.Steps.{select_staged}
use gemaal.Pipeline.Steps.Kept.{call-Keeps}
use gemaal.Pipeline.Stable.{
  StableState, ExtraPush, new_push, tracked_push, push_ring2, push_ring3, push_extra,
  push_extras_from, push_all,
}
use gemaal.Pipeline.Stable.Pushed.{IsNamed}
use gemaal.Pipeline.Flow.{Event, push_chart}

map_new : (ts : List ChartTarball) → map (λ x. x.name) (map new_push ts) ≡ map (λ t. t.name) ts
map_new [] = refl
map_new (t ∷ ts) = ap (λ l. t.name ∷ l) (map_new ts)

renamed :
    (front xs : List ExtraPush) (x y : ExtraPush)
    → x.name ≡ y.name
    → map (λ x. x.name) (front ++ (x ∷ xs)) ≡ map (λ x. x.name) (front ++ (y ∷ xs))
renamed [] xs x y h = ap (λ n. n ∷ map (λ x. x.name) xs) h
renamed (z ∷ front) xs x y h = ap (λ l. z.name ∷ l) (renamed front xs x y h)

shifted :
    (front xs : List ExtraPush) (x : ExtraPush) → (front ++ (x ∷ [])) ++ xs ≡ front ++ (x ∷ xs)
shifted [] xs x = refl
shifted (z ∷ front) xs x = ap (λ l. z ∷ l) (shifted front xs x)

module _ (o : Outside) (c : Config) where
  abbrev pub Named : Run StableState → Type 0
  Named w = IsNamed c w.state

  abbrev any_event : Event → Bool
  any_event e = true

  marked :
      (f : StableState → StableState)
      → ((s : StableState) → IsNamed c s → IsNamed c (f s))
      → Keeps Named (update f)
  unfolding update
  marked f h = record { run = λ w p. h w.state p }

  tracked_push-Named :
      (f g : StableState → StableState) (e : Event)
      → ((s : StableState) → IsNamed c s → IsNamed c (f s))
      → ((s : StableState) → IsNamed c s → IsNamed c (g s))
      → Keeps Named (tracked_push o f e g)
  tracked_push-Named f g e h k =
      marked f h ⟫ λ _. call-Keeps o Named any_event (λ e q r w p. p) e refl ⟫ λ _. marked g k

  push_extras_from-Named :
      (sel : Selection) (front xs : List ExtraPush)
      → map (λ x. x.name) (front ++ xs) ≡ map (λ ch. ch.name) c.charts.extra
      → Keeps Named (push_extras_from o sel front xs)
  unfolding push_extra
  push_extras_from-Named sel front [] h = kept_by_none (ok tt)
  push_extras_from-Named sel front (x ∷ xs) h =
      let y = record x { started = true } in
      let z = record x { started = true; confirmed = true } in
      tracked_push-Named (λ s. record s { extras = front ++ (y ∷ xs) })
        (λ s. record s { extras = front ++ (z ∷ xs) }) (push_chart x.name x.tgz sel.version false)
        (λ s p. renamed front xs y x refl ∙ h) (λ s p. renamed front xs z x refl ∙ h)
      ⟫ λ _.
          push_extras_from-Named sel (front ++ (z ∷ [])) xs
            (ap (λ l. map (λ x. x.name) l) (shifted front xs z) ∙ renamed front xs z x refl ∙ h)

  pub push_all-Named : (sel : Selection) → Keeps Named (push_all o c sel)
  unfolding push_all push_ring2 push_ring3
  push_all-Named sel =
      tracked_push-Named (λ s. record s { started_ring2 = true })
        (λ s. record s { confirmed_ring2 = true })
        (push_chart c.charts.ring2.name sel.infra_tgz sel.version false) (λ s p. p) (λ s p. p)
      ⟫ λ _. record { run = λ w p. (push_extras_from-Named sel [] w.state.extras p).run w p } ⟫ λ _.
          tracked_push-Named (λ s. record s { started_ring3 = true })
            (λ s. record s { confirmed_ring3 = true })
            (push_chart c.charts.ring3.name sel.app_tgz sel.version false) (λ s p. p) (λ s p. p)

  -- what a selection from the stage has for extras
  pub select_staged-Named :
      (dir : Text) (P : Run StableState → Type 0)
      → Leads P
          (select_staged o c dir)
          (λ sel w.
            P w × (map (λ x. x.name) (map new_push sel.extra) ≡ map (λ ch. ch.name) c.charts.extra))
          P
  unfolding select_staged
  select_staged-Named dir P = record {
    leads = λ w p. elim (Result-cases (select_ring_charts c.charts (o.stage w.trace) dir)) [
      | inl (sel, e) ↦
          let (es, _, k) = select_ring_charts-IsCoherent c.charts (o.stage w.trace) dir sel e in
          rw e (p, map_new sel.extra ∙ k.extra_names)
      | inr (x, e) ↦ rw e p
    ];
  }
