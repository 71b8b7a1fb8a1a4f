-- ===== src/Office/Frame.antt =====
-- A frame of the window, against the consistency of its state.
use silicon_office.Prelude.{
  String, ◌≡◌, refl, Bool, ◌&&◌, none, is_some, List, [], ◌∷◌, contains, arith, Option-cases,
  Bool-cases, inl, inr, if◌then◌else◌,
}
use silicon_office.Prelude.Dict.{Dict, lookup, erase, lookup-erase}
use silicon_office.Layout.Sync.{IsSetOrder}
use silicon_office.Office.{
  App, Shown, Ghost, is_asking, finished, pop_all, update_ghosts, age_spawn, age_asking,
  draw_agents,
}
use silicon_office.Office.Consistent.{IsConsistent, sync_layout-IsConsistent}

module _ {T M : Type 0} where
  lookup-pop_all :
      (sids : List String) (ghosts : Dict (Ghost T M)) (k : String)
      → lookup k (pop_all sids ghosts) ≡ (if contains sids k then none else lookup k ghosts)
  unfolding pop_all
  lookup-pop_all [] ghosts k = refl
  lookup-pop_all (sid ∷ sids) ghosts k =
      ground (arith, lookup-pop_all sids (erase sid ghosts) k, lookup-erase k sid ghosts)

  age_spawn-IsConsistent :
      (spawn_over : M → M → Bool) (app : App T M) (sid : String) (now : M)
      → IsConsistent app
      → IsConsistent (age_spawn spawn_over app sid now)
  unfolding age_spawn
  age_spawn-IsConsistent spawn_over app sid now c =
      elim (Option-cases (lookup sid app.spawn_started)) [
        | inl e ↦ rw (e, age_spawn) c
        | inr (t, e) ↦ elim (Bool-cases (spawn_over now t)) [
          | inl q ↦
              rw (e, age_spawn)
                (rw q (record {
                  apart = c.apart;
                  spawning = λ k. rw lookup-erase (ground (arith, c.spawning k));
                  asking = c.asking;
                  seats = c.seats;
                  valid = c.valid;
                }))
          | inr q ↦ rw (e, age_spawn) (rw q c)
        ]
      ]

  age_asking-IsConsistent :
      (flash_over : M → M → Bool) (app : App T M) (sid : String) (agent : Shown T) (now : M)
      → IsConsistent app
      → IsConsistent (age_asking flash_over app sid agent now)
  unfolding age_asking
  age_asking-IsConsistent flash_over app sid agent now c =
      elim (Option-cases (lookup sid app.asking_since)) [
        | inl e ↦ rw (e, age_asking) c
        | inr (t, e) ↦ elim (Bool-cases (is_asking agent && flash_over now t)) [
          | inl q ↦
              rw (e, age_asking)
                (rw q (record {
                  apart = c.apart;
                  spawning = c.spawning;
                  asking = λ k. rw lookup-erase (ground (arith, c.asking k));
                  seats = c.seats;
                  valid = c.valid;
                }))
          | inr q ↦ rw (e, age_asking) (rw q c)
        ]
      ]

  pub draw_agents-IsConsistent :
      (spawn_over flash_over : M → M → Bool) (app : App T M) (agents : Dict (Shown T)) (now : M)
      → IsConsistent app
      → IsConsistent (draw_agents spawn_over flash_over app agents now)
  unfolding draw_agents
  draw_agents-IsConsistent spawn_over flash_over app [] now c = c
  draw_agents-IsConsistent spawn_over flash_over app ((sid, agent) ∷ rest) now c =
      let aged = age_asking flash_over (age_spawn spawn_over app sid now) sid agent now in
      elim (Bool-cases (is_some (lookup sid app.layout.slot_of_session))) [
        | inl e ↦ rw e (
            draw_agents-IsConsistent spawn_over flash_over aged rest now (
              age_asking-IsConsistent flash_over _ sid agent now
                (age_spawn-IsConsistent spawn_over app sid now c)))
        | inr e ↦ rw e (draw_agents-IsConsistent spawn_over flash_over app rest now c)
      ]

  module _ (order : List String → List String) (o : IsSetOrder order) where
    module _ (expired : M → M → Bool) where
      pub update_ghosts_at :
          (app : App T M) (now : M) (sids : List String)
          → finished expired now app.ghosts ≡ sids
          → IsConsistent app
          → IsConsistent (update_ghosts order expired app now)
      unfolding update_ghosts
      update_ghosts_at app now [] e c = rw (e, update_ghosts) c
      update_ghosts_at app now (sid ∷ sids) e c =
          rw (e, update_ghosts)
            (sync_layout-IsConsistent order o _ (λ k. rw lookup-pop_all (ground (arith, c.apart k)))
              c.spawning c.asking c.valid)
