-- ===== src/Office/Replica.antt =====
-- The frontend's view of the agents against the daemon's messages.
use silicon_office.Prelude.{
  String, ◌==◌, ◌≡◌, refl, ◌∙◌, not, ◌&&◌, none, some, is_some, List, [], ◌∷◌, contains, Distinct,
  arith, Option-cases, inl, inr, if◌then◌else◌,
}
use silicon_office.Prelude.Dict.{
  Dict, lookup, keys, map_option, lookup-insert, lookup-erase, contains-keys,
}
use silicon_office.Schema.{WireAgent}
use silicon_office.Office.{
  App, Shown, sync_layout, upsert_agent, start_despawn, upsert_all, despawn_missing, show_snapshot,
}

module _ {T M : Type 0} (order : List String → List String) where
  pub lookup-upsert_agent :
      (app : App T M) (sid : String) (agent : Shown T) (now : M) (k : String)
      → lookup k (upsert_agent order app sid agent now).agents
        ≡ (if k == sid then some agent else lookup k app.agents)
  unfolding upsert_agent sync_layout
  lookup-upsert_agent app sid agent now k = lookup-insert k sid agent app.agents

  pub lookup-start_despawn :
      (app : App T M) (sid : String) (now : M) (k : String)
      → lookup k (start_despawn order app sid now).agents
        ≡ (if k == sid then none else lookup k app.agents)
  unfolding start_despawn sync_layout
  lookup-start_despawn app sid now k = elim (Option-cases (lookup sid app.agents)) [
    | inl e ↦ rw (e, start_despawn) (ground arith)
    | inr (a, e) ↦ rw (e, start_despawn) (lookup-erase k sid app.agents)
  ]

  lookup-upsert_all :
      (app : App T M) (agents : Dict (WireAgent T)) (now : M) (k : String)
      → Distinct (keys agents)
      → lookup k (upsert_all order app agents now).agents
        ≡ (if is_some (lookup k agents) then some (lookup k agents) else lookup k app.agents)
  unfolding upsert_all lookup keys
  lookup-upsert_all app [] now k d = refl
  lookup-upsert_all app ((sid, a) ∷ rest) now k (fresh, d) = ground (
    arith,
    lookup-upsert_all (upsert_agent order app sid (some a) now) rest now k d,
    lookup-upsert_agent app sid (some a) now k,
    contains-keys rest sid,
  )

  lookup-despawn_missing :
      (app : App T M) (agents : Dict (WireAgent T)) (sids : List String) (clock : String → M)
      (k : String)
      → lookup k (despawn_missing order app agents sids clock).agents
        ≡ (if contains sids k && not (is_some (lookup k agents)) then none else lookup k app.agents)
  unfolding despawn_missing
  lookup-despawn_missing app agents [] clock k = refl
  lookup-despawn_missing app agents (sid ∷ sids) clock k = elim (Option-cases (lookup sid agents)) [
    | inl e ↦
        rw (e, despawn_missing)
          (ground (
            arith,
            lookup-despawn_missing (start_despawn order app sid (clock sid)) agents sids clock k,
            lookup-start_despawn app sid (clock sid) k,
          ))
    | inr (a, e) ↦
        rw (e, despawn_missing) (ground (arith, lookup-despawn_missing app agents sids clock k))
  ]

  -- After a snapshot the frontend shows exactly its agents, whatever it showed before.
  pub show_snapshot_agents :
      (app : App T M) (agents : Dict (WireAgent T)) (now : M) (clock : String → M) (k : String)
      → Distinct (keys agents)
      → lookup k (show_snapshot order app agents now clock).agents
        ≡ map_option some (lookup k agents)
  unfolding show_snapshot
  show_snapshot_agents app agents now clock k d =
      let shown = upsert_all order app agents now in
      lookup-despawn_missing shown agents (keys shown.agents) clock k
      ∙ ground (arith, lookup-upsert_all app agents now k d, contains-keys shown.agents k)
