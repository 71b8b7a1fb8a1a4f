-- ===== src/Office/Consistent.antt =====
-- The parts of the frontend's state against each other: who is shown, who fades out, who has a
-- desk.
use silicon_office.Prelude.{
  String, ◌==◌, ◌≡◌, ◌∙◌, true, false, not, ◌&&◌, some, is_some, List, [], ◌∷◌, contains,
  contains-append, contains-keep, arith, Option-cases, Bool-cases, inl, inr,
}
use silicon_office.Prelude.Dict.{Dict, lookup, keys, lookup-insert, lookup-erase, contains-keys}
use silicon_office.Schema.{Op, upsert, remove, noop, WireAgent, snapshot, diff}
use silicon_office.Layout.Slots.{IsValid}
use silicon_office.Layout.Sync.{IsSetOrder, sync-IsValid, sync_sessions}
use silicon_office.Office.{
  App, Shown, Incoming, conn_status, from_daemon, other, everyone, seated, is_asking, was_asking,
  sync_layout, upsert_agent, start_despawn, upsert_all, despawn_missing, show_snapshot, handle_diff,
  handle_message, drain_queue,
}

module _ {T M : Type 0} where
  -- No session is shown and fading at once, a spawn or asking time is only kept for a session
  -- that is shown, and exactly the sessions that are shown or fading have a desk, each its own.
  pub record IsConsistent (app : App T M) : Type 0 where
    pub apart :
        (k : String) → (is_some (lookup k app.agents) && is_some (lookup k app.ghosts)) ≡ false
    pub spawning :
        (k : String)
        → is_some (lookup k app.spawn_started) ≡ true
        → is_some (lookup k app.agents) ≡ true
    pub asking :
        (k : String)
        → is_some (lookup k app.asking_since) ≡ true
        → is_some (lookup k app.agents) ≡ true
    pub seats : (k : String) → is_some (lookup k app.layout.slot_of_session) ≡ seated app k
    pub valid : IsValid app.layout

  contains-everyone : (app : App T M) (k : String) → contains (everyone app) k ≡ seated app k
  unfolding everyone
  contains-everyone app k =
      contains-append (keys app.agents) _ k
      ∙ ground (
        arith,
        contains-keep (λ j. not (contains (keys app.agents) j)) (keys app.ghosts) k,
        contains-keys app.agents k,
        contains-keys app.ghosts k,
      )

  module _ (order : List String → List String) (o : IsSetOrder order) where
    -- Where all but the desks is right, `sync_layout` makes the state consistent.
    pub sync_layout-IsConsistent :
        (app : App T M)
        → ((k : String) → (is_some (lookup k app.agents) && is_some (lookup k app.ghosts)) ≡ false)
        → ((k : String)
            → is_some (lookup k app.spawn_started) ≡ true
            → is_some (lookup k app.agents) ≡ true)
        → ((k : String)
            → is_some (lookup k app.asking_since) ≡ true
            → is_some (lookup k app.agents) ≡ true)
        → IsValid app.layout
        → IsConsistent (sync_layout order app)
    unfolding sync_layout
    sync_layout-IsConsistent app a s q v = record {
      apart = a;
      spawning = s;
      asking = q;
      seats = λ k. sync_sessions order o app.layout (everyone app) k ∙ contains-everyone app k;
      valid = sync-IsValid order o app.layout (everyone app) v;
    }

    upsert_agent-IsConsistent :
        (app : App T M) (sid : String) (agent : Shown T) (now : M)
        → IsConsistent app
        → IsConsistent (upsert_agent order app sid agent now)
    unfolding upsert_agent
    upsert_agent-IsConsistent app sid agent now c =
        sync_layout-IsConsistent _
          (λ k. rw (lookup-insert, lookup-erase) (ground (arith, c.apart k)))
          (λ k. rw lookup-insert (elim (Bool-cases (not (seated app sid))) [
            | inl e ↦ rw e (rw lookup-insert (ground (arith, c.spawning k)))
            | inr e ↦ rw e (ground (arith, c.spawning k))
          ]))
          (λ k.
            rw lookup-insert
              (elim (Bool-cases (is_asking agent && not (was_asking (lookup sid app.agents)))) [
                | inl e ↦ rw e (rw lookup-insert (ground (arith, c.asking k)))
                | inr e ↦ rw e (ground (arith, c.asking k))
              ]))
          c.valid

    start_despawn-IsConsistent :
        (app : App T M) (sid : String) (now : M)
        → IsConsistent app
        → IsConsistent (start_despawn order app sid now)
    unfolding start_despawn
    start_despawn-IsConsistent app sid now c = elim (Option-cases (lookup sid app.agents)) [
      | inl e ↦ rw (e, start_despawn) c
      | inr (a, e) ↦
          rw (e, start_despawn)
            (sync_layout-IsConsistent _
              (λ k. rw (lookup-insert, lookup-erase) (ground (arith, c.apart k)))
              (λ k. rw (lookup-erase, lookup-erase) (ground (arith, c.spawning k)))
              (λ k. rw (lookup-erase, lookup-erase) (ground (arith, c.asking k))) c.valid)
    ]

    upsert_all-IsConsistent :
        (app : App T M) (agents : Dict (WireAgent T)) (now : M)
        → IsConsistent app
        → IsConsistent (upsert_all order app agents now)
    unfolding upsert_all
    upsert_all-IsConsistent app [] now c = c
    upsert_all-IsConsistent app ((sid, a) ∷ rest) now c =
        upsert_all-IsConsistent (upsert_agent order app sid (some a) now) rest now
          (upsert_agent-IsConsistent app sid (some a) now c)

    despawn_missing-IsConsistent :
        (app : App T M) (agents : Dict (WireAgent T)) (sids : List String) (clock : String → M)
        → IsConsistent app
        → IsConsistent (despawn_missing order app agents sids clock)
    unfolding despawn_missing
    despawn_missing-IsConsistent app agents [] clock c = c
    despawn_missing-IsConsistent app agents (sid ∷ sids) clock c =
        elim (Bool-cases (is_some (lookup sid agents))) [
          | inl e ↦ rw (e, despawn_missing) (despawn_missing-IsConsistent app agents sids clock c)
          | inr e ↦
              rw (e, despawn_missing)
                (despawn_missing-IsConsistent (start_despawn order app sid (clock sid)) agents sids
                  clock (start_despawn-IsConsistent app sid (clock sid) c))
        ]

    handle_diff-IsConsistent :
        (app : App T M) (sid : String) (op : Op) (agent : Shown T) (now : M) (clock : String → M)
        → IsConsistent app
        → IsConsistent (handle_diff order app sid op agent now clock)
    unfolding handle_diff
    handle_diff-IsConsistent app sid upsert agent now clock c = elim (Bool-cases (sid == "")) [
      | inl e ↦ rw e c
      | inr e ↦ rw e (upsert_agent-IsConsistent app sid agent now c)
    ]
    handle_diff-IsConsistent app sid remove agent now clock c = elim (Bool-cases (sid == "")) [
      | inl e ↦ rw e c
      | inr e ↦ rw e (start_despawn-IsConsistent app sid (clock sid) c)
    ]
    handle_diff-IsConsistent app sid noop agent now clock c = c

    -- Every message from the queue, whichever it is, keeps the state consistent.
    pub handle_message-IsConsistent :
        (app : App T M) (message : Incoming T) (now : M) (clock : String → M)
        → IsConsistent app
        → IsConsistent (handle_message order app message now clock)
    unfolding handle_message show_snapshot
    handle_message-IsConsistent app (conn_status up) now clock c = record {
      apart = c.apart;
      spawning = c.spawning;
      asking = c.asking;
      seats = c.seats;
      valid = c.valid;
    }
    handle_message-IsConsistent app (from_daemon (snapshot v ts agents)) now clock c =
        despawn_missing-IsConsistent _ agents _ clock (upsert_all-IsConsistent app agents now c)
    handle_message-IsConsistent app (from_daemon (diff v ts sid op agent)) now clock c =
        handle_diff-IsConsistent app sid op agent now clock c
    handle_message-IsConsistent app other now clock c = c

    pub drain_queue-IsConsistent :
        (app : App T M) (queue : List (Incoming T × M × (String → M)))
        → IsConsistent app
        → IsConsistent (drain_queue order app queue)
    unfolding drain_queue
    drain_queue-IsConsistent app [] c = c
    drain_queue-IsConsistent app ((message, now, clock) ∷ rest) c =
        drain_queue-IsConsistent (handle_message order app message now clock) rest
          (handle_message-IsConsistent app message now clock c)
