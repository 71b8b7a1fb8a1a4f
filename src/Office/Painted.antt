-- ===== src/Office/Painted.antt =====
-- The picture of frontend/main.py's `App._draw` against the state of the window.
use silicon_office.Prelude.{
  ℕ, append-nil, String, ==_refl, ◌≡◌, refl, ap, ◌∙◌, Bool, true, false, none, some, is_some, List,
  [], ◌∷◌, ◌++◌, map, All, contains, contains-append, arith, Option-cases, inl, inr,
}
use silicon_office.Prelude.Dict.{Dict, lookup, keys, contains-keys}
use silicon_office.Layout.{Layout}
use silicon_office.Layout.Desk.{DeskRow, desk_row, desk_rect}
use silicon_office.Office.{App, Shown, Ghost, age_spawn, age_asking}
use silicon_office.Office.Consistent.{IsConsistent}
use silicon_office.Office.Picture.{
  below_bar, Call, clear, background, banner, usage_bar, flip, figure, Strengths, office_height,
  figures, paint_agents, paint_ghosts, banner_if, picture,
}

-- The row that is asked for each of the sessions, below the bar.
unfoldable pub rows_of : ℕ → Layout → List String → List (String × DeskRow)
unfolding below_bar
rows_of h layout [] = []
rows_of h layout (sid ∷ sids) =
    let later = rows_of h layout sids in
    elim (desk_rect layout sid h) [ none ↦ later | some row ↦ (sid, below_bar row) ∷ later ]

rows_of-append :
    (h : ℕ) (layout : Layout) (xs ys : List String)
    → rows_of h layout (xs ++ ys) ≡ rows_of h layout xs ++ rows_of h layout ys
unfolding rows_of
rows_of-append h layout [] ys = refl
rows_of-append h layout (x ∷ xs) ys = elim (Option-cases (desk_rect layout x h)) [
  | inl e ↦ rw (e, rows_of) (rows_of-append h layout xs ys)
  | inr (row, e) ↦
      rw (e, rows_of) (ap (λ l. (x, below_bar row) ∷ l) (rows_of-append h layout xs ys))
]

desk_rect_there :
    (layout : Layout) (sid : String) (h : ℕ)
    → is_some (lookup sid layout.slot_of_session) ≡ true
    → (row : DeskRow) × (desk_rect layout sid h ≡ some row)
unfolding desk_rect
desk_rect_there layout sid h e = elim (Option-cases (lookup sid layout.slot_of_session)) [
  | inl q ↦ let impossible : ⊥ = ground arith in absurd impossible
  | inr (slot, q) ↦ (desk_row layout.rows h slot, rw (q, desk_rect) refl)
]

-- A figure stands at the desk of its session, below the bar.
abbrev pub IsAtDesk : Layout → ℕ → (String × DeskRow) → Type 0
IsAtDesk layout h (sid, row) =
    (desk : DeskRow) × (desk_rect layout sid h ≡ some desk) × (row ≡ below_bar desk)

rows_of_lem :
    (h : ℕ) (layout : Layout) (sids : List String)
    → ((k : String) → contains sids k ≡ true → is_some (lookup k layout.slot_of_session) ≡ true)
    → (map (λ x. x.0) (rows_of h layout sids) ≡ sids)
      × All (IsAtDesk layout h) (rows_of h layout sids)
unfolding rows_of
rows_of_lem h layout [] s = (refl, tt)
rows_of_lem h layout (sid ∷ sids) s =
    let (row, e) = desk_rect_there layout sid h (s sid (rw (==_refl sid) refl)) in
    let (names, at_desks) = rows_of_lem h layout sids (λ k c. s k (ground (arith, c))) in
    rw (e, rows_of) (ap (λ l. sid ∷ l) names, ((row, e, refl), at_desks))

figures-end :
    (T A : Type 0) (connected : Bool)
    → figures {T = T} {A = A} (banner_if connected ++ usage_bar ∷ flip ∷ []) ≡ []
unfolding figures banner_if
figures-end T A true = refl
figures-end T A false = refl

module _ {T M A : Type 0} (spawn_over flash_over : M → M → Bool) (strengths : Strengths M A) where
  layout-age_spawn :
      (app : App T M) (sid : String) (now : M)
      → (age_spawn spawn_over app sid now).layout ≡ app.layout
  unfolding age_spawn
  layout-age_spawn app sid now = ground arith

  layout-age_asking :
      (app : App T M) (sid : String) (agent : Shown T) (now : M)
      → (age_asking flash_over app sid agent now).layout ≡ app.layout
  unfolding age_asking
  layout-age_asking app sid agent now = ground arith

  figures-append : (xs ys : List (Call T A)) → figures (xs ++ ys) ≡ figures xs ++ figures ys
  unfolding figures
  figures-append [] ys = refl
  figures-append (figure sid row _ _ _ ∷ xs) ys = ap (λ l. (sid, row) ∷ l) (figures-append xs ys)
  figures-append (clear ∷ xs) ys = figures-append xs ys
  figures-append (background ∷ xs) ys = figures-append xs ys
  figures-append (banner ∷ xs) ys = figures-append xs ys
  figures-append (usage_bar ∷ xs) ys = figures-append xs ys
  figures-append (flip ∷ xs) ys = figures-append xs ys

  figures-paint_agents :
      (h : ℕ) (app : App T M) (agents : Dict (Shown T)) (now : M)
      → figures (paint_agents spawn_over flash_over strengths h app agents now)
        ≡ rows_of h app.layout (keys agents)
  unfolding figures paint_agents rows_of keys
  figures-paint_agents h app [] now = refl
  figures-paint_agents h app ((sid, agent) ∷ rest) now =
      elim (Option-cases (desk_rect app.layout sid h)) [
        | inl e ↦ rw (e, paint_agents) (rw (e, rows_of) (figures-paint_agents h app rest now))
        | inr (row, e) ↦
            let aged = age_asking flash_over (age_spawn spawn_over app sid now) sid agent now in
            let same : aged.layout ≡ app.layout =
              layout-age_asking (age_spawn spawn_over app sid now) sid agent now
              ∙ layout-age_spawn app sid now in
            rw (e, paint_agents)
              (rw (e, rows_of)
                (ap (λ l. (sid, below_bar row) ∷ l)
                  (figures-paint_agents h aged rest now ∙ ap (λ l. rows_of h l (keys rest)) same)))
      ]

  figures-paint_ghosts :
      (h : ℕ) (layout : Layout) (ghosts : Dict (Ghost T M)) (now : M)
      → figures (paint_ghosts spawn_over flash_over strengths h layout ghosts now)
        ≡ rows_of h layout (keys ghosts)
  unfolding figures paint_ghosts rows_of keys
  figures-paint_ghosts h layout [] now = refl
  figures-paint_ghosts h layout ((sid, ghost) ∷ rest) now =
      elim (Option-cases (desk_rect layout sid h)) [
        | inl e ↦ rw (e, paint_ghosts) (rw (e, rows_of) (figures-paint_ghosts h layout rest now))
        | inr (row, e) ↦
            rw (e, paint_ghosts)
              (rw (e, rows_of)
                (ap (λ l. (sid, below_bar row) ∷ l) (figures-paint_ghosts h layout rest now)))
      ]

  figures-picture :
      (height : ℕ) (app : App T M) (now : M)
      → figures (picture spawn_over flash_over strengths height app now)
        ≡ rows_of (office_height height) app.layout (keys app.agents ++ keys app.ghosts)
  unfolding picture figures
  figures-picture height app now =
      let h = office_height height in
      figures-append (paint_agents spawn_over flash_over strengths h app app.agents now) _
      ∙ rw
          (
            figures-paint_agents h app app.agents now,
            figures-append
                (paint_ghosts spawn_over flash_over strengths h app.layout app.ghosts now) _,
            figures-paint_ghosts h app.layout app.ghosts now,
            figures-end T A app.connected,
            append-nil,
            rows_of-append,
          )
          refl

  -- Every session that the window tracks is drawn: if the state is consistent, then the figures
  -- of a picture are those of the agents and then of the ghosts, in the order of the dicts, one
  -- for each entry and none skipped, each at the desk that the layout gives its session.
  pub picture-IsConsistent :
      (height : ℕ) (app : App T M) (now : M)
      → IsConsistent app
      → let drawn = figures (picture spawn_over flash_over strengths height app now) in
        (map (λ x. x.0) drawn ≡ keys app.agents ++ keys app.ghosts)
        × All (IsAtDesk app.layout (office_height height)) drawn
  picture-IsConsistent height app now c =
      let h = office_height height in
      let everyone = keys app.agents ++ keys app.ghosts in
      rw (figures-picture height app now) (
        rows_of_lem h app.layout everyone λ k e. ground (
          arith,
          c.seats k,
          contains-append (keys app.agents) (keys app.ghosts) k,
          contains-keys app.agents k,
          contains-keys app.ghosts k,
          e,
        ))
