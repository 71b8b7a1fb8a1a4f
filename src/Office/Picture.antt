-- ===== src/Office/Picture.antt =====
-- What `App._draw` of frontend/main.py puts on the screen, as the list of its calls of the
-- drawing functions, in order. `A` is the type of the strengths that go with a figure, which are
-- floats: its alpha and its boost. The left edge of a desk is that of Layout.Desk for every
-- session.
use silicon_office.Prelude.{
  ℕ, ◌+◌, ◌-◌, max, String, Bool, not, ◌&&◌, none, some, List, [], ◌∷◌, ◌++◌, if◌then◌else◌,
}
use silicon_office.Prelude.Dict.{Dict, lookup}
use silicon_office.Layout.{Layout}
use silicon_office.Layout.Desk.{DeskRow, desk_rect}
use silicon_office.Office.{App, Shown, Ghost, is_asking, age_spawn, age_asking}

-- USAGE_BAR_HEIGHT of frontend/theme.py
abbrev pub usage_bar_height : ℕ
usage_bar_height = 34

-- `rect.move(0, USAGE_BAR_HEIGHT)`
unfoldable pub below_bar : DeskRow → DeskRow
below_bar row = record row { top = row.top + usage_bar_height }

-- The calls: of `fill`, `draw_background`, `draw_agent`, `draw_connection_banner`,
-- `draw_usage_bar` and `flip`.
pub data Call (T A : Type 0) : Type 0 where
  clear background banner usage_bar flip : Call T A
  figure : String → DeskRow → Shown T → A → A → Call T A

-- How strong a figure is drawn: `full` and `unlit` are 1.0 and 0.0; the others are what the code
-- computes from the clock and the time at which an animation started.
pub record Strengths (M A : Type 0) : Type 0 where
  pub full : A
  pub unlit : A
  pub spawn_alpha : M → M → A
  pub flash_boost : M → M → A
  pub despawn_alpha : M → M → A

-- The height of the office under the bar.
unfoldable pub office_height : ℕ → ℕ
office_height h = max 1 (h - usage_bar_height)

-- The figures among the calls: whose, and in which row.
unfoldable pub figures : {T A : Type 0} → List (Call T A) → List (String × DeskRow)
figures [] = []
figures (figure sid row _ _ _ ∷ cs) = (sid, row) ∷ figures cs
figures (_ ∷ cs) = figures cs

unfoldable pub banner_if : {T A : Type 0} → Bool → List (Call T A)
banner_if connected = if connected then [] else banner ∷ []

module _ {T M A : Type 0} (spawn_over flash_over : M → M → Bool) (strengths : Strengths M A) where
  unfoldable pub alpha_of : App T M → String → M → A
  alpha_of app sid now = elim (lookup sid app.spawn_started) [
    | none ↦ strengths.full
    | some started ↦
        if spawn_over now started then strengths.full else strengths.spawn_alpha now started
  ]

  unfoldable pub boost_of : App T M → String → Shown T → M → A
  boost_of app sid agent now = elim (lookup sid app.asking_since) [
    | none ↦ strengths.unlit
    | some since ↦
        if is_asking agent && not (flash_over now since)
        then strengths.flash_boost now since
        else strengths.unlit
  ]

  -- The loop over the agents, which also ages their times.
  unfoldable pub paint_agents : ℕ → App T M → Dict (Shown T) → M → List (Call T A)
  unfolding below_bar alpha_of boost_of
  paint_agents h app [] now = []
  paint_agents h app ((sid, agent) ∷ rest) now = elim (desk_rect app.layout sid h) [
    | none ↦ paint_agents h app rest now
    | some row ↦
        figure sid (below_bar row) agent (alpha_of app sid now) (boost_of app sid agent now)
        ∷ paint_agents h (age_asking flash_over (age_spawn spawn_over app sid now) sid agent now)
            rest now
  ]

  unfoldable pub paint_ghosts : ℕ → Layout → Dict (Ghost T M) → M → List (Call T A)
  unfolding below_bar
  paint_ghosts h layout [] now = []
  paint_ghosts h layout ((sid, ghost) ∷ rest) now =
      let later = paint_ghosts h layout rest now in
      elim (desk_rect layout sid h) [
        | none ↦ later
        | some row ↦
            figure sid (below_bar row) ghost.agent
              (strengths.despawn_alpha now ghost.despawn_started) strengths.unlit
            ∷ later
      ]

  -- `_draw`, in a window of some height.
  unfoldable pub picture : ℕ → App T M → M → List (Call T A)
  picture height app now =
      let h = office_height height in
      clear
      ∷ background
      ∷ (paint_agents h app app.agents now
          ++ (paint_ghosts h app.layout app.ghosts now
              ++ (banner_if app.connected ++ usage_bar ∷ flip ∷ [])))
