-- ===== src/Preimage/Turns.antt =====
-- Turns on a channel whose configurations are known stage by stage.
use cannon_rs.Prelude.{◌≡◌, refl, ◌∙◌, ap, List, [], ◌∷◌, ◌++◌}
use cannon_rs.Preimage.Channel.{Connected, Side, take_turn, run_turns}

-- Where a schedule leads.
unfoldable pub last_stage : {Stage : Type 0} → (Side → Stage → Stage) → List Side → Stage → Stage
last_stage next [] stage = stage
last_stage next (side ∷ sides) stage = last_stage next sides (next side stage)

-- A run goes through the stages.
pub run_turns-stages :
    {A B Stage : Type 0} (at : Stage → Connected A B) (next : Side → Stage → Stage)
    → ((side : Side) (stage : Stage) → take_turn side (at stage) ≡ at (next side stage))
    → (sides : List Side) (stage : Stage)
    → run_turns sides (at stage) ≡ at (last_stage next sides stage)
unfolding run_turns last_stage
run_turns-stages at next moves [] stage = refl
run_turns-stages at next moves (side ∷ sides) stage =
    rw (moves side stage) (run_turns-stages at next moves sides (next side stage))

-- A schedule in two parts.
pub run_turns-append :
    {A B : Type 0} (sides rest : List Side) (c : Connected A B)
    → run_turns (sides ++ rest) c ≡ run_turns rest (run_turns sides c)
unfolding run_turns
run_turns-append [] rest c = refl
run_turns-append (side ∷ sides) rest c = run_turns-append sides rest (take_turn side c)

-- If the schedule `ending` leads from every stage to the last one, it ends every run that starts at
-- a stage.
pub run_turns-ending :
    {A B Stage : Type 0} (at : Stage → Connected A B) (next : Side → Stage → Stage)
    → ((side : Side) (stage : Stage) → take_turn side (at stage) ≡ at (next side stage))
    → (sides ending : List Side) (first last : Stage)
    → ((stage : Stage) → last_stage next ending stage ≡ last)
    → run_turns (sides ++ ending) (at first) ≡ at last
run_turns-ending at next moves sides ending first last ends =
    run_turns-append sides ending (at first)
    ∙ ap (run_turns ending) (run_turns-stages at next moves sides first)
    ∙ run_turns-stages at next moves ending (last_stage next sides first)
    ∙ ap at (ends (last_stage next sides first))
