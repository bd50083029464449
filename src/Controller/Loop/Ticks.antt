-- ===== src/Controller/Loop/Ticks.antt =====
-- The goroutines of controller/pkg/reconciler, one statement at a time: Start, Stop, which holds
-- the mutex while it waits, and the loops.
pub mod Stopping
use supernetes.Prelude.{
  ℕ, zero, suc, List, [], ◌∷◌, Bool, true, false, ◌≡◌, Option, none, some, map, if◌then◌else◌,
}

-- a loop in Reconcile, or in its select
pub data Place : Type 0 where
  reconciling waiting : Place

-- a goroutine that Start began, and whether its context is cancelled
pub record Loop : Type 0 where
  pub place : Place
  pub cancelled : Bool

-- `reconciler`: `stopping` is whether Stop holds the mutex, `loops` are the goroutines that the
-- wait group counts, the latest one first, and `over` is whether the original context is cancelled.
pub record State : Type 0 where
  pub running : Bool
  pub stopping : Bool
  pub over : Bool
  pub loops : List Loop

-- what a loop does: Reconcile returns, the select takes the tick, or it takes the cancellation
pub data Move : Type 0 where
  returns ticks leaves : Move

pub data Action : Type 0 where
  starts stop_begins stop_ends : Action
  moves : ℕ → Move → Action
  context_ends : Action

abbrev pub idle : State
idle = record { running = false; stopping = false; over = false; loops = [] }

unfoldable pub cancel : Loop → Loop
cancel l = record l { cancelled = true }

-- `r.cancel`, which Start sets for the latest loop
unfoldable pub cancel_last : List Loop → List Loop
unfolding cancel
cancel_last [] = []
cancel_last (l ∷ ls) = cancel l ∷ ls

-- a move of a loop: the loop after it, or none where it has returned
unfoldable pub move_at : Move → Place → Loop → Option (Option Loop)
move_at returns reconciling l = some (some (record l { place = Place.waiting }))
move_at returns waiting l = none
move_at ticks reconciling l = none
move_at ticks waiting l = some (some (record l { place = Place.reconciling }))
move_at leaves reconciling l = none
move_at leaves waiting l = if l.cancelled then some none else none

abbrev pub replace : Option Loop → List Loop → List Loop
replace none ls = ls
replace (some l) ls = l ∷ ls

unfoldable pub move_loop : ℕ → Move → List Loop → Option (List Loop)
unfolding move_at
move_loop i move [] = none
move_loop zero move (l ∷ ls) = elim (move_at move l.place l) [
  | none ↦ none
  | some o ↦ some (replace o ls)
]
move_loop (suc i) move (l ∷ ls) =
    let rest = move_loop i move ls in elim rest [ none ↦ none | some ls' ↦ some (l ∷ ls') ]

-- `Start`, once it has the mutex
unfoldable pub start : State → State
start s = if s.running then s else record s {
  running = true;
  loops = record { place = Place.reconciling; cancelled = s.over } ∷ s.loops;
}

-- `Stop`, up to the wait
unfoldable pub stop_begin : State → State
unfolding cancel_last
stop_begin s = record s { running = false; stopping = true; loops = cancel_last s.loops }

-- the wait is over when no loop is left
unfoldable pub stop_end : List Loop → State → Option State
stop_end [] s = if s.stopping then some (record s { stopping = false }) else none
stop_end (l ∷ ls) s = none

unfoldable pub act : Action → State → Option State
unfolding start stop_begin stop_end move_loop cancel
act starts s = if s.stopping then none else some (start s)
act stop_begins s = if s.stopping then none else some (stop_begin s)
act stop_ends s = stop_end s.loops s
act (moves i move) s = elim (move_loop i move s.loops) [
  | none ↦ none
  | some loops ↦ some (record s { loops = loops })
]
act context_ends s = some (record s { over = true; loops = map cancel s.loops })

pub data Reach (s : State) : State → Type 0 where
  here : Reach s s
  next : {t u : State} (action : Action) → Reach s t → act action t ≡ some u → Reach s u
