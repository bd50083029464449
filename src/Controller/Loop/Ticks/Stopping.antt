-- ===== src/Controller/Loop/Ticks/Stopping.antt =====
-- Stop ends the loop, and it can always end.
use mathlib.Core.Option.{some-injective, none-ne-some}
use supernetes.Prelude.{
  ℕ, zero, suc, ◌≤◌, List, [], ◌∷◌, true, false, ◌≡◌, refl, sym, ap, ◌∙◌, subst, Option, none, some,
  map, All, All-map, allowed, length, length-map, arith, Option-cases, Bool-cases, inl, inr, chosen,
}
use supernetes.Controller.Loop.Ticks.{
  Place, Loop, State, Move, returns, ticks, leaves, Action, starts, stop_begins, stop_ends, moves,
  context_ends, idle, cancel, cancel_last, move_at, move_loop, replace, start, stop_begin, stop_end,
  act, Reach, here, next,
}

abbrev pub IsCancelled : Loop → Type 0
IsCancelled l = l.cancelled ≡ true

-- At most one loop runs; while Stop waits its context is cancelled, and none is left when Stop has
-- returned, until the next Start.
abbrev pub IsSound : State → Type 0
IsSound s =
    (length s.loops ≤ 1)
    × (s.stopping ≡ true → (s.running ≡ false) × All IsCancelled s.loops)
    × (s.stopping ≡ false → s.running ≡ false → s.loops ≡ [])

move_at-IsCancelled :
    (move : Move) (place : Place) (l l' : Loop)
    → move_at move place l ≡ some (some l')
    → l'.cancelled ≡ l.cancelled
unfolding move_at
move_at-IsCancelled returns Place.reconciling l l' e =
    ap (λ o. o.cancelled) (sym (some-injective _ _ (some-injective _ _ e)))
move_at-IsCancelled returns Place.waiting l l' e = absurd (none-ne-some _ e)
move_at-IsCancelled ticks Place.reconciling l l' e = absurd (none-ne-some _ e)
move_at-IsCancelled ticks Place.waiting l l' e =
    ap (λ o. o.cancelled) (sym (some-injective _ _ (some-injective _ _ e)))
move_at-IsCancelled leaves Place.reconciling l l' e = absurd (none-ne-some _ e)
move_at-IsCancelled leaves Place.waiting l l' e = absurd (none-ne-some _ (chosen l.cancelled e).1)

-- what a move of a loop leaves of the loops
abbrev IsLess : List Loop → List Loop → Type 0
IsLess ls ls' = (length ls' ≤ length ls) × (All IsCancelled ls → All IsCancelled ls')

moved-IsLess :
    (move : Move) (l : Loop) (ls : List Loop) (o : Option Loop)
    → move_at move l.place l ≡ some o
    → IsLess (l ∷ ls) (replace o ls)
moved-IsLess move l ls none e = (omega arith, λ all. all.1)
moved-IsLess move l ls (some l') e =
    (omega arith, λ all. (move_at-IsCancelled move l.place l l' e ∙ all.0, all.1))

move_loop-IsLess :
    (i : ℕ) (move : Move) (ls ls' : List Loop) → move_loop i move ls ≡ some ls' → IsLess ls ls'
unfolding move_loop
move_loop-IsLess i move [] ls' e = absurd (none-ne-some _ e)
move_loop-IsLess zero move (l ∷ ls) ls' e = elim (Option-cases (move_at move l.place l)) [
  | inl stuck ↦
      let got : move_loop zero move (l ∷ ls) ≡ none = rw (stuck, move_loop) refl in
      absurd (none-ne-some _ (sym got ∙ e))
  | inr (o, moved) ↦
      let got : move_loop zero move (l ∷ ls) ≡ some (replace o ls) = rw (moved, move_loop) refl in
      subst (IsLess (l ∷ ls)) (some-injective _ _ (sym got ∙ e)) (moved-IsLess move l ls o moved)
]
move_loop-IsLess (suc i) move (l ∷ ls) ls' e = elim (Option-cases (move_loop i move ls)) [
  | inl stuck ↦
      let got : move_loop (suc i) move (l ∷ ls) ≡ none = rw (stuck, move_loop) refl in
      absurd (none-ne-some _ (sym got ∙ e))
  | inr (rest, moved) ↦
      let got : move_loop (suc i) move (l ∷ ls) ≡ some (l ∷ rest) = rw (moved, move_loop) refl in
      let (less, cancelled) = move_loop-IsLess i move ls rest moved in
      subst (IsLess (l ∷ ls)) (some-injective _ _ (sym got ∙ e))
        (omega arith, λ all. (all.0, cancelled all.1))
]

start-IsSound : (s : State) → s.stopping ≡ false → IsSound s → IsSound (start s)
unfolding start
start-IsSound s free h = elim (Bool-cases s.running) [
  | inl run ↦ rw (run, start) (h.0, λ b. absurd (cc (b, free)), λ b c. absurd (cc c))
  | inr paused ↦
      let none_left = h.2 free paused in
      rw (paused, none_left, start) (omega arith, λ b. absurd (cc (b, free)), λ b c. absurd (cc c))
]

cancel_last-All :
    (ls : List Loop)
    → length ls ≤ 1
    → (length (cancel_last ls) ≤ 1) × All IsCancelled (cancel_last ls)
unfolding cancel_last cancel
cancel_last-All [] h = (omega arith, tt)
cancel_last-All (l ∷ []) h = (omega arith, (refl, tt))
cancel_last-All (l ∷ m ∷ ls) h = absurd (omega arith)

stop_begin-IsSound : (s : State) → IsSound s → IsSound (stop_begin s)
unfolding stop_begin
stop_begin-IsSound s h =
    let (single, all) = cancel_last-All s.loops h.0 in
    (single, λ b. (refl, all), λ b. absurd (cc b))

stop_end-IsSound :
    (s t : State) (ls : List Loop) → s.loops ≡ ls → stop_end ls s ≡ some t → IsSound s → IsSound t
unfolding stop_end
stop_end-IsSound s t (l ∷ ls) at e h = absurd (none-ne-some _ e)
stop_end-IsSound s t [] at e h =
    let (waits, same) = chosen s.stopping e in
    subst IsSound same (h.0, λ b. absurd (cc b), λ b c. at)

moves-IsSound :
    (i : ℕ) (move : Move) (s t : State) → act (moves i move) s ≡ some t → IsSound s → IsSound t
unfolding act
moves-IsSound i move s t e (single, held, free) = elim (Option-cases (move_loop i move s.loops)) [
  | inl stuck ↦
      let got : act (moves i move) s ≡ none = rw (stuck, act) refl in
      absurd (none-ne-some _ (sym got ∙ e))
  | inr (loops, moved) ↦
      let got : act (moves i move) s ≡ some (record s { loops = loops }) = rw (moved, act) refl in
      let (less, all) = move_loop-IsLess i move s.loops loops moved in
      subst IsSound (some-injective _ _ (sym got ∙ e)) (
        omega arith,
        λ b. ((held b).0, all (held b).1),
        λ b c. no_more loops (subst (λ ls. length loops ≤ length ls) (free b c) less),
      )
]
  where
    no_more : (ls : List Loop) → length ls ≤ 0 → ls ≡ []
    no_more [] h = refl
    no_more (l ∷ ls) h = absurd (omega arith)

act-IsSound : (action : Action) (s t : State) → act action s ≡ some t → IsSound s → IsSound t
unfolding act
act-IsSound starts s t e h =
    let (free, same) = allowed s.stopping e in subst IsSound same (start-IsSound s free h)
act-IsSound stop_begins s t e h =
    let (free, same) = allowed s.stopping e in subst IsSound same (stop_begin-IsSound s h)
act-IsSound stop_ends s t e h = stop_end-IsSound s t s.loops refl e h
act-IsSound (moves i move) s t e h = moves-IsSound i move s t e h
act-IsSound context_ends s t e (single, held, free) = subst IsSound (some-injective _ _ e) (
  omega (arith, length-map cancel s.loops),
  λ b. ((held b).0, All-map IsCancelled cancel s.loops (λ l. unfold cancel in refl)),
  λ b c. ap (map cancel) (free b c),
)

-- Whatever happens after a reconciler was made, in whatever order, at most one loop runs at a time.
-- While Stop waits, that loop has a cancelled context; when Stop has returned there is none, so
-- that nothing is reconciled until the next Start.
pub Reach-IsSound :
    (s : State)
    → Reach idle s
    → (length s.loops ≤ 1)
      × (s.stopping ≡ true → All IsCancelled s.loops)
      × (s.stopping ≡ false → s.running ≡ false → s.loops ≡ [])
Reach-IsSound s r = let (single, held, free) = sound s r in (single, λ b. (held b).1, free)
  where
    sound : (s : State) → Reach idle s → IsSound s
    sound s here = (omega arith, λ b. absurd (cc b), λ b c. refl)
    sound s (next {t = t} {u = u} action r step) = act-IsSound action t u step (sound t r)

-- What happens by itself while Stop waits: a reconciliation returns, a loop receives its
-- cancellation, or the wait ends.
abbrev pub IsEnding : Action → Type 0
IsEnding starts = ⊥
IsEnding stop_begins = ⊥
IsEnding stop_ends = Unit
IsEnding (moves i returns) = Unit
IsEnding (moves i ticks) = ⊥
IsEnding (moves i leaves) = Unit
IsEnding context_ends = ⊥

-- the actions, one after the other
unfoldable pub perform : List Action → State → Option State
unfolding act
perform [] s = some s
perform (action ∷ actions) s = elim (act action s) [ none ↦ none | some t ↦ perform actions t ]

perform-next :
    (action : Action) (actions : List Action) (s t : State)
    → act action s ≡ some t
    → perform (action ∷ actions) s ≡ perform actions t
unfolding perform
perform-next action actions s t step = rw (step, perform) refl

leave_waiting :
    (s : State) (l : Loop)
    → l.place ≡ Place.waiting
    → s.loops ≡ l ∷ []
    → IsCancelled l
    → act (moves 0 leaves) s ≡ some (record s { loops = [] })
unfolding act move_loop move_at
leave_waiting s l place at cancelled = rw (at, place, cancelled, move_at) refl

stop_ends_empty :
    (t : State)
    → t.stopping ≡ true
    → t.loops ≡ []
    → act stop_ends t ≡ some (record t { stopping = false })
unfolding act stop_end
stop_ends_empty t waits left = rw (left, waits, stop_end) refl

-- at most `bound` such actions that end with the end of the wait, when no loop is left
abbrev pub EndsWithin : ℕ → State → Type 0
EndsWithin bound s =
    (actions : List Action) × (t : State) × (length actions ≤ bound)
    × All IsEnding actions
    × (perform actions s ≡ some t)
    × (t.stopping ≡ false)
    × (t.loops ≡ [])

ends_empty : (s : State) → s.stopping ≡ true → s.loops ≡ [] → EndsWithin 1 s
ends_empty s waits left = (
  stop_ends ∷ [],
  record s { stopping = false },
  omega arith,
  (tt, tt),
  perform-next stop_ends [] s (record s { stopping = false }) (stop_ends_empty s waits left)
      ∙ unfold perform in refl,
  refl,
  left,
)

ends_weaker : (few many : ℕ) (s : State) → few ≤ many → EndsWithin few s → EndsWithin many s
ends_weaker few many s h (actions, t, short, all, done, free, left) =
    (actions, t, omega arith, all, done, free, left)

ends_after :
    (bound : ℕ) (action : Action) (s t : State)
    → IsEnding action
    → act action s ≡ some t
    → EndsWithin bound t
    → EndsWithin (suc bound) s
ends_after bound action s t ending step (actions, u, few, all, done, free, left) = (
  action ∷ actions,
  u,
  omega arith,
  (ending, all),
  perform-next action actions s t step ∙ done,
  free,
  left,
)

ends_waiting :
    (s : State) (l : Loop)
    → s.stopping ≡ true
    → l.place ≡ Place.waiting
    → s.loops ≡ l ∷ []
    → IsCancelled l
    → EndsWithin 2 s
ends_waiting s l waits place at cancelled =
    ends_after 1 (moves 0 leaves) s (record s { loops = [] }) tt
      (leave_waiting s l place at cancelled) (ends_empty (record s { loops = [] }) waits refl)

ends_from :
    (s : State) (l : Loop) (place : Place)
    → s.stopping ≡ true
    → l.place ≡ place
    → s.loops ≡ l ∷ []
    → IsCancelled l
    → EndsWithin 3 s
ends_from s l Place.waiting waits place at cancelled =
    ends_weaker 2 3 s (omega arith) (ends_waiting s l waits place at cancelled)
ends_from s l Place.reconciling waits place at cancelled =
    let l2 : Loop = record l { place = Place.waiting } in
    let s2 : State = record s { loops = l2 ∷ [] } in
    let returned : act (moves 0 returns) s ≡ some s2 =
      unfold act move_loop move_at in rw (at, place, move_at) refl in
    ends_after 2 (moves 0 returns) s s2 tt returned (ends_waiting s2 l2 waits refl refl cancelled)

ends_loops :
    (s : State) (ls : List Loop)
    → s.stopping ≡ true
    → s.loops ≡ ls
    → length ls ≤ 1
    → All IsCancelled ls
    → EndsWithin 3 s
ends_loops s [] waits at single all = ends_weaker 1 3 s (omega arith) (ends_empty s waits at)
ends_loops s (l ∷ m ∷ ls) waits at single all = absurd (omega arith)
ends_loops s (l ∷ []) waits at single all = ends_from s l l.place waits refl at all.0

-- A Stop that waits can always finish, by at most three actions and without that the original
-- context is cancelled: the reconciliation that runs returns, its loop receives the cancellation of
-- its own context, and the wait ends; no loop is left then.
pub Reach-stop_ends : (s : State) → Reach idle s → s.stopping ≡ true → EndsWithin 3 s
Reach-stop_ends s r waits =
    let (single, held, free) = Reach-IsSound s r in
    ends_loops s s.loops waits refl single (held waits)
