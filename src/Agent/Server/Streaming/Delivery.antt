-- ===== src/Agent/Server/Streaming/Delivery.antt =====
-- Logs: which lines reach the controller.
use supernetes.Prelude.{
  chosen, List, [], ◌∷◌, ◌++◌, Bool, true, false, not, ◌≡◌, refl, sym, ap, ◌∙◌, subst, Option, none,
  some, append-nil,
}
use supernetes.Agent.Server.Streaming.{
  Error, Outcome, running, stopped, send_failed, Streaming, Action, offers, sends, fails, tail_ends,
  receive_ends, stops, is_running, logs, offer, send, fail, end_tail, end_receive, stop_with, act,
  Reach, here, next,
}

-- whether a stop was seen or is to be seen
abbrev pub has_stop : Option (Option Error) → Bool
has_stop none = false
has_stop (some err) = true

abbrev pub is_stopped : Outcome → Bool
is_stopped running = false
is_stopped (stopped err) = true
is_stopped (send_failed err) = false

abbrev pub is_failed : Outcome → Bool
is_failed running = false
is_failed (stopped err) = false
is_failed (send_failed err) = true

running-failed : (o : Outcome) → is_running o ≡ true → is_failed o ≡ false
running-failed running y = refl
running-failed (stopped err) y = refl
running-failed (send_failed err) y = absurd (cc y)

module _ {L : Type 0} where
  abbrev pub waiting : Option L → List L
  waiting none = []
  waiting (some line) = line ∷ []

  -- The lines arrive in order and none is left out; and a stop comes from a goroutine that ended.
  abbrev pub IsOrdered : Streaming L → Type 0
  IsOrdered s =
      (is_failed s.outcome ≡ false → s.sent ++ waiting s.offered ≡ s.produced)
      × (s.tail_done ≡ true → s.offered ≡ none)
      × (has_stop s.stop ≡ true → s.receive_done ≡ false → s.tail_done ≡ true)
      × (is_stopped s.outcome ≡ true → s.receive_done ≡ false → s.tail_done ≡ true)

  offer-IsOrdered :
      (line : L) (o : Option L) (s : Streaming L) {t : Streaming L}
      → s.offered ≡ o
      → offer line o s ≡ some t
      → IsOrdered s
      → IsOrdered t
  unfolding offer
  offer-IsOrdered line (some w) s at e h = absurd (cc e)
  offer-IsOrdered line none s at e h =
      let (unended, same) = chosen (not s.tail_done) e in
      let before : is_failed s.outcome ≡ false → s.sent ≡ s.produced =
        λ f. sym (append-nil s.sent) ∙ ap (λ o. s.sent ++ waiting o) (sym at) ∙ h.0 f in
      subst IsOrdered same
        ((λ f. ap (λ xs. xs ++ line ∷ []) (before f)), (λ d. absurd cc), h.2, h.3)

  send-IsOrdered :
      (o : Option L) (s : Streaming L) {t : Streaming L}
      → s.offered ≡ o
      → send o s ≡ some t
      → IsOrdered s
      → IsOrdered t
  unfolding send
  send-IsOrdered none s at e h = absurd (cc e)
  send-IsOrdered (some line) s at e h =
      let (runs, same) = chosen (is_running s.outcome) e in
      subst IsOrdered same (
        (λ f. append-nil (s.sent ++ line ∷ []) ∙ ap (λ o. s.sent ++ waiting o) (sym at) ∙ h.0 f),
        (λ d. refl),
        h.2,
        h.3,
      )

  fail-IsOrdered :
      (err : Error) (o : Option L) (s : Streaming L) {t : Streaming L}
      → fail err o s ≡ some t
      → IsOrdered s
      → IsOrdered t
  unfolding fail
  fail-IsOrdered err none s e h = absurd (cc e)
  fail-IsOrdered err (some line) s e h =
      let (runs, same) = chosen (is_running s.outcome) e in
      subst IsOrdered same ((λ f. absurd (cc f)), (λ d. refl), h.2, (λ y. absurd (cc y)))

  end_tail-IsOrdered :
      (err : Option Error) (o : Option L) (s : Streaming L) {t : Streaming L}
      → s.offered ≡ o
      → end_tail err o s ≡ some t
      → IsOrdered s
      → IsOrdered t
  unfolding end_tail
  end_tail-IsOrdered err (some line) s at e h = absurd (cc e)
  end_tail-IsOrdered err none s at e h =
      let (unended, same) = chosen (not s.tail_done) e in
      subst IsOrdered same (h.0, (λ d. at), (λ y r. refl), (λ y r. refl))

  end_receive-IsOrdered :
      (err : Error) (s : Streaming L) {t : Streaming L}
      → end_receive err s ≡ some t
      → IsOrdered s
      → IsOrdered t
  unfolding end_receive
  end_receive-IsOrdered err s e h =
      let (unended, same) = chosen (not s.receive_done) e in
      subst IsOrdered same (h.0, h.1, (λ y r. absurd (cc r)), (λ y r. absurd (cc r)))

  stop-IsOrdered :
      (o : Option (Option Error)) (s : Streaming L) {t : Streaming L}
      → s.stop ≡ o
      → stop_with o s ≡ some t
      → IsOrdered s
      → IsOrdered t
  unfolding stop_with
  stop-IsOrdered none s at e h = absurd (cc e)
  stop-IsOrdered (some err) s at e h =
      let (runs, same) = chosen (is_running s.outcome) e in
      subst IsOrdered same (
        (λ f. h.0 (running-failed s.outcome runs)),
        h.1,
        (λ y. absurd (cc y)),
        (λ y r. h.2 (ap has_stop at) r),
      )

  act-IsOrdered :
      (action : Action L) (s : Streaming L) {t : Streaming L}
      → act action s ≡ some t
      → IsOrdered s
      → IsOrdered t
  unfolding act
  act-IsOrdered (offers line) s e h = offer-IsOrdered line s.offered s refl e h
  act-IsOrdered sends s e h = send-IsOrdered s.offered s refl e h
  act-IsOrdered (fails err) s e h = fail-IsOrdered err s.offered s e h
  act-IsOrdered (tail_ends err) s e h = end_tail-IsOrdered err s.offered s refl e h
  act-IsOrdered (receive_ends err) s e h = end_receive-IsOrdered err s e h
  act-IsOrdered stops s e h = stop-IsOrdered s.stop s refl e h

  Reach-IsOrdered : {s t : Streaming L} → Reach s t → IsOrdered s → IsOrdered t
  Reach-IsOrdered here h = h
  Reach-IsOrdered (next action {t = t} before e) h =
      act-IsOrdered action t e (Reach-IsOrdered before h)

  logs-IsOrdered : IsOrdered logs
  unfolding logs
  logs-IsOrdered = ((λ f. refl), (λ d. refl), (λ y. absurd (cc y)), (λ y. absurd (cc y)))

  -- However the goroutines interleave, while no send to the controller fails the lines that were
  -- sent are those that tailF put to its channel, in order, with at most the last one missing. And
  -- when Logs has been stopped while the controller still holds the stream open, tailF has ended
  -- and all of its lines were sent.
  pub Reach-delivered :
      (s : Streaming L)
      → Reach logs s
      → is_failed s.outcome ≡ false
      → (s.sent ++ waiting s.offered ≡ s.produced)
        × (is_stopped s.outcome ≡ true
            → s.receive_done ≡ false
            → (s.tail_done ≡ true) × (s.sent ≡ s.produced))
  Reach-delivered s reach f =
      let (complete, ended, _, from_stop) = Reach-IsOrdered reach logs-IsOrdered in
      (
        complete f,
        λ y r.
            let d = from_stop y r in
            (
              d,
              sym (append-nil s.sent) ∙ ap (λ o. s.sent ++ waiting o) (sym (ended d)) ∙ complete f,
            ),
      )

  -- the goroutine of tailF waits to hand over a line, and nobody will receive it
  abbrev pub IsAbandoned : L → Streaming L → Type 0
  IsAbandoned line s =
      (s.offered ≡ some line) × (is_running s.outcome ≡ false) × (s.tail_done ≡ false)

  stop_with-running :
      (o : Option (Option Error)) (s : Streaming L) {t : Streaming L}
      → stop_with o s ≡ some t
      → is_running s.outcome ≡ true
  unfolding stop_with
  stop_with-running none s e = absurd (cc e)
  stop_with-running (some err) s e = (chosen (is_running s.outcome) e).0

  act-IsAbandoned :
      (action : Action L) (line : L) (s : Streaming L) {t : Streaming L}
      → act action s ≡ some t
      → IsAbandoned line s
      → IsAbandoned line t
  unfolding act offer send fail end_tail end_receive
  act-IsAbandoned (offers l) line s e h = absurd (cc (ap (λ o. offer l o s) (sym h.0) ∙ e))
  act-IsAbandoned sends line s e h =
      let (runs, _) = chosen (is_running s.outcome) (ap (λ o. send o s) (sym h.0) ∙ e) in
      absurd (cc (runs, h.1))
  act-IsAbandoned (fails err) line s e h =
      let (runs, _) = chosen (is_running s.outcome) (ap (λ o. fail err o s) (sym h.0) ∙ e) in
      absurd (cc (runs, h.1))
  act-IsAbandoned (tail_ends err) line s e h =
      absurd (cc (ap (λ o. end_tail err o s) (sym h.0) ∙ e))
  act-IsAbandoned (receive_ends err) line s e h =
      subst (IsAbandoned line) (chosen (not s.receive_done) e).1 h
  act-IsAbandoned stops line s e h = absurd (cc (stop_with-running s.stop s e, h.1))

  -- Once Logs has returned while tailF waits to hand over a line, tailF waits forever: whatever
  -- happens next, it does not end.
  pub Reach-IsAbandoned :
      (line : L) (s t : Streaming L) → Reach s t → IsAbandoned line s → IsAbandoned line t
  Reach-IsAbandoned line s t here h = h
  Reach-IsAbandoned line s t (next action {t = u} before e) h =
      act-IsAbandoned action line u e (Reach-IsAbandoned line s u before h)
