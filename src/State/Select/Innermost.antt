-- ===== src/State/Select/Innermost.antt =====
-- Which state's answer `select_handler` of format1/runtime.rs returns.
use determa_state_rust.Prelude.{
  ℕ, String, Bool, Option, some, ◌≡◌, ◌⊎◌, inl, inr, [], Every, sym, ap,
}
use determa_state_rust.State.Paths.{StatePath}
use determa_state_rust.State.Machine.{Guard, RuntimeState}
use determa_state_rust.State.Outcome.{ok}
use determa_state_rust.State.Config.{candidates}
use determa_state_rust.State.Search.{scan}
use determa_state_rust.State.Search.Innermost.{NothingUp, IsFirstOf, bind-ok, scan_cases}
use determa_state_rust.State.Select.{
  HandlerSelection, unhandled, decide_at, or_unhandled, select_handler,
}

-- Inner states come first: either no state from a candidate up to the root handles or defers the event, and
-- it is unhandled; or the selection is what one state decides, a state at or above a candidate such that
-- every state between them decides nothing, and the candidates before that one decide nothing up to the
-- root. So an inner state that defers keeps an outer one from handling, and the other way round.
pub select_handler-IsFirstOf :
    {J : Type 0} (ask : StatePath → Guard J → Option Bool) (fuel : ℕ) (rt : RuntimeState J)
    (event : String) (selection : HandlerSelection J)
    → select_handler ask fuel rt event ≡ ok selection
    → ((selection ≡ unhandled)
        × Every
            (λ leaf. NothingUp rt.definition (decide_at ask rt event) (some leaf))
            (candidates rt))
      ⊎ ((p : StatePath) × IsFirstOf rt.definition
            (decide_at ask rt event)
            selection
            (candidates rt)
            p)
unfolding select_handler
select_handler-IsFirstOf ask fuel rt event selection h =
    let (c, found, same) =
      bind-ok (scan rt.definition (decide_at ask rt event) fuel [] (candidates rt)) _ selection h in
    elim (scan_cases rt.definition (decide_at ask rt event) fuel (candidates rt) c found) [
      | inl (no_c, none_up) ↦
          let is_unhandled : or_unhandled c ≡ unhandled = ap or_unhandled no_c in inl (cc, none_up)
      | inr (d, p, some_c, first) ↦
          let is_d : or_unhandled c ≡ d = ap or_unhandled some_c in
          let same' : d ≡ selection = cc in inr (p, rw (sym same') first)
    ]
