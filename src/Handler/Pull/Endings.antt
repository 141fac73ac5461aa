-- ===== src/Handler/Pull/Endings.antt =====
-- How a pull session ends.
use camera_ui_rpc.Base.{
  ℕ, suc, ◌≡◌, refl, sym, ◌∙◌, true, false, Option, none, some, [], ◌∷◌, arith,
}
use mathlib.Core.List.{append-nil}
use camera_ui_rpc.Handler.Generators.{
  Raised, Closing, no_aclose, closes, close_raises, format_error_dict,
}
use camera_ui_rpc.Handler.Pull.{
  done_response, error_response, Session, finish, sent_with, fail_session, or_fail, end_session,
  cancel_session,
}
use camera_ui_rpc.Handler.Pull.Progress.{Ended}

module _ (publish : ℕ → Option Raised) where
  pub fail_session-Ended :
      (e : Raised) (s : Session) → s.finished ≡ false → Ended s (fail_session publish e s)
  unfolding fail_session finish
  fail_session-Ended e s open_yet = failing (publish s.publishings)
    where
      failing :
          (o : Option Raised)
          → Ended s (
              finish (
                sent_with
                  (record s { active = false; produced = [] })
                  (error_response (format_error_dict e))
                  o))
      failing none = rw open_yet (record {
        tail = error_response (format_error_dict e) ∷ [];
        ends = tt;
        responses = refl;
        inactive = refl;
        closed = refl;
        owner_told = omega arith;
      })
      failing (some x) = rw open_yet (record {
        tail = [];
        ends = tt;
        responses = sym (append-nil s.sent);
        inactive = refl;
        closed = refl;
        owner_told = omega arith;
      })

  -- An exception behind `finish` is reported, and ends nothing twice.
  fail_finished :
      (e : Raised) (s t : Session)
      → t.finished ≡ true
      → t.sent ≡ s.sent
      → t.finished_calls ≡ suc s.finished_calls
      → Ended s (fail_session publish e t)
  unfolding fail_session finish
  fail_finished e s t over same told = reporting (publish t.publishings)
    where
      reporting :
          (o : Option Raised)
          → Ended s (
              finish (
                sent_with
                  (record t { active = false; produced = [] })
                  (error_response (format_error_dict e))
                  o))
      reporting none = rw over (record {
        tail = error_response (format_error_dict e) ∷ [];
        ends = tt;
        responses = rw same refl;
        inactive = refl;
        closed = refl;
        owner_told = omega (arith, told);
      })
      reporting (some x) = rw over (record {
        tail = [];
        ends = tt;
        responses = same ∙ sym (append-nil s.sent);
        inactive = refl;
        closed = refl;
        owner_told = omega (arith, told);
      })

  finish_open :
      (u : Session)
      → u.finished ≡ false
      → ((finish u).finished ≡ true)
        × ((finish u).sent ≡ u.sent)
        × ((finish u).finished_calls ≡ suc u.finished_calls)
  unfolding finish
  finish_open u h = rw h (refl, refl, refl)

  pub end_session-Ended : (s : Session) → s.finished ≡ false → Ended s (end_session publish s)
  unfolding end_session
  end_session-Ended s open_yet = ending (publish s.publishings)
    where
      ending :
          (o : Option Raised)
          → Ended s (
              or_fail publish o
                (finish (sent_with (record s { active = false; produced = [] }) done_response o)))
      ending none =
          unfold finish in
          rw open_yet (record {
            tail = done_response ∷ [];
            ends = tt;
            responses = refl;
            inactive = refl;
            closed = refl;
            owner_told = omega arith;
          })
      ending (some e) =
          let u = sent_with (record s { active = false; produced = [] }) done_response (some e) in
          let after = finish_open u open_yet in fail_finished e s (finish u) after.0 after.1 after.2

  pub cancel_session-Ended :
      (c : Closing) (s : Session) → s.finished ≡ false → Ended s (cancel_session publish c s)
  cancel_session-Ended no_aclose s h = end_session-Ended s h
  cancel_session-Ended closes s h = end_session-Ended s h
  cancel_session-Ended (close_raises e) s h = fail_session-Ended e s h
