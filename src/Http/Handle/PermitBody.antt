-- ===== src/Http/Handle/PermitBody.antt =====
-- `PermitBody::poll_frame` of src/http.rs: what a poll leaves of the permit, and what it answers.
use rust_enrich.Common.{ℕ, Bool, true, false, Option, none, List}
use rust_enrich.Http.Handle.{Permit}

-- `Poll<Option<Result<Frame<Bytes>, Error>>>`: pending, or a frame, or the end, or an error
pub data Poll : Type 0 where
  pending done broken_off : Poll
  frame : List ℕ → Poll

-- `inner` is the answer of the inner body, which is polled only if the timer has not fired.
unfoldable pub poll_frame : Bool → Poll → Option Permit → Option Permit × Poll
poll_frame true inner permit = (none, done)
poll_frame false done permit = (none, done)
poll_frame false inner permit = (permit, inner)
