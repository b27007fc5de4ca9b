-- ===== src/Mux/Input/Chunks.antt =====
-- The input side stays fit from the first chunk on.
use mymuxer.Base.{
  ℕ, ◌≡◌, arith, List, [], ◌∷◌, some, All, Outcome, ret, ◌>>=◌, Outcome-cases, Ends, runs, stops,
  Ends-map, Ends-runs, Ends-stops, inl, inr,
}
use mathlib.Core.Path.{subst}
use mymuxer.Packet.{IsByte}
use mymuxer.Mux.Handler.{Program, get_program}
use mymuxer.Mux.Input.{clamp_jitter, zeros_for, Output, new, new_handler, Env, InputHandler}
use mymuxer.Mux.Input.Receive.{write}
use mymuxer.Mux.Buffer
use mymuxer.Mux.Buffer.Counts.{new-IsCounted}
use mymuxer.Mux.Input.Fit.{BufferFit, IsFit}
use mymuxer.Mux.Input.Stops.{Stopped, Begins, write-Ends}
use mymuxer.Mux.Input.Safe.{IsCipher}

-- A chunk whose packets stop the code, the chunks before it being handled.
pub data StopsAt (env : Env) : InputHandler → List (List ℕ) → Type 0 where
  here :
      {h h1 : InputHandler} {chunk : List ℕ} {chunks : List (List ℕ)}
      → Begins h chunk h1
      → Stopped env h1 h1.in_buff
      → StopsAt env h (chunk ∷ chunks)
  later :
      {h h' : InputHandler} {chunk : List ℕ} {chunks : List (List ℕ)}
      → write env h chunk ≡ ret h'
      → StopsAt env h' chunks
      → StopsAt env h (chunk ∷ chunks)

-- A handler made for one program.
new_handler-IsFit :
    (o : Output) (p : Program) (duration jitter adjust : ℕ) (cc_errors : List (ℕ × ℕ))
    → o.output_programs ≡ p ∷ []
    → IsFit (new_handler o duration jitter adjust cc_errors)
unfolding new_handler get_program Buffer.new
new_handler-IsFit o p duration jitter adjust cc e = record {
  out_fit = record { audio = fresh; video = fresh; program = p; first_program = rw e };
  remembered = tt;
  received = tt;
}
  where
    fresh : BufferFit Buffer.new
    fresh = record { whole = tt; stamped = tt; counted = (new-IsCounted Buffer.new).0 }

-- The chunks of a source, one after the other.
unfoldable pub write_all : Env → InputHandler → List (List ℕ) → Outcome InputHandler
write_all env h [] = ret h
write_all env h (chunk ∷ chunks) = do h' ← write env h chunk; write_all env h' chunks

write_all-Ends :
    (env : Env) (h : InputHandler) (chunks : List (List ℕ))
    → IsCipher env.decrypt
    → IsFit h
    → All (All IsByte) chunks
    → Ends IsFit (StopsAt env h chunks) (write_all env h chunks)
unfolding write_all
write_all-Ends env h [] c f b = runs f
write_all-Ends env h (chunk ∷ chunks) c f b =
    let one : Ends IsFit (StopsAt env h (chunk ∷ chunks)) (write env h chunk) =
      write-Ends env c h chunk f (b.0) λ h1 g s. here g s in
    elim (Outcome-cases (write env h chunk)) [
      | inl e ↦ rw e (stops (Ends-stops e one))
      | inr (h', e) ↦
          rw e (Ends-map (write_all-Ends env h' chunks c (Ends-runs e one) (b.1)) λ s. later e s)
    ]

-- From a handler that `new` makes for one program, any chunks of bytes are handled, and leave a fit
-- handler, or stop the code in one of two places, if the cipher maps bytes to as many bytes: at a
-- packet of the PAT, of the program's PMT or of the SDT, among the bytes received and behind
-- packets that were handled, or as the table of services is made at the end of a chunk. In a fit
-- handler both buffers hold whole packets of 188 bytes with time stamps below 2 ^ 33, their counts
-- of frames and clocks are exact, and the bytes kept for the next chunk are bytes.
pub write_all-IsFit :
    (env : Env) (o : Output) (p : Program) (h : InputHandler) (chunks : List (List ℕ))
    → IsCipher env.decrypt
    → o.output_programs ≡ p ∷ []
    → new o ≡ some h
    → All (All IsByte) chunks
    → Ends IsFit (StopsAt env h chunks) (write_all env h chunks)
unfolding new
write_all-IsFit env o p h chunks c e n b =
    let made : InputHandler =
      new_handler o p.buffer_duration (clamp_jitter p.jitter) p.adjust_buf
        (zeros_for p.video_pids (zeros_for p.audio_pids [])) in
    let r : new o ≡ some made = ground arith in
    let same : made ≡ h = cc in
    write_all-Ends env h chunks c (subst IsFit same (new_handler-IsFit o p _ _ _ _ e)) b
