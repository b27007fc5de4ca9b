-- ===== src/Config/Validation.antt =====
-- What a configuration that `validate_config` accepts has.
use mymuxer.Base.{ℕ, ◌≡◌, refl, arith, List, [], ◌∷◌, All, true, none, ◌↔◌}
use mymuxer.Config.{
  Config, Stream, Output, is_task_type_allowed, validate_outputs, validate_streams, validate_config,
}

abbrev pub OutputAllowed : Output → Type 0
OutputAllowed o = is_task_type_allowed o.task_type ≡ true

pub record StreamAllowed (s : Stream) : Type 0 where
  pub remote : is_task_type_allowed s.task_type ≡ true
  pub outputs : All OutputAllowed s.outputs

outputs_sound :
    (stream : ℕ) (os : List Output) → validate_outputs stream os ≡ none → All OutputAllowed os
unfolding validate_outputs
outputs_sound stream [] h = tt
outputs_sound stream (o ∷ os) h = ground (arith, outputs_sound stream os)

outputs_complete :
    (stream : ℕ) (os : List Output) → All OutputAllowed os → validate_outputs stream os ≡ none
unfolding validate_outputs
outputs_complete stream [] h = refl
outputs_complete stream (o ∷ os) h = ground (arith, outputs_complete stream os h.1)

streams_sound : (ss : List Stream) → validate_streams ss ≡ none → All StreamAllowed ss
unfolding validate_streams
streams_sound [] h = tt
streams_sound (s ∷ ss) h = ground (arith, streams_sound ss, outputs_sound s.id s.outputs)

streams_complete : (ss : List Stream) → All StreamAllowed ss → validate_streams ss ≡ none
unfolding validate_streams
streams_complete [] h = refl
streams_complete (s ∷ ss) h =
    rw (h.0.remote, outputs_complete s.id s.outputs h.0.outputs) (streams_complete ss h.1)

-- A configuration is accepted exactly if the task types of all its streams and of all their
-- outputs are allowed ones.
pub validate_config-AllAllowed :
    (c : Config) → (validate_config c ≡ none) ↔ All StreamAllowed c.streams
unfolding validate_config
validate_config-AllAllowed c = (streams_sound c.streams, streams_complete c.streams)
