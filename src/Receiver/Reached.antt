-- ===== src/Receiver/Reached.antt =====
-- What holds of an engine whatever is called on it.
use multi_hardware.Base.{◌≡◌, refl, Bool, true, not, ◌||◌, Option, List, [], ◌∷◌, arith}
use multi_hardware.Base.Str.{Str}
use multi_hardware.Base.Ints.{ℤ}
use multi_hardware.AvCenter.Events.{EventType}
use multi_hardware.Sender.Engine.{is_running}
use multi_hardware.Sender.Parameters.{AvTransTag}
use multi_hardware.Receiver.Engine.{
  ReceiverEngine, ReceiverEnv, new_receiver_engine, init_pipeline, init_control_center, initialize,
  create_control_channel, prepare_pipeline, start, stop, handle_output_buffer, release,
  register_receiver_callback, on_channel_event,
}
use multi_hardware.Receiver.Parameters.{set_parameter}

-- The calls on an engine, each with what its own calls return.
pub data Call : Type 0 where
  initialize_it start_it stop_it output_it : ReceiverEnv → Call
  create_it : ReceiverEnv → List Str → Call
  set_it : ReceiverEnv → (Str → Option ℤ) → AvTransTag → Str → Call
  release_it : Call
  register_it : Bool → Call
  channel_event : EventType → Call

unfoldable pub call : Call → ReceiverEngine → ReceiverEngine
call (initialize_it env) e = (initialize env e).0
call (start_it env) e = (start env e).0
call (stop_it env) e = (stop env e).0
call (output_it env) e = (handle_output_buffer env e).0
call (create_it env peers) e = (create_control_channel env peers e).0
call (set_it env stoi tag value) e = (set_parameter stoi env tag value e).0
call release_it e = (release e).0
call (register_it given) e = (register_receiver_callback given e).0
call (channel_event type) e = on_channel_event type e

unfoldable pub calls : List Call → ReceiverEngine → ReceiverEngine
unfolding call
calls [] e = e
calls (x ∷ xs) e = calls xs (call x e)

-- An engine that is started or plays has a pipeline.
abbrev pub is_fed : ReceiverEngine → Bool
is_fed e = not (is_running e.current_state) || e.pipeline

call-is_fed : (x : Call) (e : ReceiverEngine) → is_fed e ≡ true → is_fed (call x e) ≡ true
unfolding call initialize init_pipeline init_control_center create_control_channel start stop
    handle_output_buffer set_parameter release register_receiver_callback on_channel_event
    prepare_pipeline
call-is_fed (initialize_it env) e h = ground arith
call-is_fed (start_it env) e h = ground arith
call-is_fed (stop_it env) e h = ground arith
call-is_fed (output_it env) e h = ground arith
call-is_fed (create_it env []) e h = h
call-is_fed (create_it env (peer ∷ peers)) e h = ground arith
call-is_fed (set_it env stoi tag value) e h = ground arith
call-is_fed release_it e h = ground arith
call-is_fed (register_it given) e h = ground arith
call-is_fed (channel_event type) e h = ground arith

calls-kept : (xs : List Call) (e : ReceiverEngine) → is_fed e ≡ true → is_fed (calls xs e) ≡ true
unfolding calls
calls-kept [] e h = h
calls-kept (x ∷ xs) e h = calls-kept xs (call x e) (call-is_fed x e h)

-- Whatever is called on a new engine and in whatever order, initialising, preparing, channel events
-- and releasing included, and whatever fails: if it is started or plays then it has a pipeline.
pub calls-is_fed :
    (xs : List Call) (owner peer : Str) → is_fed (calls xs (new_receiver_engine owner peer)) ≡ true
unfolding new_receiver_engine
calls-is_fed xs owner peer = calls-kept xs (new_receiver_engine owner peer) refl
