-- ===== src/Sender/Released.antt =====
-- A released engine, and when frames are accepted.
use multi_hardware.Base.{◌≡◌, refl, Bool, false, Option, List, [], ◌∷◌, arith}
use multi_hardware.Base.Str.{Str}
use multi_hardware.Base.Ints.{ℤ}
use multi_hardware.AvCenter.Events.{EventType}
use multi_hardware.Sender.Types.{
  start_failed, stop_failed, push_data_failed, SenderEngine, SenderEnv,
}
use multi_hardware.Sender.Setup.{create_control_channel, release}
use multi_hardware.Sender.Engine.{
  is_running, start, stop, push_data, prepare_pipeline, register_sender_callback, on_channel_event,
}
use multi_hardware.Sender.Parameters.{AvTransTag, set_parameter}

-- The calls on an engine, but for Initialize, each with what its own calls return.
pub data Call : Type 0 where
  create_it : SenderEnv → List Str → Call
  start_it stop_it push_it : SenderEnv → Call
  set_it : SenderEnv → (Str → Option ℤ) → AvTransTag → Str → Call
  release_it : Call
  register_it : Bool → Call
  channel_event : EventType → Call

-- The engine after a call; an event has no result, and gives `none`.
unfoldable pub call : Call → SenderEngine → SenderEngine
call (create_it env peers) e = (create_control_channel env peers e).0
call (start_it env) e = (start env e).0
call (stop_it env) e = (stop env e).0
call (push_it env) e = (push_data env e).0
call (set_it env stoi tag value) e = (set_parameter stoi env tag value e).0
call release_it e = (release e).0
call (register_it given) e = (register_sender_callback given e).0
call (channel_event type) e = on_channel_event type e

unfoldable pub calls : List Call → SenderEngine → SenderEngine
unfolding call
calls [] e = e
calls (x ∷ xs) e = calls xs (call x e)

-- An engine without a pipeline and without filters, that does not run.
record IsOff (e : SenderEngine) : Type 0 where
  pipeline : e.pipeline ≡ false
  av_input : e.av_input ≡ false
  running : is_running e.current_state ≡ false

call-IsOff : (x : Call) (e : SenderEngine) → IsOff e → IsOff (call x e)
unfolding call create_control_channel start stop push_data set_parameter release
    register_sender_callback on_channel_event prepare_pipeline
call-IsOff (create_it env []) e h = h
call-IsOff (create_it env (peer ∷ peers)) e h = ground (arith, h)
call-IsOff (start_it env) e h = ground (arith, h)
call-IsOff (stop_it env) e h = ground (arith, h)
call-IsOff (push_it env) e h = ground (arith, h)
call-IsOff (set_it env stoi tag value) e h = ground (arith, h)
call-IsOff release_it e h = record { pipeline = refl; av_input = refl; running = refl }
call-IsOff (register_it given) e h = ground (arith, h)
call-IsOff (channel_event type) e h = ground (arith, h)

calls-IsOff : (xs : List Call) (e : SenderEngine) → IsOff e → IsOff (calls xs e)
unfolding calls
calls-IsOff [] e h = h
calls-IsOff (x ∷ xs) e h = calls-IsOff xs (call x e) (call-IsOff x e h)

-- After an engine is released, and until it is initialised again, it neither starts nor stops nor
-- accepts a frame, whatever calls and events come in between, also where the channel is created and
-- opened again.
pub calls-release :
    (xs : List Call) (env : SenderEnv) (e : SenderEngine)
    → let e' = calls xs (release e).0 in
      ((start env e').1 ≡ start_failed)
      × ((stop env e').1 ≡ stop_failed)
      × ((push_data env e').1 ≡ push_data_failed)
unfolding start stop push_data release
calls-release xs env e =
    let off =
      calls-IsOff xs (release e).0 (record { pipeline = refl; av_input = refl; running = refl }) in
    ground (arith, off)
