-- ===== src/Sender/Pushes.antt =====
-- Frames that are sent one after the other.
use multi_hardware.Base.{
  ℕ, zero, suc, ◌≡◌, refl, Bool, true, false, [], ◌++◌, append_nil, ap, ◌∙◌, Option, none, some,
  arith,
}
use multi_hardware.Base.Str.{Str}
use multi_hardware.AvCenter.Events.{event_add_stream, event_remove_stream}
use multi_hardware.Sender.Types.{
  StateId, SenderEngine, SenderEnv, success, started, playing, stopped,
}
use multi_hardware.Sender.Engine.{
  Notes, push_data, notify_stream_change, note_scene, scene_of, stop,
}

module _ (env : SenderEnv) where
  -- `n` calls of PushData, with the events that they send.
  unfoldable pub pushes : ℕ → SenderEngine → SenderEngine × Notes
  pushes zero e = (e, [])
  pushes (suc n) e =
      let (e1, _, notes) = push_data env e in let (e2, rest) = pushes n e1 in (e2, notes ++ rest)

  push-playing :
      (e : SenderEngine)
      → e.av_input ≡ true
      → env.to_his_buffer ≡ true
      → env.push_input ≡ true
      → e.current_state ≡ playing
      → push_data env e ≡ (e, success, [])
  unfolding push_data
  push-playing e i b p s = ground arith

  push-started :
      (e : SenderEngine)
      → e.av_input ≡ true
      → env.to_his_buffer ≡ true
      → env.push_input ≡ true
      → e.current_state ≡ started
      → push_data env e ≡ (
        record e { current_state = playing },
        success,
        notify_stream_change env event_add_stream e,
      )
  unfolding push_data
  push-started e i b p s = rw (s, i, b, p) refl

  pushes-playing :
      (n : ℕ) (e : SenderEngine)
      → e.av_input ≡ true
      → env.to_his_buffer ≡ true
      → env.push_input ≡ true
      → e.current_state ≡ playing
      → pushes n e ≡ (e, [])
  unfolding pushes push_data
  pushes-playing zero e i b p s = refl
  pushes-playing (suc n) e i b p s = rw (push-playing e i b p s) (pushes-playing n e i b p s)

  same_scene :
      (e : SenderEngine) (st : StateId) (runs : Bool) (scene : Option Str)
      → note_scene env event_remove_stream scene
          (record e { current_state = st; pipeline_runs = runs })
        ≡ note_scene env event_remove_stream scene e
  same_scene e st runs none = refl
  same_scene e st runs (some scene) = refl

  same_note :
      (e : SenderEngine) (st : StateId) (runs : Bool)
      → notify_stream_change env event_remove_stream
          (record e { current_state = st; pipeline_runs = runs })
        ≡ notify_stream_change env event_remove_stream e
  unfolding notify_stream_change scene_of
  same_note e st runs = same_scene e st runs (scene_of env e)

  stop_it :
      (e : SenderEngine)
      → e.pipeline ≡ true
      → env.stop_pipeline ≡ true
      → stop env e ≡ (
        record e { current_state = stopped; pipeline_runs = false },
        success,
        notify_stream_change env event_remove_stream
            (record e { current_state = stopped; pipeline_runs = false }),
      )
  unfolding stop
  stop_it e l q = ground arith

  -- A started engine whose frames are all accepted tells the control center of its stream with the
  -- first frame, and never again, however many frames follow; it plays, and stopping it tells the
  -- center once that the same stream is gone.
  pub stop-pushes :
      (n : ℕ) (e : SenderEngine)
      → e.current_state ≡ started
      → e.av_input ≡ true
      → e.pipeline ≡ true
      → env.to_his_buffer ≡ true
      → env.push_input ≡ true
      → env.stop_pipeline ≡ true
      → let (e1, notes) = pushes (suc n) e in
        let (e2, _, gone) = stop env e1 in
        (e1.current_state ≡ playing)
        × (notes ≡ notify_stream_change env event_add_stream e)
        × (e2.current_state ≡ stopped)
        × (gone ≡ notify_stream_change env event_remove_stream e)
  unfolding pushes
  stop-pushes n e s i l b p q =
      let plays : SenderEngine = record e { current_state = playing } in
      let first = push-started e i b p s in
      let rest = pushes-playing n plays i b p refl in
      let ends = stop_it plays l q in
      rw (first, rest)
        (
          refl,
          append_nil (notify_stream_change env event_add_stream e),
          ap (λ x. x.0.current_state) ends,
          ap (λ x. x.2) ends
              ∙ (same_note plays stopped false ∙ same_note e playing e.pipeline_runs),
        )
