-- ===== src/Receiver/Failed.antt =====
-- An engine whose Initialize fails after the control center has given it an id.
use multi_hardware.Base.{ℕ, ◌≡◌, true, false, ◌||◌, some, arith}
use multi_hardware.Base.Str.{Str}
use multi_hardware.Sender.Types.{success, init_failed}
use multi_hardware.Sender.Setup.{is_video_owner, is_audio_owner}
use multi_hardware.Receiver.Engine.{
  ReceiverEnv, new_receiver_engine, init_pipeline, init_control_center, initialize, release,
}

-- Every call of Initialize before the registration of the listener succeeds.
pub record IsMade (env : ReceiverEnv) (id : ℕ) : Type 0 where
  pub make_input : env.make_input ≡ true
  pub make_output : env.make_output ≡ true
  pub make_video_decoder : env.make_video_decoder ≡ true
  pub make_audio_decoder : env.make_audio_decoder ≡ true
  pub add_filters : env.add_filters ≡ true
  pub link_filters : env.link_filters ≡ true
  pub init_center : env.init_center ≡ some id
  pub make_callback : env.make_callback ≡ true
  pub register_callback : env.register_callback ≡ true

-- A new engine of a known owner gets an id from the control center, and then its listener cannot be
-- registered: Initialize fails. Release succeeds then and does nothing: the pipeline and the kit
-- that would give the id back are still there. If Initialize is called again and succeeds, the
-- engine has the id that the center gives then.
pub initialize-release_failed :
    (env again : ReceiverEnv) (id next : ℕ) (owner peer : Str)
    → is_video_owner owner || is_audio_owner owner ≡ true
    → IsMade env id
    → env.register_listener ≡ false
    → IsMade again next
    → again.register_listener ≡ true
    → let (e1, failed) = initialize env (new_receiver_engine owner peer) in
      let (e2, released) = release e1 in
      let (e3, made) = initialize again e2 in
      (failed ≡ init_failed)
      × (released ≡ success)
      × (e2.pipeline ≡ true)
      × (e2.dh_fwk_kit ≡ true)
      × (e2.engine_id ≡ id)
      × (made ≡ success)
      × (e3.engine_id ≡ next)
unfolding initialize release new_receiver_engine init_pipeline init_control_center
initialize-release_failed env again id next owner peer known m silent n listens =
    ground (arith, m, n)
