-- ===== src/Sender/Shared.antt =====
-- Two engines that send to one device, over one control center.
use multi_hardware.Base.{◌≡◌, true, false, some, none, arith, nat_eq, nat_beq_iff}
use multi_hardware.Base.Map.{lookup, lookup-emplace, has}
use multi_hardware.Base.Str.{str_eq}
use multi_hardware.AvCenter.Center
use multi_hardware.AvCenter.Center.{ControlCenter, Softbus, is_invalid_engine_id, is_connected}
use multi_hardware.Sender.Types.{
  create_channel_failed, push_data_failed, ch_created, SenderEngine, SenderEnv,
}
use multi_hardware.Sender.Engine.{start, push_data}

-- The control center that the engine calls is connected with its device already, as it is where
-- another engine sends to this device; the engine's id is valid and has no device yet. Then the
-- engine, with its channel created and a pipeline that starts, reports that the channel could not
-- be created and does not come to the state STARTED, so it accepts no frame; but its pipeline runs
-- from then on, and the center has taken it in as a user of the channel.
pub start-create_control_channel :
    (env : SenderEnv) (e : SenderEngine) (bus : Softbus) (c : ControlCenter)
    → let (c', ret) = Center.create_control_channel bus e.engine_id e.peer_dev_id c in
      env.create_control_channel e.engine_id e.peer_dev_id ≡ ret
      → is_invalid_engine_id e.engine_id c ≡ false
      → c.initialized ≡ true
      → is_connected e.peer_dev_id c.connected_dev_ids ≡ true
      → lookup e.engine_id c.engine_2_dev_id_map ≡ none
      → e.current_state ≡ ch_created
      → e.pipeline ≡ true
      → e.dh_fwk_kit ≡ true
      → env.start_pipeline ≡ true
      → (start env e ≡ (record e { pipeline_runs = true }, create_channel_failed))
        × ((push_data env (start env e).0).1 ≡ push_data_failed)
        × (lookup e.engine_id
              (Center.create_control_channel bus e.engine_id e.peer_dev_id c).0.engine_2_dev_id_map
            ≡ some e.peer_dev_id)
unfolding start push_data Center.create_control_channel has
start-create_control_channel env e bus c passed valid ready connected new created piped kit starts =
    ground (
      arith,
      nat_beq_iff e.engine_id e.engine_id,
      lookup-emplace e.engine_id e.engine_id e.peer_dev_id c.engine_2_dev_id_map,
    )
