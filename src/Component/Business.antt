-- ===== src/Component/Business.antt =====
-- The business states and the tasks that wait until a device is idle.
use multi_hardware.Base.{◌≡◌, true, false, none, some, arith, if◌then◌else◌}
use multi_hardware.Base.Map.{insert, lookup-insert, lookup-erase}
use multi_hardware.Base.Str.{Str, str_eq}
use multi_hardware.Constants.{is_id_length_valid}
use multi_hardware.Task.Types.{TaskParam}
use multi_hardware.Component.Manager.{
  BusinessState, ComponentManager, PairKey, pair_eq, pair_beq, pair_beq_iff, save_need_refresh_task,
  fetch_need_refresh_task, is_idle, update_business_state, query_business_state, idle,
}

fetch_need_refresh_task-states :
    (key : PairKey) (m : ComponentManager)
    → (fetch_need_refresh_task key m).0.dh_biz_states ≡ m.dh_biz_states
unfolding fetch_need_refresh_task
fetch_need_refresh_task-states key m = ground arith

-- After UpdateBusinessState with identifiers of a valid length, QueryBusinessState gives the new
-- state for this pair of identifiers and what it gave before for every other pair.
pub query_business_state-update_business_state :
    (network_id dh_id uuid dh_id' : Str) (state : BusinessState) (m : ComponentManager)
    → is_id_length_valid network_id ≡ true
    → is_id_length_valid dh_id ≡ true
    → query_business_state uuid dh_id' (update_business_state network_id dh_id state m).0 ≡ (
        if pair_beq (network_id, dh_id) (uuid, dh_id')
        then state
        else query_business_state uuid dh_id' m)
unfolding query_business_state update_business_state
query_business_state-update_business_state network_id dh_id uuid dh_id' state m a b =
    let m' : ComponentManager = record m {
      dh_biz_states = insert (network_id, dh_id) state m.dh_biz_states;
    } in
    ground (
      arith,
      pair_beq_iff (network_id, dh_id) (uuid, dh_id'),
      lookup-insert (network_id, dh_id) (uuid, dh_id') state m.dh_biz_states,
      fetch_need_refresh_task-states (network_id, dh_id) m',
    )

-- A task's parameters are saved for a device with ids of a valid length, and the device's state is
-- updated three times: to a state other than idle, which starts nothing; to idle, which hands on
-- the parameters saved; and to any state, which starts nothing again.
pub update_business_state-once :
    (p : TaskParam) (first second : BusinessState) (m : ComponentManager)
    → is_id_length_valid p.network_id ≡ true
    → is_id_length_valid p.dh_id ≡ true
    → is_idle first ≡ false
    → let saved = save_need_refresh_task p m in
      let started = update_business_state p.network_id p.dh_id first saved in
      let ended = update_business_state p.network_id p.dh_id idle started.0 in
      let again = update_business_state p.network_id p.dh_id second ended.0 in
      (started.1 ≡ none) × (ended.1 ≡ some p) × (again.1 ≡ none)
unfolding update_business_state fetch_need_refresh_task save_need_refresh_task
update_business_state-once p first second m a b f =
    let key : PairKey = (p.network_id, p.dh_id) in
    ground (
      arith,
      lookup-insert key key p m.need_refresh_task_params,
      lookup-erase key key (insert key p m.need_refresh_task_params),
      pair_beq_iff key key,
    )
