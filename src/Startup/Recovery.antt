-- ===== src/Startup/Recovery.antt =====
-- component_manager.cpp: a component whose process died is started again, and its hardware of the
-- devices that are online is enabled again.
use multi_hardware.Base.{
  ℕ, suc, ◌+◌, ◌≤◌, ◌≡◌, refl, sym, not, ◌&&◌, List, [], ◌∷◌, ◌++◌, none, arith, length, ◌==◌,
  nat_eq, is_empty, if◌then◌else◌, length-append, append_one, append_nil, Bool-cases, inl, inr,
}
use multi_hardware.Base.Str.{Str}
use multi_hardware.Context.Defs.{DhContext, uuid_by_device_id, network_id_by_uuid}
use multi_hardware.Capability.Info.{CapabilityInfo, MetaCapabilityInfo}
use multi_hardware.Task.Types.{Task, enable, TaskParam, System}
use multi_hardware.Task.Executor.{push_task, max_task_queue_length}
use multi_hardware.Task.Factory.{make_task, create_task, new_enable_task}
use multi_hardware.Task.Handlers.{Env}
use multi_hardware.Task.Flows.{create_and_push}
use multi_hardware.Startup.Defs.{Outside, Startup}
use multi_hardware.Startup.Lifecycle.{re_start_sa}

-- MetaInfoManager::GetMetaDataByDHType, over the values of the map.
unfoldable pub meta_data_by_dh_type : ℕ → List MetaCapabilityInfo → List MetaCapabilityInfo
meta_data_by_dh_type type [] = []
meta_data_by_dh_type type (info ∷ infos) =
    let rest = meta_data_by_dh_type type infos in
    if info.info.dh_type == type then info ∷ rest else rest

abbrev pub recover_param : CapabilityInfo → Str → Str → TaskParam
recover_param info uuid network_id = record {
  network_id = network_id;
  uuid = uuid;
  udid = [];
  dh_id = info.dh_id;
  dh_type = info.dh_type;
}

module _ (env : Env) where
  open env use {Store, random_id}

  abbrev pub recover_one : MetaCapabilityInfo → System Store → System Store
  recover_one info s =
      let uuid = uuid_by_device_id info.info.device_id s.context in
      let network_id = network_id_by_uuid uuid s.context in
      if is_empty uuid
      then s
      else if is_empty network_id
      then s
      else create_and_push env enable (recover_param info.info uuid network_id) none s

  unfoldable pub recover_all : List MetaCapabilityInfo → System Store → System Store
  recover_all [] s = s
  recover_all (info ∷ infos) s = recover_all infos (recover_one info s)

  unfoldable pub recover_distributed_hardware :
      ℕ → List MetaCapabilityInfo → System Store → System Store
  unfolding recover_all meta_data_by_dh_type
  recover_distributed_hardware type infos s = recover_all (meta_data_by_dh_type type infos) s

  unfoldable pub do_recover :
      Outside → ℕ → List MetaCapabilityInfo → Startup × System Store → Startup × System Store
  unfolding recover_distributed_hardware re_start_sa
  do_recover out type infos (startup, s) =
      (re_start_sa out type startup, recover_distributed_hardware type infos s)

-- What is to be enabled again: the hardware of a type whose device has a uuid and a network id.
abbrev pub online_params : ℕ → DhContext → List MetaCapabilityInfo → List TaskParam
online_params type c [] = []
online_params type c (info ∷ infos) =
    let uuid = uuid_by_device_id info.info.device_id c in
    let network_id = network_id_by_uuid uuid c in
    let rest = online_params type c infos in
    if (info.info.dh_type == type) && not (is_empty uuid) && not (is_empty network_id)
    then recover_param info.info uuid network_id ∷ rest
    else rest

-- The enable tasks of the parameters, from the n-th task that is made on, and their places.
abbrev pub enable_tasks : (ℕ → Str) → ℕ → List TaskParam → List Task
enable_tasks random_id n [] = []
enable_tasks random_id n (param ∷ params) =
    new_enable_task (random_id n) param ∷ enable_tasks random_id (suc n) params

abbrev pub places : ℕ → List TaskParam → List ℕ
places n [] = []
places n (param ∷ params) = n ∷ places (suc n) params

module _ (env : Env) where
  open env use {Store, random_id}

  created :
      (param : TaskParam) (s : System Store)
      → length s.task_queue ≤ max_task_queue_length
      → let s' = create_and_push env enable param none s in
        let n = length s.heap in
        (s'.heap ≡ s.heap ++ new_enable_task (random_id n) param ∷ [])
        × (s'.task_queue ≡ s.task_queue ++ n ∷ [])
        × (s'.context ≡ s.context)
  unfolding create_and_push create_task make_task push_task
  created param s h = ground arith

  -- A component of a type is recovered, where the queue has room: for every meta information of
  -- that type whose device is online there is one enable task more, in their order, with the
  -- identifiers of the device and of the hardware, and all are on the queue; there is no other task.
  pub recover_distributed_hardware-tasks :
      (type : ℕ) (infos : List MetaCapabilityInfo) (s : System Store)
      → let params = online_params type s.context infos in
        length s.task_queue + length params ≤ max_task_queue_length + 1
        → let s' = recover_distributed_hardware env type infos s in
          (s'.heap ≡ s.heap ++ enable_tasks random_id (length s.heap) params)
          × (s'.task_queue ≡ s.task_queue ++ places (length s.heap) params)
          × (s'.context ≡ s.context)
  unfolding recover_distributed_hardware recover_all meta_data_by_dh_type
  recover_distributed_hardware-tasks type [] s h =
      (sym (append_nil s.heap), sym (append_nil s.task_queue), refl)
  recover_distributed_hardware-tasks type (info ∷ infos) s h =
      let uuid = uuid_by_device_id info.info.device_id s.context in
      let network_id = network_id_by_uuid uuid s.context in
      let param = recover_param info.info uuid network_id in
      let s1 = create_and_push env enable param none s in
      let n = length s.heap in
      elim (Bool-cases
        ((info.info.dh_type == type) && not (is_empty uuid) && not (is_empty network_id))) [
          | inr skipped ↦ ground (arith, recover_distributed_hardware-tasks type infos s)
          | inl online ↦
              let (heap1, queue1, context1) = created param s (ground arith) in
              ground (
                arith,
                heap1,
                queue1,
                context1,
                recover_distributed_hardware-tasks type infos s1,
                length-append s.heap (new_enable_task (random_id n) param ∷ []),
                length-append s.task_queue (n ∷ []),
                append_one s.heap
                    (enable_tasks random_id (suc n) (online_params type s.context infos))
                    (new_enable_task (random_id n) param),
                append_one s.task_queue (places (suc n) (online_params type s.context infos)) n,
              )
        ]
