-- ===== src/Startup/Lifecycle.antt =====
-- component_manager.cpp: Init and UnInit, the restart of one component and the request for all
-- capabilities of a device.
use multi_hardware.Base.{
  ℕ, Bool, true, false, not, ◌||◌, List, [], ◌∷◌, Option, none, some, map, nat_eq, if◌then◌else◌,
}
use multi_hardware.Base.Map.{lookup}
use multi_hardware.Base.Str.{Str}
use multi_hardware.Constants.{Errno, success, is_id_length_valid}
use multi_hardware.Constants.DhType.{camera, audio}
use multi_hardware.Startup.Defs.{
  init_source, init_sink, register_state_listener, unregister_state_listener,
  register_trigger_listener, unregister_trigger_listener, stop_privace_page, init_comm_tool,
  un_init_comm_tool, register_low_latency, unregister_low_latency, close_low_latency, force_exit,
  Outside, Startup, present, emit, init_comp_source, init_comp_sink, init_sa_monitor,
  un_init_sa_monitor, start_source, register_privacy, start_sink, stop_source, stop_sink,
  wait_for_result,
}

unfoldable pub register_dh_state_listener : Startup → Startup
register_dh_state_listener s =
    emit (map (λ type. register_state_listener type) (present s.comp_source)) s

unfoldable pub unregister_dh_state_listener : Startup → Startup
unregister_dh_state_listener s =
    emit (map (λ type. unregister_state_listener type) (present s.comp_source)) s

unfoldable pub register_data_sync_trigger_listener : Startup → Startup
register_data_sync_trigger_listener s =
    emit (map (λ type. register_trigger_listener type) (present s.comp_source)) s

unfoldable pub unregister_data_sync_trigger_listener : Startup → Startup
unregister_data_sync_trigger_listener s =
    emit (map (λ type. unregister_trigger_listener type) (present s.comp_source)) s

abbrev pub has_page : Option Bool → Bool
has_page none = false
has_page (some flag) = flag

unfoldable pub stop_privacy : Startup → Startup
stop_privacy s =
    let s1 =
      if has_page s.camera_comp_privacy
      then record (emit (stop_privace_page camera ∷ []) s) { camera_comp_privacy = some false }
      else s in
    if has_page s.audio_comp_privacy
    then record (emit (stop_privace_page audio ∷ []) s1) { audio_comp_privacy = some false }
    else s1

module _ (out : Outside) where
  unfoldable pub init_component_handler : Startup → Startup
  unfolding init_comp_source init_comp_sink
  init_component_handler s = (init_comp_sink out (init_comp_source out s).0).0

  -- A component that does not start is only logged.
  unfoldable pub start_component : Startup → Startup
  unfolding start_source start_sink
  start_component s = start_sink out (start_source out s)

  -- The listener of low latency is registered where the build has DHARDWARE_LOW_LATENCY.
  unfoldable pub init : Bool → Startup → Startup × Errno
  unfolding init_component_handler init_sa_monitor start_component register_dh_state_listener
      register_data_sync_trigger_listener
  init low_latency s =
      let s1 = start_component (init_sa_monitor out (init_component_handler s)) in
      let s2 =
        emit (init_comm_tool ∷ [])
          (register_data_sync_trigger_listener (register_dh_state_listener s1)) in
      (if low_latency then emit (register_low_latency ∷ []) s2 else s2, success)

  -- The keys of the futures are read before the handlers are cleared.
  unfoldable pub stop_component : Startup → Startup
  unfolding stop_source stop_sink wait_for_result
  stop_component s =
      let late_source = (wait_for_result out (present s.comp_source)).1 in
      let late_sink = (wait_for_result out (present s.comp_sink)).1 in
      let s1 = stop_sink out (stop_source s) in
      record s1 {
        is_un_init_time_out = s1.is_un_init_time_out || late_source || late_sink;
        comp_source = [];
        comp_sink = [];
      }

  unfoldable pub un_init : Bool → Startup → Startup × Errno
  unfolding unregister_dh_state_listener unregister_data_sync_trigger_listener stop_privacy
      un_init_sa_monitor stop_component
  un_init low_latency s =
      let s1 =
        emit (un_init_comm_tool ∷ [])
          (unregister_data_sync_trigger_listener (unregister_dh_state_listener s)) in
      let s2 = stop_component (un_init_sa_monitor out (stop_privacy s1)) in
      let s3 =
        if low_latency then emit (unregister_low_latency ∷ close_low_latency ∷ []) s2 else s2 in
      (if s3.is_un_init_time_out then emit (force_exit ∷ []) s3 else s3, success)

  -- StartSource and StartSink of one type.
  abbrev pub start_given_source : ℕ → Option Bool → Startup → Startup
  start_given_source type (some true) s = emit (init_source type (out.source_version type) ∷ []) s
  start_given_source type _ s = s

  abbrev pub start_given_sink : ℕ → Option Bool → Startup → Startup
  start_given_sink type (some true) s =
      register_privacy type (emit (init_sink type (out.sink_version type) ∷ []) s)
  start_given_sink type _ s = s

  unfoldable pub re_start_sa : ℕ → Startup → Startup
  unfolding register_privacy
  re_start_sa type s =
      let s1 = start_given_source type (lookup type s.comp_source) s in
      start_given_sink type (lookup type s1.comp_sink) s1

unfoldable pub dump_loaded_comps : Startup → List ℕ × List ℕ
dump_loaded_comps s = (map (λ entry. entry.0) s.comp_source, map (λ entry. entry.0) s.comp_sink)

-- The device of which the communication tool asks for all capabilities, if any.
unfoldable pub trigger_full_caps_sync : Str → Option Str
trigger_full_caps_sync network_id =
    if not (is_id_length_valid network_id) then none else some network_id
