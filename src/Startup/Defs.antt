-- ===== src/Startup/Defs.antt =====
-- component_manager.cpp: the handlers that are loaded and the threads that start and stop them;
-- component_monitor.cpp: the system abilities that are watched.
use multi_hardware.Base.{
  ℕ, Bool, true, false, not, ◌&&◌, ◌||◌, List, [], ◌∷◌, ◌++◌, Option, none, some, map, ◌==◌, nat_eq,
  is_empty, if◌then◌else◌,
}
use multi_hardware.Base.Map.{Map, lookup, emplace, is_some}
use multi_hardware.Base.Str.{Str}
use multi_hardware.Constants.{Errno, is_success}
use multi_hardware.Constants.DhType.{camera, audio}

pub data StartupEffect : Type 0 where
  init_source init_sink : ℕ → Str → StartupEffect
  release_source release_sink un_register_plugin_listener : ℕ → StartupEffect
  register_state_listener unregister_state_listener : ℕ → StartupEffect
  register_trigger_listener unregister_trigger_listener : ℕ → StartupEffect
  register_privacy_resources : ℕ → StartupEffect
  stop_privace_page : ℕ → StartupEffect
  init_comm_tool un_init_comm_tool register_low_latency unregister_low_latency : StartupEffect
  close_low_latency force_exit : StartupEffect

-- What the component loader, the system abilities and the components answer. A handler is `none`
-- where the loader fails, and else whether its pointer is not null; a system ability id is `none`
-- where it is INVALID_SA_ID; a thread's result is `none` where it is not there in time.
pub record Outside : Type 0 where
  pub all_comp_types : List ℕ
  pub get_source : ℕ → Option Bool
  pub get_sink : ℕ → Option Bool
  pub source_sa_id : ℕ → Option ℕ
  pub has_hardware_handler : ℕ → Bool
  -- The versions of this device's components.
  pub source_version : ℕ → Str
  pub sink_version : ℕ → Str
  pub system_ability_manager : Bool
  pub subscribe : ℕ → Bool
  pub un_subscribe : ℕ → Bool
  pub result : ℕ → Option Errno

-- The members that Init and UnInit write. A map of handlers says of each type that has an entry
-- whether the pointer is not null; a privacy is `none` where it is null, and else its page flag.
-- `sa_listeners` are the keys of the monitor's map.
pub record Startup : Type 0 where
  pub comp_source : Map ℕ Bool
  pub comp_sink : Map ℕ Bool
  pub comp_src_sa_id : Map ℕ ℕ
  pub sa_listeners : List ℕ
  pub camera_comp_privacy : Option Bool
  pub audio_comp_privacy : Option Bool
  pub is_un_init_time_out : Bool
  pub effects : List StartupEffect

unfoldable pub has_id : ℕ → List ℕ → Bool
has_id i [] = false
has_id i (j ∷ js) = (j == i) || has_id i js

unfoldable pub erase_id : ℕ → List ℕ → List ℕ
erase_id i [] = []
erase_id i (j ∷ js) = if j == i then erase_id i js else j ∷ erase_id i js

-- The types whose handler is not null, in the order of the map.
unfoldable pub present : Map ℕ Bool → List ℕ
present [] = []
present ((type, given) ∷ entries) =
    let rest = present entries in if given then type ∷ rest else rest

abbrev pub emit : List StartupEffect → Startup → Startup
emit xs s = record s { effects = s.effects ++ xs }

abbrev pub put_sink : ℕ → Option Bool → Startup → Startup
put_sink type (some true) s = record s { comp_sink = emplace type true s.comp_sink }
put_sink type _ s = s

unfoldable pub register_privacy : ℕ → Startup → Startup
register_privacy type s =
    let s1 = record (emit (register_privacy_resources type ∷ []) s) {
      camera_comp_privacy = some false;
    } in
    let s2 = record (emit (register_privacy_resources type ∷ []) s) {
      audio_comp_privacy = some false;
    } in
    if (type == camera) && not (is_some s.camera_comp_privacy)
    then s1
    else if (type == audio) && not (is_some s.audio_comp_privacy)
    then s2
    else s

unfoldable pub stop_source : Startup → Startup
stop_source s = emit (map release_source (present s.comp_source)) s

module _ (out : Outside) where
  abbrev pub put_sa_id : ℕ → Option ℕ → Map ℕ ℕ → Map ℕ ℕ
  put_sa_id type none m = m
  put_sa_id type (some id) m = emplace type id m

  abbrev pub put_source : ℕ → Option Bool → Startup → Startup
  put_source type (some true) s = record s {
    comp_source = emplace type true s.comp_source;
    comp_src_sa_id = put_sa_id type (out.source_sa_id type) s.comp_src_sa_id;
  }
  put_source type _ s = s

  unfoldable pub put_sources : List ℕ → Startup → Startup
  put_sources [] s = s
  put_sources (type ∷ types) s = put_sources types (put_source type (out.get_source type) s)

  unfoldable pub init_comp_source : Startup → Startup × Bool
  unfolding put_sources
  init_comp_source s =
      let s1 = put_sources out.all_comp_types s in (s1, not (is_empty s1.comp_source))

  unfoldable pub put_sinks : List ℕ → Startup → Startup
  put_sinks [] s = s
  put_sinks (type ∷ types) s = put_sinks types (put_sink type (out.get_sink type) s)

  unfoldable pub init_comp_sink : Startup → Startup × Bool
  unfolding put_sinks
  init_comp_sink s = let s1 = put_sinks out.all_comp_types s in (s1, not (is_empty s1.comp_sink))

  -- ComponentMonitor.
  unfoldable pub add_sa_monitor : ℕ → Startup → Startup
  unfolding has_id
  add_sa_monitor id s =
      if has_id id s.sa_listeners
      then s
      else if not out.system_ability_manager
      then s
      else if not (out.subscribe id)
      then s
      else record s { sa_listeners = id ∷ s.sa_listeners }

  unfoldable pub remove_sa_monitor : ℕ → Startup → Startup
  unfolding has_id erase_id
  remove_sa_monitor id s =
      if not (has_id id s.sa_listeners)
      then s
      else if not out.system_ability_manager
      then s
      else if not (out.un_subscribe id)
      then s
      else record s { sa_listeners = erase_id id s.sa_listeners }

  abbrev pub add_known : Option ℕ → Startup → Startup
  add_known none s = s
  add_known (some id) s = add_sa_monitor id s

  abbrev pub remove_known : Option ℕ → Startup → Startup
  remove_known none s = s
  remove_known (some id) s = remove_sa_monitor id s

  unfoldable pub add_monitors : Map ℕ Bool → Startup → Startup
  unfolding add_sa_monitor
  add_monitors [] s = s
  add_monitors ((type, given) ∷ entries) s =
      add_monitors entries (add_known (lookup type s.comp_src_sa_id) s)

  unfoldable pub remove_monitors : Map ℕ Bool → Startup → Startup
  unfolding remove_sa_monitor
  remove_monitors [] s = s
  remove_monitors ((type, given) ∷ entries) s =
      remove_monitors entries (remove_known (lookup type s.comp_src_sa_id) s)

  unfoldable pub init_sa_monitor : Startup → Startup
  unfolding add_monitors
  init_sa_monitor s = add_monitors s.comp_source s

  unfoldable pub un_init_sa_monitor : Startup → Startup
  unfolding remove_monitors
  un_init_sa_monitor s = remove_monitors s.comp_source s

  -- Each handler that is not null gets a thread; the types are the keys of the futures.
  unfoldable pub start_source : Startup → Startup
  start_source s =
      emit (map (λ type. init_source type (out.source_version type)) (present s.comp_source)) s

  unfoldable pub start_sinks : List ℕ → Startup → Startup
  unfolding register_privacy
  start_sinks [] s = s
  start_sinks (type ∷ types) s =
      start_sinks types
        (register_privacy type (emit (init_sink type (out.sink_version type) ∷ []) s))

  unfoldable pub start_sink : Startup → Startup
  unfolding start_sinks
  start_sink s = start_sinks (present s.comp_sink) s

  unfoldable pub stop_sinks : List ℕ → Startup → Startup
  stop_sinks [] s = s
  stop_sinks (type ∷ types) s =
      let s1 = emit (release_sink type ∷ []) s in
      stop_sinks types (
        if out.has_hardware_handler type
        then emit (un_register_plugin_listener type ∷ []) s1
        else s1)

  unfoldable pub stop_sink : Startup → Startup
  unfolding stop_sinks
  stop_sink s = stop_sinks (present s.comp_sink) s

  abbrev pub is_result_ok : Option Errno → Bool
  is_result_ok none = true
  is_result_ok (some result) = is_success result

  -- Whether every result that is there in time is a success, and whether one is not.
  unfoldable pub wait_for_result : List ℕ → Bool × Bool
  wait_for_result [] = (true, false)
  wait_for_result (type ∷ types) =
      let (ret, late) = wait_for_result types in
      (is_result_ok (out.result type) && ret, not (is_some (out.result type)) || late)
