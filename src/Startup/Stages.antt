-- ===== src/Startup/Stages.antt =====
-- What the stages of Init and UnInit change: the calls that are made and the handlers.
use multi_hardware.Base.{
  ℕ, ◌+◌, ◌≡◌, refl, ◌∙◌, Bool, true, false, List, [], ◌∷◌, Option, none, some, map, arith, nat_eq,
  if◌then◌else◌,
}
use multi_hardware.Base.Map.{Map, lookup}
use multi_hardware.Constants.DhType.{camera, audio}
use multi_hardware.Startup.Defs.{
  register_state_listener, unregister_state_listener, register_trigger_listener,
  unregister_trigger_listener, stop_privace_page, init_comm_tool, un_init_comm_tool,
  register_low_latency, unregister_low_latency, close_low_latency, force_exit,
  register_privacy_resources, un_register_plugin_listener, init_source, init_sink, release_source,
  release_sink, Outside, Startup, present, emit, add_sa_monitor, remove_sa_monitor, add_monitors,
  remove_monitors, add_known, remove_known, put_sources, put_sinks, put_source, put_sink,
  start_source, start_sinks, start_sink, stop_source, stop_sinks, stop_sink, register_privacy,
}
use multi_hardware.Startup.Lifecycle.{
  start_component, stop_component, stop_privacy, has_page, register_dh_state_listener,
  unregister_dh_state_listener, register_data_sync_trigger_listener,
  unregister_data_sync_trigger_listener,
}
use multi_hardware.Startup.Counts.{
  Kind, count_calls, count-append, is_call-is_other, count-last, starts, releases, Keeps,
  emit-Keeps, emit_one-Keeps,
}

pub register_privacy-kept :
    (k : Kind) (t u : ℕ) (s : Startup)
    → let s' = register_privacy u s in
      (count_calls k t s'.effects ≡ count_calls k t s.effects)
      × (s'.comp_source ≡ s.comp_source)
      × (s'.comp_sink ≡ s.comp_sink)
unfolding register_privacy
register_privacy-kept k t u s = ground (
  arith,
  count-last k t s.effects (register_privacy_resources u),
  is_call-is_other k t (register_privacy_resources u),
)

put_source-effects :
    (out : Outside) (u : ℕ) (o : Option Bool) (s : Startup)
    → (put_source out u o s).effects ≡ s.effects
put_source-effects out u none s = refl
put_source-effects out u (some true) s = refl
put_source-effects out u (some false) s = refl

put_sink-effects : (u : ℕ) (o : Option Bool) (s : Startup) → (put_sink u o s).effects ≡ s.effects
put_sink-effects u none s = refl
put_sink-effects u (some true) s = refl
put_sink-effects u (some false) s = refl

-- The end of Init, after the components are started.
pub listening-kept :
    (k : Kind) (t : ℕ) (low : Bool) (s : Startup)
    → let s1 =
        emit
          (init_comm_tool ∷ [])
          (register_data_sync_trigger_listener (register_dh_state_listener s)) in
      Keeps k t s (if low then emit (register_low_latency ∷ []) s1 else s1)
unfolding register_dh_state_listener register_data_sync_trigger_listener
listening-kept k t low s =
    let s1 = register_dh_state_listener s in
    let s2 = register_data_sync_trigger_listener s1 in
    let s3 = emit (init_comm_tool ∷ []) s2 in
    ground (
      arith,
      emit-Keeps k t (λ u. register_state_listener u) (present s.comp_source) s (λ u. refl),
      emit-Keeps k t (λ u. register_trigger_listener u) (present s1.comp_source) s1 (λ u. refl),
      emit_one-Keeps k t init_comm_tool s2 refl,
      emit_one-Keeps k t register_low_latency s3 refl,
    )

-- The end of UnInit.
pub closed-kept :
    (k : Kind) (t : ℕ) (low : Bool) (s : Startup)
    → let s1 = if low then emit (unregister_low_latency ∷ close_low_latency ∷ []) s else s in
      Keeps k t s (if s1.is_un_init_time_out then emit (force_exit ∷ []) s1 else s1)
closed-kept k t low s =
    let s1 = if low then emit (unregister_low_latency ∷ close_low_latency ∷ []) s else s in
    ground (
      arith,
      count-append k t s.effects (unregister_low_latency ∷ close_low_latency ∷ []),
      is_call-is_other k t unregister_low_latency refl,
      is_call-is_other k t close_low_latency refl,
      emit_one-Keeps k t force_exit s1 refl,
    )

-- The begin of UnInit, before the monitors are removed.
pub leaving-kept :
    (k : Kind) (t : ℕ) (s : Startup)
    → Keeps k t s (
        stop_privacy (
          emit
            (un_init_comm_tool ∷ [])
            (unregister_data_sync_trigger_listener (unregister_dh_state_listener s))))
unfolding unregister_dh_state_listener unregister_data_sync_trigger_listener stop_privacy
leaving-kept k t s =
    let s1 = unregister_dh_state_listener s in
    let s2 = unregister_data_sync_trigger_listener s1 in
    let s3 = emit (un_init_comm_tool ∷ []) s2 in
    let s4 =
      if has_page s3.camera_comp_privacy then emit (stop_privace_page camera ∷ []) s3 else s3 in
    ground (
      arith,
      emit-Keeps k t (λ u. unregister_state_listener u) (present s.comp_source) s (λ u. refl),
      emit-Keeps k t (λ u. unregister_trigger_listener u) (present s1.comp_source) s1 (λ u. refl),
      emit_one-Keeps k t un_init_comm_tool s2 refl,
      emit_one-Keeps k t (stop_privace_page camera) s3 refl,
      emit_one-Keeps k t (stop_privace_page audio) s4 refl,
    )

module _ (out : Outside) where
  add_known-kept :
      (o : Option ℕ) (s : Startup)
      → let s' = add_known out o s in
        (s'.effects ≡ s.effects) × (s'.comp_source ≡ s.comp_source) × (s'.comp_sink ≡ s.comp_sink)
  unfolding add_sa_monitor
  add_known-kept none s = (refl, refl, refl)
  add_known-kept (some id) s = ground arith

  remove_known-kept :
      (o : Option ℕ) (s : Startup)
      → let s' = remove_known out o s in
        (s'.effects ≡ s.effects) × (s'.comp_source ≡ s.comp_source) × (s'.comp_sink ≡ s.comp_sink)
  unfolding remove_sa_monitor
  remove_known-kept none s = (refl, refl, refl)
  remove_known-kept (some id) s = ground arith

  start_sinks-kept :
      (k : Kind) (t : ℕ) (us : List ℕ) (s : Startup)
      → let s' = start_sinks out us s in
        (count_calls k t s'.effects
          ≡ count_calls k t s.effects
            + count_calls k t (map (λ u. init_sink u (out.sink_version u)) us))
        × (s'.comp_source ≡ s.comp_source)
        × (s'.comp_sink ≡ s.comp_sink)
  unfolding start_sinks
  start_sinks-kept k t [] s = (omega arith, refl, refl)
  start_sinks-kept k t (u ∷ us) s =
      let x = init_sink u (out.sink_version u) in
      ground (
        arith,
        count-last k t s.effects x,
        register_privacy-kept k t u (emit (x ∷ []) s),
        start_sinks-kept k t us (register_privacy u (emit (x ∷ []) s)),
      )

  stop_sinks-kept :
      (k : Kind) (t : ℕ) (us : List ℕ) (s : Startup)
      → let s' = stop_sinks out us s in
        count_calls k t s'.effects
        ≡ count_calls k t s.effects + count_calls k t (map (λ u. release_sink u) us)
  unfolding stop_sinks
  stop_sinks-kept k t [] s = omega arith
  stop_sinks-kept k t (u ∷ us) s =
      let s1 = emit (release_sink u ∷ []) s in
      let plugin = un_register_plugin_listener u in
      let s2 = if out.has_hardware_handler u then emit (plugin ∷ []) s1 else s1 in
      ground (
        arith,
        count-last k t s.effects (release_sink u),
        count-last k t s1.effects plugin,
        is_call-is_other k t plugin,
        stop_sinks-kept k t us s2,
      )

  -- What the handlers and the monitors change is not in the effects.
  pub put_sources-effects : (us : List ℕ) (s : Startup) → (put_sources out us s).effects ≡ s.effects
  unfolding put_sources
  put_sources-effects [] s = refl
  put_sources-effects (u ∷ us) s =
      put_sources-effects us (put_source out u (out.get_source u) s)
      ∙ put_source-effects out u (out.get_source u) s

  pub put_sinks-effects : (us : List ℕ) (s : Startup) → (put_sinks out us s).effects ≡ s.effects
  unfolding put_sinks
  put_sinks-effects [] s = refl
  put_sinks-effects (u ∷ us) s =
      put_sinks-effects us (put_sink u (out.get_sink u) s) ∙ put_sink-effects u (out.get_sink u) s

  pub add_monitors-kept :
      (entries : Map ℕ Bool) (s : Startup)
      → let s' = add_monitors out entries s in
        (s'.effects ≡ s.effects) × (s'.comp_source ≡ s.comp_source) × (s'.comp_sink ≡ s.comp_sink)
  unfolding add_monitors
  add_monitors-kept [] s = (refl, refl, refl)
  add_monitors-kept ((type, given) ∷ entries) s = ground (
    arith,
    add_known-kept (lookup type s.comp_src_sa_id) s,
    add_monitors-kept entries (add_known out (lookup type s.comp_src_sa_id) s),
  )

  pub remove_monitors-kept :
      (entries : Map ℕ Bool) (s : Startup)
      → let s' = remove_monitors out entries s in
        (s'.effects ≡ s.effects) × (s'.comp_source ≡ s.comp_source) × (s'.comp_sink ≡ s.comp_sink)
  unfolding remove_monitors
  remove_monitors-kept [] s = (refl, refl, refl)
  remove_monitors-kept ((type, given) ∷ entries) s = ground (
    arith,
    remove_known-kept (lookup type s.comp_src_sa_id) s,
    remove_monitors-kept entries (remove_known out (lookup type s.comp_src_sa_id) s),
  )

  pub start_component-kept :
      (k : Kind) (t : ℕ) (s : Startup)
      → let s' = start_component out s in
        (count_calls k t s'.effects ≡ count_calls k t s.effects + starts out k t s)
        × (s'.comp_source ≡ s.comp_source)
        × (s'.comp_sink ≡ s.comp_sink)
  unfolding start_component start_source start_sink
  start_component-kept k t s =
      let started = map (λ u. init_source u (out.source_version u)) (present s.comp_source) in
      ground (
        arith,
        count-append k t s.effects started,
        start_sinks-kept k t (present s.comp_sink) (emit started s),
      )

  pub stop_component-kept :
      (k : Kind) (t : ℕ) (s : Startup)
      → let s' = stop_component out s in
        (count_calls k t s'.effects ≡ count_calls k t s.effects + releases k t s)
        × (s'.comp_source ≡ [])
        × (s'.comp_sink ≡ [])
  unfolding stop_component stop_source stop_sink
  stop_component-kept k t s =
      let released = map (λ u. release_source u) (present s.comp_source) in
      ground (
        arith,
        count-append k t s.effects released,
        stop_sinks-kept k t (present s.comp_sink) (emit released s),
      )
