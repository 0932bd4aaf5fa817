-- ===== src/Startup/Balance.antt =====
-- What Init brings up UnInit takes down.
use multi_hardware.Base.{ℕ, ◌+◌, ◌≡◌, refl, ◌∙◌, Bool, List, [], ◌∷◌, arith, nat_eq}
use multi_hardware.Startup.Defs.{
  StartupEffect, un_init_comm_tool, init_source, init_sink, release_source, release_sink, Outside,
  Startup, present, emit, add_monitors, remove_monitors, put_sources, put_sinks, init_comp_source,
  init_comp_sink, init_sa_monitor, un_init_sa_monitor,
}
use multi_hardware.Startup.Lifecycle.{
  init_component_handler, start_component, init, stop_component, un_init, stop_privacy,
  unregister_dh_state_listener, unregister_data_sync_trigger_listener,
}
use multi_hardware.Startup.Counts.{
  source_start, source_release, sink_start, sink_release, Kind, count_calls, count-map, count-none,
  starts, releases,
}
use multi_hardware.Startup.Stages.{
  listening-kept, closed-kept, leaving-kept, put_sources-effects, put_sinks-effects,
  add_monitors-kept, remove_monitors-kept, start_component-kept, stop_component-kept,
}

module _ (out : Outside) where
  init-kept :
      (k : Kind) (t : ℕ) (low : Bool) (s : Startup)
      → let s' = (init out low s).0 in
        count_calls k t s'.effects ≡ count_calls k t s.effects + starts out k t s'
  unfolding init init_component_handler init_comp_source init_comp_sink init_sa_monitor
  init-kept k t low s =
      let s1 = put_sources out out.all_comp_types s in
      let s2 = put_sinks out out.all_comp_types s1 in
      let s3 = add_monitors out s2.comp_source s2 in
      let s4 = start_component out s3 in
      let (effects3, source3, sink3) = add_monitors-kept out s2.comp_source s2 in
      let same : s3.effects ≡ s.effects =
        effects3
        ∙ put_sinks-effects out out.all_comp_types s1
        ∙ put_sources-effects out out.all_comp_types s in
      let (counted, source4, sink4) = start_component-kept out k t s3 in
      let (counted5, source5, sink5) = listening-kept k t low s4 in
      ground (arith, same, counted, source4, sink4, counted5, source5, sink5)

  un_init-kept :
      (k : Kind) (t : ℕ) (low : Bool) (s : Startup)
      → let s' = (un_init out low s).0 in
        (count_calls k t s'.effects ≡ count_calls k t s.effects + releases k t s)
        × (s'.comp_source ≡ [])
        × (s'.comp_sink ≡ [])
  unfolding un_init un_init_sa_monitor
  un_init-kept k t low s =
      let s1 = stop_privacy (
        emit (un_init_comm_tool ∷ [])
          (unregister_data_sync_trigger_listener (unregister_dh_state_listener s))) in
      let s2 = remove_monitors out s1.comp_source s1 in
      let s3 = stop_component out s2 in
      let (effects2, source2, sink2) = remove_monitors-kept out s1.comp_source s1 in
      let (counted1, source1, sink1) = leaving-kept k t s in
      let (counted3, source3, sink3) = stop_component-kept out k t s2 in
      let closing = closed-kept k t low s3 in
      ground (
        arith, effects2, source2, sink2, counted1, source1, sink1, counted3, source3, sink3,
        closing,
      )

-- The source of a type is started as often as it is released, and so is its sink.
abbrev pub IsEven : ℕ → List StartupEffect → Type 0
IsEven t xs =
    (count_calls source_start t xs ≡ count_calls source_release t xs)
    × (count_calls sink_start t xs ≡ count_calls sink_release t xs)

starts-releases :
    (out : Outside) (t : ℕ) (s : Startup)
    → (starts out source_start t s ≡ releases source_release t s)
      × (starts out source_release t s ≡ releases source_start t s)
      × (starts out sink_start t s ≡ releases sink_release t s)
      × (starts out sink_release t s ≡ releases sink_start t s)
starts-releases out t s =
    let sources = present s.comp_source in
    let sinks = present s.comp_sink in
    ground (
      arith,
      count-map source_start t (λ (u : ℕ). init_source u (out.source_version u)) sources
          (λ u. refl),
      count-map source_release t (λ (u : ℕ). release_source u) sources (λ u. refl),
      count-map sink_start t (λ (u : ℕ). init_sink u (out.sink_version u)) sinks (λ u. refl),
      count-map sink_release t (λ (u : ℕ). release_sink u) sinks (λ u. refl),
      count-none source_start t (λ (u : ℕ). init_sink u (out.sink_version u)) sinks (λ u. refl),
      count-none source_start t (λ (u : ℕ). release_source u) sources (λ u. refl),
      count-none source_start t (λ (u : ℕ). release_sink u) sinks (λ u. refl),
      count-none source_release t (λ (u : ℕ). release_sink u) sinks (λ u. refl),
      count-none source_release t (λ (u : ℕ). init_source u (out.source_version u)) sources
          (λ u. refl),
      count-none source_release t (λ (u : ℕ). init_sink u (out.sink_version u)) sinks (λ u. refl),
      count-none sink_start t (λ (u : ℕ). init_source u (out.source_version u)) sources (λ u. refl),
      count-none sink_start t (λ (u : ℕ). release_source u) sources (λ u. refl),
      count-none sink_start t (λ (u : ℕ). release_sink u) sinks (λ u. refl),
      count-none sink_release t (λ (u : ℕ). release_source u) sources (λ u. refl),
      count-none sink_release t (λ (u : ℕ). init_source u (out.source_version u)) sources
          (λ u. refl),
      count-none sink_release t (λ (u : ℕ). init_sink u (out.sink_version u)) sinks (λ u. refl),
    )

-- If so far the source of a type was started as often as released, and its sink, then it is so
-- after Init and UnInit, whatever these two meet, and no handler is left.
pub un_init-init :
    (out out' : Outside) (low : Bool) (t : ℕ) (s : Startup)
    → IsEven t s.effects
    → let s' = (un_init out' low (init out low s).0).0 in
      IsEven t s'.effects × (s'.comp_source ≡ []) × (s'.comp_sink ≡ [])
un_init-init out out' low t s even =
    let s1 = (init out low s).0 in
    ground (
      arith,
      starts-releases out t s1,
      init-kept out source_start t low s,
      init-kept out source_release t low s,
      init-kept out sink_start t low s,
      init-kept out sink_release t low s,
      un_init-kept out' source_start t low s1,
      un_init-kept out' source_release t low s1,
      un_init-kept out' sink_start t low s1,
      un_init-kept out' sink_release t low s1,
    )
