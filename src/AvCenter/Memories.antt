-- ===== src/AvCenter/Memories.antt =====
-- The shared memories of the synchronisation, and the messages that open and close them.
use multi_hardware.Base.{
  ℕ, suc, ◌+◌, ◌*◌, ◌≤◌, ◌<◌, ◌≡◌, refl, false, List, [], ◌∷◌, ◌++◌, arith, ◌==◌, length,
  if◌then◌else◌, leb, nat_eq, nat_beq_iff,
}
use multi_hardware.Base.Map.{Map}
use multi_hardware.Base.Str.{Str, str, str_eq}
use multi_hardware.AvSync.Memory.{
  AvTransSharedMemory, is_invalid_shared_memory, unit_size, max_clock_unit_count,
}
use multi_hardware.AvCenter.Center.{ControlCenter}
use multi_hardware.AvCenter.SyncTypes.{
  stop_av_sync, AvStreamInfo, Action, ashmem_create, close_fd, send_bytes_data, set_parameter,
  set_shared_memory, start_device_time_sync, SyncEnv, no_memory, close_av_trans_shared_memory,
}
use multi_hardware.AvCenter.SyncManager.{
  SyncManager, av_sync_stream_count, send_to_streams, set_memory_2_engines, remove_streams,
  remove_stream_info, disable_sender_av_sync,
}
use multi_hardware.AvCenter.Events.{AvCenter}

-- How often a descriptor is closed.
pub closes : ℕ → List Action → ℕ
closes fd [] = 0
closes fd (close_fd other ∷ actions) =
    let rest = closes fd actions in if other == fd then suc rest else rest
closes fd (_ ∷ actions) = closes fd actions

closes-append : (fd : ℕ) (xs ys : List Action) → closes fd (xs ++ ys) ≡ closes fd xs + closes fd ys
unfolding closes
closes-append fd [] ys = ground arith
closes-append fd (close_fd other ∷ xs) ys = ground (arith, closes-append fd xs ys)
closes-append fd (ashmem_create _ _ ∷ xs) ys = closes-append fd xs ys
closes-append fd (send_bytes_data _ _ ∷ xs) ys = closes-append fd xs ys
closes-append fd (set_parameter _ _ _ ∷ xs) ys = closes-append fd xs ys
closes-append fd (set_shared_memory _ _ ∷ xs) ys = closes-append fd xs ys
closes-append fd (start_device_time_sync _ _ ∷ xs) ys = closes-append fd xs ys

closes-send :
    (fd type : ℕ) (content : Str) (center : ControlCenter) (streams : List AvStreamInfo)
    → closes fd (send_to_streams type content center streams) ≡ 0
unfolding closes send_to_streams
closes-send fd type content center [] = refl
closes-send fd type content center (stream ∷ streams) = closes-send fd type content center streams

closes-memory :
    (fd : ℕ) (m : AvTransSharedMemory) (callbacks : Map ℕ ℕ)
    → closes fd (set_memory_2_engines m callbacks) ≡ 0
unfolding closes set_memory_2_engines
closes-memory fd m [] = refl
closes-memory fd m (callback ∷ callbacks) = closes-memory fd m callbacks

closes-close :
    (m : AvTransSharedMemory)
    → is_invalid_shared_memory m ≡ false
    → closes m.fd (close_av_trans_shared_memory m) ≡ 1
unfolding closes close_av_trans_shared_memory
closes-close m valid = rw valid (ground (arith, nat_beq_iff m.fd m.fd))

length-remove_streams :
    (stream : AvStreamInfo) (streams : List AvStreamInfo)
    → length (remove_streams stream streams) ≤ length streams
unfolding remove_streams
length-remove_streams stream [] = omega arith
length-remove_streams stream (other ∷ streams) =
    ground (arith, length-remove_streams stream streams)

disable-closes :
    (center : ControlCenter) (m : SyncManager)
    → is_invalid_shared_memory m.source_memory ≡ false
    → length m.stream_info_list < av_sync_stream_count
    → let (m', actions) = disable_sender_av_sync center m in
      (m' ≡ m) × (closes m.source_memory.fd actions ≡ 1)
unfolding disable_sender_av_sync
disable-closes center m valid few =
    let fd = m.source_memory.fd in
    let few_streams : leb av_sync_stream_count (length m.stream_info_list) ≡ false = ground arith in
    let sends = send_to_streams stop_av_sync [] center m.stream_info_list in
    let closed = close_av_trans_shared_memory m.source_memory in
    let told = set_memory_2_engines (no_memory (str "sourceSharedMemory")) center.callback_map in
    let once : closes fd (sends ++ closed ++ told) ≡ 1 = ground (
      arith,
      closes-append fd (sends ++ closed) told,
      closes-append fd sends closed,
      closes-send fd stop_av_sync [] center m.stream_info_list,
      closes-memory fd (no_memory (str "sourceSharedMemory")) center.callback_map,
      closes-close m.source_memory valid,
    ) in
    rw few_streams (refl, once)

-- Two streams are removed one after the other, or one twice, when at most one is left after the
-- first: the source memory that the manager held is closed twice, and the manager still holds it.
pub remove_stream_info-closes_twice :
    (center : ControlCenter) (first second : AvStreamInfo) (m : SyncManager)
    → is_invalid_shared_memory m.source_memory ≡ false
    → length (remove_streams first m.stream_info_list) < av_sync_stream_count
    → let (m1, actions1) = remove_stream_info center first m in
      let (m2, actions2) = remove_stream_info center second m1 in
      (closes m.source_memory.fd (actions1 ++ actions2) ≡ 2) × (m2.source_memory ≡ m.source_memory)
unfolding remove_stream_info
remove_stream_info-closes_twice center first second m valid few =
    let left = remove_streams first m.stream_info_list in
    let m0 : SyncManager = record m { stream_info_list = left } in
    let (same, once) = disable-closes center m0 valid few in
    let m1 : SyncManager = record m { stream_info_list = remove_streams second left } in
    let (same', again) =
      disable-closes center m1 valid (omega (arith, few, length-remove_streams second left)) in
    rw same (
      ground (
        arith,
        closes-append m.source_memory.fd (disable_sender_av_sync center m0).1
            (disable_sender_av_sync center m1).1,
        once,
        again,
        same',
      ))

sink_memory : SyncEnv → AvTransSharedMemory
sink_memory env = record {
  fd = env.created_fd (str "sinkSharedMemory") (unit_size * max_clock_unit_count);
  size = unit_size * max_clock_unit_count;
  name = str "sinkSharedMemory";
}
