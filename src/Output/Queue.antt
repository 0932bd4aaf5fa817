-- ===== src/Output/Queue.antt =====
-- The frames in the queue of the controller, and its parameters.
use multi_hardware.Base.{
  ℕ, ◌+◌, ◌-◌, ◌≤◌, ◌≡◌, Bool, false, Option, none, some, List, [], ◌∷◌, length, length-append,
  arith, nat_eq, nat_beq_iff, inl, inr, Bool-cases, ◌&&◌, ltb,
}
use multi_hardware.Base.Map.{has, emplace, lookup-emplace}
use multi_hardware.Base.Ints.{ℤ}
use multi_hardware.Output.Statistician.{Buffer, BufferMeta}
use multi_hardware.Output.Controller.{
  OutputController, is_sync, queue_max_size, is_start, pop_front, check_sync_info, set_control_mode,
  prepare_control, prepare_sync, prepare_smooth, push_with_meta, push_buffer, push_data,
  start_control, stop_control, release_control, get_parameter, set_parameter, ControlResult,
  output_frame, drop_frame, repeat_fream, pop_frame, handle_control_result,
}

-- What the engine's thread and the control thread do to the queue.
pub data Call : Type 0 where
  push : ℤ → Option Buffer → Call
  start_it stop_it release_it : Call
  put : ℕ → ℕ → Call
  output : ControlResult → Bool → Buffer → Call

unfoldable pub call : Call → OutputController → OutputController
call (push time frame) c = push_data time frame c
call start_it c = (start_control c).0
call stop_it c = (stop_control c).0
call release_it c = (release_control c).0
call (put tag value) c = set_parameter tag value c
call (output result posted frame) c = handle_control_result result posted frame c

unfoldable pub calls : List Call → OutputController → OutputController
unfolding call
calls [] c = c
calls (x ∷ xs) c = calls xs (call x c)

length-pop_front : (xs : List Buffer) → length (pop_front xs) ≡ length xs - 1
length-pop_front [] = omega arith
length-pop_front (x ∷ xs) = omega arith

-- A frame that changes the mode empties the queue.
check_sync_info-queue :
    (meta : BufferMeta) (c : OutputController)
    → length (check_sync_info meta c).data_queue ≤ length c.data_queue
unfolding check_sync_info set_control_mode prepare_control prepare_sync prepare_smooth
check_sync_info-queue meta c = elim (Bool-cases (is_sync c.mode)) [
  | inl s ↦ elim (Bool-cases (meta.has_sample_per_frame && meta.has_start_time)) [
    | inl b ↦ rw (s, b) (omega arith)
    | inr b ↦ rw (s, b) (omega arith)
  ]
  | inr s ↦ elim (Bool-cases (meta.has_sample_per_frame && meta.has_start_time)) [
    | inl b ↦ rw (s, b) (omega arith)
    | inr b ↦ rw (s, b) (omega arith)
  ]
]

push_with_meta-queue :
    (time : ℤ) (frame : Buffer) (meta : Option BufferMeta) (c : OutputController)
    → length (push_with_meta time frame meta c).data_queue ≤ length c.data_queue + 1
push_with_meta-queue time frame none c = omega arith
push_with_meta-queue time frame (some meta) c = ground (
  arith,
  check_sync_info-queue meta c,
  length-append (check_sync_info meta c).data_queue
      (record frame { buffer_meta = some (record meta { user_push_data_time = some time }) } ∷ []),
)

push_buffer-queue :
    (time : ℤ) (frame : Option Buffer) (c : OutputController)
    → length (push_buffer time frame c).data_queue ≤ length c.data_queue + 1
push_buffer-queue time none c = omega arith
push_buffer-queue time (some frame) c = push_with_meta-queue time frame frame.buffer_meta c

push_data-queue :
    (time : ℤ) (frame : Option Buffer) (c : OutputController)
    → length c.data_queue ≤ queue_max_size + 1
    → length (push_data time frame c).data_queue ≤ queue_max_size + 1
unfolding push_data
push_data-queue time frame c h = elim (Bool-cases (is_start c.status)) [
  | inr idle ↦ rw idle h
  | inl runs ↦ elim (Bool-cases (ltb queue_max_size (length c.data_queue))) [
    | inl full ↦
        let room : OutputController = record c { data_queue = pop_front c.data_queue } in
        rw (runs, full)
          (ground (arith, push_buffer-queue time frame room, length-pop_front c.data_queue))
    | inr free ↦ rw (runs, free) (ground (arith, push_buffer-queue time frame c))
  ]
]

pop_frame-queue :
    (frame : Buffer) (c : OutputController)
    → length (pop_frame frame c).data_queue ≤ length c.data_queue
pop_frame-queue frame c = ground (arith, length-pop_front c.data_queue)

call-queue :
    (x : Call) (c : OutputController)
    → length c.data_queue ≤ queue_max_size + 1
    → length (call x c).data_queue ≤ queue_max_size + 1
unfolding call start_control stop_control release_control set_parameter handle_control_result
call-queue (push time frame) c h = push_data-queue time frame c h
call-queue start_it c h = ground arith
call-queue stop_it c h = ground arith
call-queue release_it c h = ground arith
call-queue (put tag value) c h = h
call-queue (output output_frame posted frame) c h = ground (arith, pop_frame-queue frame c)
call-queue (output drop_frame posted frame) c h = ground (arith, pop_frame-queue frame c)
call-queue (output repeat_fream posted frame) c h = h

-- However the threads push and output frames, start, stop and release the controller and set
-- parameters, a queue of at most 101 frames, one more than the maximal size, stays so.
pub calls-queue :
    (xs : List Call) (c : OutputController)
    → length c.data_queue ≤ queue_max_size + 1
    → length (calls xs c).data_queue ≤ queue_max_size + 1
unfolding calls
calls-queue [] c h = h
calls-queue (x ∷ xs) c h = calls-queue xs (call x c) (call-queue x c h)

-- A value that is set for a tag which has none is read, and it still is after another value is set
-- for the tag: the later one is accepted but does not replace it.
pub get_parameter-set_parameter :
    (tag value later : ℕ) (c : OutputController)
    → has tag c.params_map ≡ false
    → let c1 = set_parameter tag value c in
      let c2 = set_parameter tag later c1 in
      (get_parameter tag c1 ≡ some value) × (get_parameter tag c2 ≡ some value)
unfolding get_parameter set_parameter has
get_parameter-set_parameter tag value later c new = ground (
  arith,
  nat_beq_iff tag tag,
  lookup-emplace tag tag value c.params_map,
  lookup-emplace tag tag later (emplace tag value c.params_map),
)
