-- ===== src/Lib.antt =====
-- A model of the distributed hardware framework: how hardware of other devices is found, enabled
-- and disabled, the channels by which audio and video engines reach other devices, and the shared
-- memory by which audio and video are synchronised.
--
-- The parts, with `fwk` for services/distributedhardwarefwkservice:
--   Base        texts, lists, maps and Boolean tests that all parts share, and Ints, the integers.
--   Constants   common/utils/include and the length tests of utils/src/dh_utils_tool.cpp.
--   Context     fwk/src/utils/dh_context.cpp: the devices that are online, by their identifiers.
--               Defs has the operations, Devices what they keep.
--   Capability  fwk/src/resourcemanager: Key (capability_utils.cpp), Info (capability_info.cpp),
--               Store, Queries and Changes (capability_info_manager.cpp: the operations, the
--               queries and the notifications of the database). StoreLaws, Keyed, Refine and
--               ChangeLaws have the proofs.
--   Task        fwk/src/task: Types (the task objects and the state that all tasks share), Board,
--               Executor, Factory, Handlers (the threads of the enable and disable tasks), Flows
--               (those of the online and offline tasks). Phases has the handlers of the disable
--               and meta disable tasks call by call, with other threads between. Threads has a step
--               relation for the tasks that run in any order, Awaiting, Reporting, Sound, Making,
--               Ending, Fathers, Invariant and Resumes have what holds of it, Scenario a run. Heap,
--               Outcomes, Creation, Offline and Dropped have the proofs of single handlers.
--   Version     fwk/src/versionmanager/version_manager.cpp.
--   Component   fwk/src/componentmanager: Register (component_enable.cpp, component_disable.cpp),
--               Params and Parameters (the versions and the parameters of a component), Manager
--               (the state, the business states) and Enabling (Enable and Disable) for
--               component_manager.cpp. Retries, Outcomes, Versions and Business have the proofs.
--   AvSync      av_transport/common/src/av_sync_utils.cpp: Bytes, Memory; Slots and Clock have the
--               proofs.
--   AvCenter    av_transport/av_trans_control_center/services/src: Center and Events
--               (av_trans_control_center.cpp), SyncTypes and SyncManager (av_sync_manager.cpp);
--               Channels, Scenes, Streams and Memories have the proofs.
--   Output      av_transport/av_trans_engine/plugin/plugins/av_trans_output/output_control:
--               Statistician (time_statistician.cpp), Controller, Times and
--               Looper (output_controller.cpp); Queue, Averages, Frames and Rereads have the proofs.
--   Sender      av_transport/av_trans_engine/av_sender/src/av_sender_engine.cpp: Types, Setup,
--               Engine, Parameters; Released, Shared and Pushes have the proofs.
--   Receiver    av_transport/av_trans_engine/av_receiver/src/av_receiver_engine.cpp: Engine and
--               Parameters; Codecs, Failed and Reached have the proofs.
--   Channel     av_transport/common/src/softbus_channel_adapter.cpp: Names, Adapter (the servers and
--               the sessions) and Callbacks (the listeners and what the softbus calls); Keys and
--               Sessions have the proofs.
--   LowLatency  fwk/src/lowlatency and the timer of fwk/src/utils: Switches; Timer has the proofs.
--   Access      fwk/src: distributed_hardware_manager.cpp (Manager),
--               distributed_hardware_manager_factory.cpp (Factory) and
--               accessmanager/access_manager.cpp (Callbacks): the devices that come and go, and when the framework is initialised and released. Lifecycle has the
--               events in any order; Online, Released and Reinit have more proofs.
--   Startup     fwk/src/componentmanager: Defs and Lifecycle (Init, UnInit and the restart of
--               component_manager.cpp, and component_monitor.cpp), Recovery (the hardware that is
--               enabled again). Counts, Stages and Balance have more proofs.
-- A module Examples (SyncExamples, Task/Scenario) applies the theorems of its part to concrete inputs.
--
-- How the parts interact: the device manager says that a device comes online, and unless Context
-- knows it already it gets an online task, which reads what hardware
-- the device has and makes one enable task for each; an enable task calls the component manager,
-- which looks for the parameters and registers the device with the component. A device that goes
-- offline gets an offline task, which makes disable tasks and waits for them. The notifications of
-- the database make enable and disable tasks as well.
--
-- Correspondence: an operation of the code is a function of the same name, from the state before
-- to the state after, its return code and what it hands on. An out parameter is an argument and a
-- result. A pointer to a task is its position in the list of the tasks made. What a part calls in
-- a part that is not modelled is a record: Env (the handlers of the tasks), Database (the
-- key-value store and the JSON texts), View and World (what Enable and Disable find and meet while
-- they run), Ashmem (the shared memory of the system), Softbus (what its adapter returns), SyncEnv
-- (the JSON texts of the streams), SenderEnv and ReceiverEnv (the pipeline and the filters of an
-- engine), SoftbusEnv (the sockets), DmEnv (the device manager), Outside (the component loader, the
-- system abilities and the threads of the components). A mutex is not modelled: each operation
-- that holds one is one step. In Task.Threads a whole handler of a task is one step as well, though
-- the code holds no mutex over it: what is said there is said of the states between handlers.
-- Texts are lists of bytes. A map is an association list, and the order of its entries is
-- not modelled, but where the code stops at the first entry: Channel visits the keys in their
-- order.
--
-- Bounds: loops run over lists, or over the number of rounds that the code fixes (three retries,
-- 50 units of the clock), so nothing runs out of fuel, but for the waits for the clock in Looper,
-- which have a number of rounds: 101 are enough where frames keep coming, since a full queue ends
-- the waiting. A uint32_t or int64_t that is written to memory is a natural number below the power
-- of two that its bytes hold. An int64_t that the output controller computes with is an integer
-- without a bound: its overflow is not modelled. A float factor is a function on the integers.
--
-- Not modelled: logs and traces; the loading of libraries and the start of services; messages
-- between processes; the filters and the other plugins of the audio and video transport, and the
-- threads of the output controller with the time that they wait; the managers of meta information,
-- of versions in the database and of local capabilities, most of which are answers of an interface
-- here; the time that a thread waits.
pub mod Base
pub mod Constants
pub mod Context
pub mod Capability
pub mod Task
pub mod Version
pub mod Component
pub mod AvSync
pub mod AvCenter
pub mod Output
pub mod Sender
pub mod LowLatency
pub mod Channel
pub mod Receiver
pub mod Access
pub mod Startup
