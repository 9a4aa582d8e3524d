-- ===== src/Lib.antt =====
-- The virtual media service of the BMC: a mount point redirects an image, of a remote share or of a
-- client, to a USB gadget of the host, over an nbd device. Paths are those of the repository.
--
-- Parts and files
--   Device        src/system.hpp: `NBDDevice` and `DeviceMonitor`, which turns messages of udev into
--                 callbacks (Device/Names, Device/Monitor), and, in Open, its constructor.
--   Notification  src/utils.hpp: `NotificationWrapper` with the handler that
--                 src/state_machine.hpp gives it; the queue of late timer handlers is written out.
--   Credentials   src/utils.hpp, src/credentials.hpp and the reader of the D-Bus method `Mount` in
--                 src/state/initial_state.hpp: the payload of the pipe, the comma escape, the purge,
--                 and, in Volatile, the temporary file of a secret.
--   Url           src/state/activating_state.cpp and src/system.hpp: schemes, paths, slots, sessions.
--   Config        src/configuration.hpp: `setupVariables` over the parsed JSON document; Load has
--                 `loadConfiguration` and the arguments of src/main.cpp.
--   Share         src/smb.hpp, src/nfs.hpp, `safeMount` of src/utils.hpp.
--   Logger        src/logger.hpp: the levels, the file name of a message and what is written.
--   Machine       src/state_machine.hpp, src/events.hpp, src/resources.hpp, src/resources.cpp and
--                 src/state: Types has the machine; Resources the destructors; Activating and Legacy
--                 what entering the activating state does; Handlers the `handleEvent` overloads; Run
--                 `changeState` and `emitEvent`; Inactivity the timer of the active state. Balance counts
--                 what is acquired and given back. Protocol has the phases of a mount point, its moves and
--                 what they tell the client: Replies and Activation what entering the activating state
--                 tells, Refine the move of each input, Histories those of a history, Success the code 0.
--   Local         src/state/initial_state.hpp: the D-Bus service for local files over the machines of
--                 all slots, and `detectImageType` of src/system.hpp; Registry how it is made.
--   Session       src/system.hpp: `DbusMonitor`, the sessions of the slots and which slots are unmounted
--                 when the list of sessions changes; Signals the handler of the signal, Children the
--                 children that are forked to make the calls, over any signals.
--   UsbGadget     src/system.hpp: `UsbGadget::configure`: Statements has the paths and the files,
--                 Registration the sessions, Ports the choice of a port, Configure the whole, Eject the
--                 child that watches for an eject, Cache the one that drops the cache; the other children
--                 are about its results.
--   Reconnect     src/system.hpp: `retryMount`, `handleUnmountAndRetry` and the rounds of
--                 `mountMonitorThread`; Paths has `isMountedPathAccessible`.
--   Retry         src/vm_interface.cpp: `SetAll`, `GetAll` and `loadJson`; Start `addInterfaces`; ImageUrls
--                 the URLs that are saved for slots 2 and 3.
--   ChildProcess  src/system.hpp: how `Process` waits for the end of a child, and, in Console, reads
--                 what it prints.
--   App           src/main.cpp: Start the order of the start, Lifecycle the life of one mount point;
--                 Callbacks and Independence the machines of all mount points under the callbacks of the
--                 event loop, Turns one of them under its own; Methods the D-Bus method `Mount` of a
--                 mount point, of src/state/initial_state.hpp, with what happens while it waits.
--   Base, Tests   shared helpers; runs and applications at concrete inputs.
--
-- A handler is a function from a machine to an outcome: a value, or an exception, with the machine as
-- it was left. A monad of these keeps the order of the statements. A unique pointer to a process, a
-- gadget or a mount is an optional value of the state or the target, and its destructor is a function
-- that is called where the C++ object dies; what is acquired and given back is written to a trace of
-- actions. The machine calls `Notification` for its completion signal, `Share` for the mounts and
-- `Url` for the tests. A callback of udev, of a child process or of a timer is an input of the
-- machine; a history is any list of inputs. `UsbGadget::configure` has a monad of its own with a third
-- end, the early `return`; what it does is written to a trace too. UsbGadget/Pending puts it in the place
-- of the answer that the machine takes for it.
--
-- Parameters: what the file system, `::mount`, a child's start and `UsbGadget::configure` answer a
-- machine is a record `System`, given anew for each event, so that the theorems hold for all answers;
-- what `configure` itself asks of configfs and of the session manager is a record `Host`, and what a
-- reconnect asks of the service a record `Peer`. The options of the build are fields of these.
-- libudev's answers and `std::stoul` are fields of a message. Functions of the C++ standard library on
-- texts, maps and ranges (`stoi`, `filename`, `parent_path`, `find`, `sort`, `set_difference`) are written
-- out on lists. A null pointer or an empty optional that is read is the exception `undefined`.
--
-- Bounds: `changeState` calls itself through `onEnter`; the model lets it do so on fuel, and two changes
-- are enough for every event, since only entering the activating state yields a further state, which
-- is a ready one. The purge loop gets one round more than the secret has bytes. The attempts of a
-- reconnect and the ten seconds after each are counted down as the source counts them up; the rounds
-- of the endless loops are lists.
--
-- Not modelled: D-Bus itself and its properties, `NamedPipe` and the wiping of memory, the signals that
-- end the service, the exit code of a child, the order of a flat_map's keys in the configuration, and
-- src/state/active_state.cpp, which is in no build.
mod Base
pub mod Device
pub mod Notification
pub mod Credentials
pub mod Url
pub mod Config
pub mod Share
pub mod Machine
pub mod Local
pub mod Session
pub mod ChildProcess
pub mod App
pub mod UsbGadget
pub mod Reconnect
pub mod Retry
pub mod Logger
mod Tests
