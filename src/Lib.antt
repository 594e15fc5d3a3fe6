-- ===== src/Lib.antt =====
-- casambi_mqtt: a bridge between a Casambi Bluetooth network and MQTT, its Home Assistant
-- integration, and the supervisor that recovers the bridge.
--
-- The bridge process decrypts switch packets of the network and publishes their events; it keeps a
-- health record in a file and publishes its status over MQTT. The supervisor, a root-owned service that
-- a timer starts, reads that file, the exit log and systemd's view of the bridge, and decides whether to
-- reset Bluetooth, to restart the bridge, or to give up. The integration watches the status messages and
-- probes the bridge and its own consumer of unit messages.
--
-- What models what:
--
--   Switch       switch_decoder.py. Frame has parse_invocation_stream, a loop on fuel (the packet's
--                length, as each round takes at least nine bytes); Decoder has SwitchEventDecoder with
--                its clock as a parameter (the n-th reading) and install_switch_event_decoder. Codec is
--                the wire format written from the frame's description, for the parser's round trip.
--   Supervisor   scripts/bridge_recovery.py. Clock, State, Decide: the data, observe and decide. Options:
--                Settings.from_env, with int() as a parameter. Record: parse_record. Store: State.to_json,
--                parse_state, load_state, save_state. Machine: Systemctl, consume_exits and _wait_until
--                over an explicit world; Recover: recover, restart_bridge, stop_terminally and run_once.
--                The world, `Env`, is a parameter: systemd behind subprocess.run, the clocks (with a reading
--                each for observe and decide), sleep, the record's file, the exit log, the lock.
--                A machine carries the world, the state file and the trace of commands and saves.
--                _wait_until runs on fuel: the time-out over the poll interval, and two rounds more.
--   Health       custom_components/casambi_mqtt. Protocol and Wire: health_protocol.py. Bridge: the
--                settings and BridgeStatusTracker of health.py. Probe and Collect: ProbeTracker, each
--                operation also as a step. Observer: HealthObserver.
--   Bridge       server.py. State: HealthRecord, BridgeHealth and what changes them, at a `Moment` that
--                carries the clock and whether the file system takes the record. Status: the statuses,
--                replies and their rate limits. Units: UnitStatePublisher, where a step is the code
--                between two awaits of its worker, or a submission; a unit is the value submitted.
--                Startup: run_startup_stage and the classification of errors, where what an attempt and
--                its cleanup do is a parameter; Exits: main and cli, and _main's last disconnect.
--                Commands: process_command and the requests of the health protocol; Snapshot:
--                publish_snapshot; SwitchEvents: SwitchEventPublisher, whose dictionary of times is its
--                lookup; Conversion: to_entity, to_scene and the topics of units and scenes.
--   Recovery     custom_components/casambi_mqtt/recovery.py. Manager and Task: RecoveryManager, its
--                coroutines cut at their awaits, with Home Assistant's store, issue and calls as
--                fields; Events: these pieces as steps. Coordinator: HealthCoordinator.
--   Integration  custom_components/casambi_mqtt. Names: const.py and the topics. Runtime and Switches: the
--                switches' part of runtime_data.py, switch_events.py, event.py and __init__.py, where
--                the handler of switch events is cut at its await (the store's save) and what Home
--                Assistant is asked for is a trace, the newest first. Triggers: device_trigger.py.
--                Entities: entities/. Lights and Scenes: the handlers of units and scenes, and what
--                light.py, scene.py and button.py send. Migration: async_migrate_entry. Flows:
--                config_flow.py.
--                Home Assistant's registries and ids, int() and quote() are parameters. Calls, Control
--                and Published put the bridge (Bridge/Conversion, the commands, the switch events) and the
--                integration together.
--   Json         the values that `json` reads and writes; Prelude: tests, lists, texts, options.
--
-- How the code is rendered: times are in milliseconds (a Python float in thousandths), settings in
-- seconds; `now - t < w` is written `now < t + w`. An exception is a result: `none`, `raised`, `gave_up`
-- or `failed`. A set or a dictionary is a list without a repetition.
--
-- What is not modelled: the text of JSON, infinities and NaN; log output; file-system errors other than
-- an unreadable state file; time passing between two readings that no command and no sleep
-- separates, but that observe, decide and the rest of a pass have a reading each (the same for every
-- test of one call); int() of anything but decimal digits; `key=value` lines are split already.
-- parse_record can raise on a value of the wrong kind, which run_once's parameter read_record does not
-- carry. In Supervisor, record_exit with the exit log's format, and the command line; in Health,
-- listeners and diagnostics. In Bridge, the session and its heartbeats and the report of a failed startup;
-- in Recovery, the removal of an entry, the listeners and the diagnostics. In Integration, the
-- subscriptions, with their order and their undoing, the listener to options, the button entity's own
-- report of a phase, repairs, diagnostics, the sensors and health_monitor.py; dataclasses_json, whose
-- reading of an entity enters as its result.
pub mod Prelude
pub mod Json
pub mod Switch
pub mod Supervisor
pub mod Health
pub mod Bridge
pub mod Recovery
pub mod Integration
