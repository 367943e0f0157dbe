-- ===== src/Lib.antt =====
-- The device side of the waveshare assistant: a voice assistant on an ESP32 board whose settings are
-- managed from a paired client. The parts modelled are the ones that decide: they are plain C behind
-- the ESP-IDF tasks, drivers and clients, which call them and which are not modelled.
--
-- Parts and files (paths from the repository's root):
--   Wire      components/management_transport/src/aiqa_management_wire.c: the frames of the USB link,
--             a byte-wise decoder with resynchronization. `decoder_feed` returns what the C function
--             returns, the decoder, and the frames given to the callback, in order.
--             Wire.Bounds, Wire.Frames and Wire.Stream hold its theorems.
--   Pairing   components/management_session/src/aiqa_pairing_lifecycle.c: the pairing window, the
--             handshake and the session, with the persistent count of attempts. Pairing.State has the
--             state and the ports, Refresh the clock and the clearing, Code the random digits, Ops
--             the operations, Create the start and the status; Invariant, Keeps, Quiet, Attempts and
--             Expiry prove.
--   Access    components/management_access/src/aiqa_management_access.c: who may send management
--             requests. Access.Ids and Access.Refine prove.
--   Channel   components/management_session/src/aiqa_secure_channel.c: the records of a paired
--             session, with mbedTLS as a parameter. Records, Fields, Opening, RoundTrip and Sending
--             prove; the last two assume that GCM opens what it sealed and adds a tag of 16 bytes.
--   Provider  components/provider_common/src/aiqa_provider.c: the providers, their hosts and models.
--   Config    components/config_store/src/aiqa_config.c: the settings. Config.Validate has the defaults
--             and the validation of the endpoints, Config the Wi-Fi part, Config.StatusNames the
--             names; Endpoint, Texts and Update prove. Config.Transaction is
--             components/config_store/src/aiqa_config_transaction.c: a Wi-Fi update that is staged,
--             verified, tried on the network, activated, and rolled back if that fails.
--   Storage   components/config_store/src/aiqa_config_nvs_ab.c: the settings in two slots of the flash
--             under a head, over the key-value storage of ESP-IDF (Storage.Nvs), which is a parameter.
--             Fields has the keys of a record, Slots the head with stage, verify and activate, Erase
--             the discarding with aiqa_config_erase_legacy_record_from_nvs of aiqa_config_nvs.c, Reset
--             the factory reset, Load the loading at a start, Ports the connection to the transaction.
--             Head, Durable, Staging, Discarding, Activating, Updates, Pending, Loading, Restart,
--             Settled, Power, Tombstone and Resume prove; Memory has two NVS for tests.
--   Memory    components/app_core/src/aiqa_conversation_memory.c: the last turns of the conversation.
--             Memory.Utf8, Characters, Cut, Ring, Recall and Context prove.
--   Machine   components/app_core/src/aiqa_state_machine.c: the states of the assistant.
--             Machine.Graph, Exact and Runs prove.
--   Runtime   components/app_runtime/src/aiqa_runtime_events.c: the events that the button and the
--             providers' answers give to Machine. Runtime.Answers proves.
--   Ptt       components/app_core/src/aiqa_ptt_button.c, and in Ptt.Gesture
--             components/app_core/src/aiqa_boot_gesture.c: the button that records, and its taps.
--   Playback  components/app_core/src/aiqa_tts_playback_policy.c and aiqa_tts_pcm_buffer.c: the buffering
--             of a spoken answer. Playback.Starvation and Playback.Buffers prove.
--   Guard     components/app_core/src/aiqa_hardening.c, the epochs of
--             components/provider_common/src/aiqa_request_epoch.c and the delays of
--             components/net_connect/src/aiqa_net_policy.c. Guard.Epoch and Guard.Delay prove.
--   Prelude   Boolean tests, lists and bytes shared by all.
-- A paired session opens the registry of Access; frames of Wire carry its records, which Channel
-- opens, and the requests in them change the settings through Config.Transaction, whose storage ports
-- are those of Storage. The button of Ptt
-- and the answers of the providers send events to Machine, through Runtime.
--
-- How the code is translated:
--   * a function of the C code has the name of its definition, less the file's prefix; `X_refreshed`
--     is the rest of `X` after its call of `refresh`, and `X_candidate`, `settle`, `commit`,
--     `roll_back` and `clean_up` are consecutive parts of `aiqa_config_transaction_apply_wifi`;
--   * a struct is a record that the operations return anew; an out-parameter is a result, none where
--     it is not written; pointers to the objects themselves are taken to be valid, except where
--     `dispatch` and the credentials handle NULL;
--   * numbers are naturals, with the wrap-around of counters and clock differences written out, and
--     buffers are lists of their bytes;
--   * ports (the clock, the random generator, the persistent store, the display, the network) are
--     parameters: they may answer anything, depending on all calls made before; the calls are
--     recorded in the state, newest first. A port does not call back into its caller;
--   * the operations of Access hold their lock from start to end, so each is one step; those of
--     Pairing are called by the one task that owns the lifecycle; the two locks of Config.Transaction
--     are fields, and an update that finds one taken is refused.
--
-- Loops are structural, over the bytes fed, the characters of a text, the keys or the writes; the
-- drawing of a code falls in two counters, the digits left and the rejections left. Only the UTF-8 cut
-- of Memory counts rounds: a round takes a byte of the room at least, so the room is enough rounds.
--
-- The storage of ESP-IDF may fail at any write and may leave anything in the namespace written; the
-- theorems of Storage assume that reading changes nothing and that a write in a namespace leaves the
-- others as they are, and where they say so two more promises of nvs.h: that setting a key leaves the
-- other keys, and that a commit that succeeds makes what is read survive a restart (Storage.Nvs). What
-- is read is what was written last, committed or not; Storage.Power and Storage.Resume are about a
-- restart that loses what was not committed, and Storage.Power about writes that succeed, since nothing
-- is promised of a head that reads back after a commit that failed. The lock of the storage is an
-- argument of each operation: whether another task holds it. The code that writes the head or the
-- slots takes the lifecycle lock first, as an update does, so that a reset or a loading never runs
-- within an update; a reset between two updates ends the sequences that Restart and Power are about.
-- Other tasks may write in the namespace of the first layout between any two calls of a port.
--
-- Not modelled: the tasks of the runtime, the HTTP clients, the drivers, the key exchange of pairing
-- with the start of a channel, the JSON protocol on top of the frames, the storage of the pairing
-- record, and of the configuration storage the reading and the migration of the first layout, which is
-- an argument of the loading.
pub mod Prelude
pub mod Access
pub mod Channel
pub mod Config
pub mod Machine
pub mod Guard
pub mod Memory
pub mod Pairing
pub mod Playback
pub mod Provider
pub mod Ptt
pub mod Runtime
pub mod Storage
pub mod Wire
