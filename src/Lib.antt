-- ===== src/Lib.antt =====
-- The BanyanHub SDK: a Go library that a program embeds to hold a license, to send heartbeats and to
-- update itself. This library models its core and proves what keeps a program licensed.
--
-- A guard (guard.go) keeps a state machine and a persistent store (state.go). At the start it validates
-- the lease that the store holds, or asks the server for one (license.go). A goroutine then sends
-- heartbeats, which renew the lease, kill the program or, where they fail for too long, lock it
-- (heartbeat.go). A heartbeat also announces updates, which are downloaded and verified (updater.go).
-- `Check` reads the state machine alone.
--
--   Base        Booleans, lists, texts and equality that the other files share
--   Errors      errors.go, api_error.go and api_response.go: the sentinels are constructors with the
--               names of the `Err` variables; `fmt.Errorf` with `%w` is `wrap` or `detail`; `errors.Is`
--               is `is`. A pair of a value and an error is a `Result`. Errors/Codes has the two
--               switches over codes, Errors/Api the bounded reading of a body
--   Types       the lease, the persisted state and the states of the machine
--   Platform    what is called and not implemented: the encoders, the time format, the cryptography
--   Files       `writeFileAtomic` and `renameAtomic` of state.go
--   State       the methods of `stateMachine`, each from the old state to the new one
--   Store       `persistentStateStore`: `Load` and `Save` from the old store to the new one
--   Canonical   `canonicalJSON` of license.go, and its order of members
--   Guard       the guard, `Check`, and the part of `New` that restores the state; Guard/Lifecycle is
--               `Start`, `Stop` and the goroutine of the heartbeat as steps of threads
--   License     `parseAndVerifyLease`, `acceptLease` and `maxTimestamp`; License/Online the check at
--               the start, `verifyLicense`
--   Binding     `Unseal` and `FeatureToken` of guard.go, the derivations of license.go that they use, and
--               `seal` of examples/hardbinding/sealbox/main.go
--   Heartbeat   `sendHeartbeat` and `verifyHeartbeatResponse`; Heartbeat/Loop the goroutine of
--               `startHeartbeat`; Heartbeat/Jitter its waiting time
--   Config      config.go: `setDefaults`, and Config/Url its functions on URLs
--   Http        `postJSON` and `getJSON` of guard.go, `marketplaceRequest` of marketplace.go; Http/Pinning
--               `newPinnedHTTPClient` and the check of a connection
--   Updater     updater.go: `updateBinaryComponent`; Updater/Version `isStrictlyNewerVersion`;
--               Updater/Limit `artifactLimitReader`, Updater/Download the download through it;
--               Updater/Frontend `updateFrontend`, with its paths, its archive and its swap of
--               directories; Updater/Routing `handleUpdateNotification`, `updateBackend` and
--               `updateManagedBackend`; Updater/Delivery an update over the download and
--               `applyBackendBinaryWithSelfupdate`
--   Plugins     plugins.go: the catalog and `UpdatePlugin`
--   Hash        hash.go: the hash of the binary and its cache
--   Opening     `New` of guard.go as a whole, with `decodePublicKeys`
--   Services    the requests of a program and their answers: Services/Releases `requestDownloadMeta` of
--               updater.go and `AutoResolveVersion` of guard.go, Services/Feedback feedback.go,
--               Services/Marketplace marketplace.go, Services/Activation activate.go
--   Tests       concrete runs, on a toy platform
--
-- Code that the SDK calls is a parameter: the fields of `Platform`, `VerifyEnv`, `HeartbeatEnv`,
-- `BinaryEnv`, `SelfUpdate`, `FrontendEnv`, `SwapFaults`, `Executable`, `Http`, `OpeningEnv`,
-- `ActivationEnv`, `Aead`, `Semver` and `ErrorFormat`. The clock is read once per field that is named a
-- time.
-- Times and durations are natural numbers of nanoseconds, times since the Unix epoch; no time before
-- it is modelled. The five minutes of allowed skew, which the code subtracts from one side of a
-- comparison, are added to the other side.
--
-- Fuel: `marshal_canonical_raw` stops at a depth of nesting, and `canonical_json` gives it the length
-- of its input plus one; every level of nesting takes at least one byte off its parent. The loop of
-- the heartbeat runs over the list of the rounds it sees, and every answer of a round is free. A copy
-- through the limit reader is given one read more than its body has bytes and pieces together, and it
-- is proved that this is enough.
--
-- Each operation runs as one step, but for `Start` and `Stop`, whose steps interleave with those of the
-- goroutines: the locks of the guard and the store are left out, but for the update lock, which is
-- tried and not waited for. Paths are those of Unix. The progress of an update is told without its
-- fraction, and logging is left out.
--
-- Not modelled: the collection of a fingerprint, net/http, the encoding of JSON and of forms, and what
-- the self-update library does, which are input and output or calls of libraries. Timeouts and contexts
-- are left out, but for the contexts that `Start` and `Stop` use.
pub mod Base
pub mod Errors
pub mod Types
pub mod Platform
pub mod Files
pub mod State
pub mod Store
pub mod Canonical
pub mod Guard
pub mod License
pub mod Binding
pub mod Heartbeat
pub mod Config
pub mod Http
pub mod Updater
pub mod Plugins
pub mod Hash
pub mod Opening
pub mod Services
pub mod Tests
