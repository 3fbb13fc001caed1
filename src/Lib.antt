-- ===== src/Lib.antt =====
-- wasm-host, the browser side: models and theorems for the JavaScript under apps/web/src and
-- packages.
--
-- Parts and files:
--
-- * Workspace (apps/web/src/workspace.js): the browser workspace store. `Workspace.Path` has
--   `normalizeWorkspacePath`, `parentPath`, `isChildPath` and `replacePathPrefix`;
--   `Workspace.Store` and `Workspace.Snapshots` have `MemoryBrowserWorkspaceStore`, one function for
--   each method, over `Prelude.Exec`, in which what was written before a throw stays written. Its
--   `Map`s are association lists in insertion order (`Prelude.Dict`). `Workspace.Commands` puts the methods
--   under one type. `Workspace.Tree` and its children prove the invariant, method by method, and
--   `Workspace.Loss` shows where a throw loses data.
--
-- * Auth (apps/web/src/secrets.js): the secret provider and the device-flow auth broker.
--   `Auth.Values` has the normalisation of arguments, `Auth.Broker` each method and
--   `Auth.Create` the constructors of `MemorySecretProvider` and `FakeBrowserDeviceFlowAuthBroker`, `Auth.Resolve`
--   `resolveBrowserBearerSecret`. `Auth.Logins` and its children prove the life cycle of a login,
--   method by method, `Auth.Commands` for any calls; `Auth.Tokens` and `Auth.Completion` say which
--   tokens are given out.
--
-- * Webc (apps/web/src/webc-metadata.js): the sections and volumes of a package. `Webc.Reader` has
--   the reads of the byte buffer, `Webc.Volumes` `parseVolumePayload` and `parseHeaderEntry`,
--   `Webc.Sections` `readWebcSections`; `Webc.Cbor` `CborReader`; `Webc.Objects` the lookups of
--   properties; `Webc.Manifest`
--   `extractWebcPackageMetadata` and what it calls; `Webc.Spans`, `Webc.Ends` and
--   `Webc.References` have the theorems. Of the manifest's `package` and `atoms` only the shape is
--   checked; their descriptive fields are not kept.
--
-- * Wasi (apps/web/src/wasi-module.js): the calls of `WasiPreview1Runtime` on file descriptors.
--   `Wasi.Descriptors` has its state: the descriptors with their rights, and in tables, under a
--   number, what descriptors share: the bytes of a file, an offset, a pipe. `Wasi.Memory` has the
--   reads and writes of the module's memory, `Wasi.Rights` the sets of rights and `fdStat`,
--   `Wasi.Ranges` the sizes and offsets of 64 bits, `Wasi.Reads`, `Wasi.Writes`, `Wasi.Sizes` and
--   `Wasi.Tables` the calls, `Wasi.Calls` puts them under one type. For the theorems, `Wasi.Within`
--   has one rule for each way to build a call over a relation of the tables before it to those
--   after it, `Wasi.Contents` shows which calls keep to the contents of their descriptor,
--   `Wasi.Steps` that the others take the steps of a relation; `Wasi.Counted`, `Wasi.Frozen` and
--   `Wasi.Numbers` have what the steps keep, `Wasi.Ends`, `Wasi.Fresh`, `Wasi.Capability` and
--   `Wasi.Splice` single calls. `Wasi.Readiness` has what polling asks of a
--   descriptor, `Wasi.Paths` how paths are normalised and resolved below a mount or a working
--   directory. `Wasi.Imports` finds the memory that a module imports; `Wasi.Imports.Ends` and
--   `Wasi.Imports.Numbers` have the theorems.
--
-- Texts are lists of UTF-16 code units and bytes are numbers. Errors are their `kind`; messages
-- are not modelled. The clock, `TextEncoder`, base64 and the locale's order of texts come from outside
-- the repository: they are the fields of `Workspace.Store.Host`, an argument of what uses them; the
-- broker's clock is an argument that gives each reading by its number, `none` for a value that is
-- no integer. A secret provider's lookup is an argument too, and so are
-- `TextDecoder` and `String` for the package reader; a float of 32 or 64 bits is its bytes.
-- In `Wasi`, pointers, lengths and descriptors are the numbers that they stand for, so those of 32
-- bits from 2 ^ 31 on, which reach the source with a sign, are not covered. The memory
-- does not grow during a call. The longest array that the platform makes is a field of the runtime's
-- state, and the abort signal is a flag of it. A property of a missing value throws `type_error`.
-- All loops run over the lists that they traverse. `Auth.Values.decimal_from` has fuel, one
-- more than the number, which has fewer digits. The reader of `Webc` has fuel: one more than the
-- bytes for the sections, and one more than the bytes of a volume's header for its directories and
-- for the depth of its entries, of which none is visited twice.
-- The search for a free descriptor has fuel: two more than the descriptors that are open from its
-- start on, since a turn passes one of them or the root of the package.
-- The sections of a module have one more than its bytes.
-- The CBOR reader recurses on the depth that is left, from `MAX_CBOR_DEPTH + 1`.
--
-- Not modelled of `wasi-module.js`: the opening and the change of paths, directories, polling, the
-- clocks, forks, processes and threads. Not modelled of `workspace.js`: the IndexedDB store, which
-- keeps a snapshot of the memory store in a database. Not modelled, under apps/web/src: the
-- command worker (`command-worker.js`), the terminal (`terminal.js`, `terminal-ui.js`), the HTTP
-- bridge (`http.js`, `http-worker.js`), the package loader (`package-loader.js`, `package-source.js`,
-- `artifact-manifest.js`), the app server (`app-server.js` and its session and transports), the
-- Codex executor (`codex-browser.js`), and the tool protocol of packages/browser-tool-protocol. Left
-- out, since they are DOM code, adapters around third-party code or no JavaScript: the pages'
-- scripts, packages/wasmer-sdk-adapter, the Rust crates and the vendored sources.
--
-- A JavaScript object is a map of its own names. Where a lookup finds names of `Object.prototype` or
-- of an entry under `__proto__`, `Webc.Objects.found_in` follows it. A CBOR map with the key
-- `__proto__` is outside the model and reads as the error `prototype_key`.
pub mod Prelude
pub mod Workspace
pub mod Auth
pub mod Webc
pub mod Wasi
